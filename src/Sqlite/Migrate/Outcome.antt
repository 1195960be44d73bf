-- ===== src/Sqlite/Migrate/Outcome.antt =====
-- migrate.go: a run of the migrations applies a first part of the pending ones, each whole, and a second
-- run does nothing.
use mathlib.Core.Path.{subst}
use spendlease.Base.{
  ◌⊎◌, ℕ, ◌≡◌, refl, sym, ap, ◌∙◌, inl, inr, Bool, true, false, not, List, [], ◌∷◌, ◌++◌, Option,
  none, some, Bytes, any, all, keep, ◌==◌, arith, Option-cases, Bool-cases,
}
use spendlease.Sqlite.Migrate.{Migration, Migrated, is_applied, apply_one, apply_all, migrate}

module _ {S : Type 0} (exec : Bytes → S → Option S) where
  -- The texts of migrations, run one after the other.
  unfoldable pub executed : List Migration → S → Option S
  executed [] s = some s
  executed (m ∷ ms) s = elim (exec m.sql s) [ none ↦ none | some s' ↦ executed ms s' ]

  -- The versions of migrations, recorded one after the other.
  abbrev pub recorded : List Migration → List ℕ → List ℕ
  recorded [] vs = vs
  recorded (m ∷ ms) vs = recorded ms (m.version ∷ vs)

  -- What is left undone is nothing, or starts with a migration that the database refuses: its text, or
  -- its version, which is there already.
  abbrev pub IsStopped : Migrated S → List Migration → Bool → Type 0
  IsStopped s [] done = done ≡ true
  IsStopped s (m ∷ ms) done =
      (done ≡ false)
      × ((exec m.sql s.schema ≡ none) ⊎ (any (λ v. v == m.version) s.versions ≡ true))

  abbrev pub IsPrefixRun : List Migration → Migrated S → Migrated S × Bool → Type 0
  IsPrefixRun pending s out =
      (done : List Migration) × (rest : List Migration) × (pending ≡ done ++ rest)
      × (executed done s.schema ≡ some out.0.schema)
      × (out.0.versions ≡ recorded done s.versions)
      × IsStopped out.0 rest out.1

  apply_one-none :
      (m : Migration) (s : Migrated S)
      → apply_one exec m s ≡ none
      → (exec m.sql s.schema ≡ none) ⊎ (any (λ v. v == m.version) s.versions ≡ true)
  unfolding apply_one
  apply_one-none m s h = elim (Option-cases (exec m.sql s.schema)) [
    | inl refused ↦ inl refused
    | inr (schema, taken) ↦ inr (ground arith)
  ]

  apply_one-some :
      (m : Migration) (s s' : Migrated S)
      → apply_one exec m s ≡ some s'
      → (exec m.sql s.schema ≡ some s'.schema) × (s'.versions ≡ m.version ∷ s.versions)
  unfolding apply_one
  apply_one-some m s s' h = elim (Option-cases (exec m.sql s.schema)) [
    | inl refused ↦ absurd (ground arith)
    | inr (schema, taken) ↦ (ground arith, ground arith)
  ]

  apply_all-IsPrefixRun :
      (applied : Migration → Bool) (ms : List Migration) (s : Migrated S)
      → IsPrefixRun (keep (λ m. not (applied m)) ms) s (apply_all exec applied ms s)
  unfolding apply_all executed
  apply_all-IsPrefixRun applied [] s = ([], [], refl, refl, refl, refl)
  apply_all-IsPrefixRun applied (m ∷ ms) s = elim (Bool-cases (applied m)) [
    | inl old ↦
        let pending : keep (λ n. not (applied n)) (m ∷ ms) ≡ keep (λ n. not (applied n)) ms =
          ground arith in
        let same : apply_all exec applied (m ∷ ms) s ≡ apply_all exec applied ms s = ground arith in
        subst (λ q. IsPrefixRun q s (apply_all exec applied (m ∷ ms) s)) (sym pending)
          (subst (IsPrefixRun (keep (λ n. not (applied n)) ms) s) (sym same)
            (apply_all-IsPrefixRun applied ms s))
    | inr new ↦
        let pending : keep (λ n. not (applied n)) (m ∷ ms) ≡ m ∷ keep (λ n. not (applied n)) ms =
          ground arith in
        subst (λ q. IsPrefixRun q s (apply_all exec applied (m ∷ ms) s)) (sym pending)
          (elim (Option-cases (apply_one exec m s)) [
            | inl failed ↦
                let same : apply_all exec applied (m ∷ ms) s ≡ (s, false) = ground arith in
                subst (IsPrefixRun (m ∷ keep (λ n. not (applied n)) ms) s) (sym same) (
                  [],
                  m ∷ keep (λ n. not (applied n)) ms,
                  refl,
                  refl,
                  refl,
                  (refl, apply_one-none m s failed),
                )
            | inr (s', taken) ↦
                let same : apply_all exec applied (m ∷ ms) s ≡ apply_all exec applied ms s' =
                  ground arith in
                let (done, rest, parts, run, versions, stop) =
                  apply_all-IsPrefixRun applied ms s' in
                let (text, noted) = apply_one-some m s s' taken in
                let first : executed (m ∷ done) s.schema ≡ executed done s'.schema = ground arith in
                let order = ap (recorded done) noted in
                subst (IsPrefixRun (m ∷ keep (λ n. not (applied n)) ms) s) (sym same)
                  (m ∷ done, rest, ap (λ q. m ∷ q) parts, first ∙ run, versions ∙ order, stop)
          ])
  ]

  -- A run of the migrations runs the texts of a first part of those whose version was not
  -- recorded, one after the other, and records exactly the versions of that part, in that order,
  -- before those that were there; it reports success exactly if nothing is left over, and
  -- otherwise the database refuses, in the state that was reached, the text of the first
  -- migration that is left over, or its version, which is there already.
  pub migrate-IsPrefixRun :
      (ms : List Migration) (s : Migrated S)
      → IsPrefixRun
          (keep (λ m. not (any (λ v. v == m.version) s.versions)) ms)
          s
          (migrate exec ms s)
  unfolding migrate
  migrate-IsPrefixRun ms s = apply_all-IsPrefixRun (is_applied exec s) ms s

  -- What is recorded stays recorded.
  apply_all-keeps :
      (v : ℕ) (applied : Migration → Bool) (ms : List Migration) (s s' : Migrated S)
      → apply_all exec applied ms s ≡ (s', true)
      → any (λ w. w == v) s.versions ≡ true
      → any (λ w. w == v) s'.versions ≡ true
  unfolding apply_all
  apply_all-keeps v applied [] s s' h k = ground arith
  apply_all-keeps v applied (m ∷ ms) s s' h k = elim (Bool-cases (applied m)) [
    | inl old ↦ apply_all-keeps v applied ms s s' (ground arith) k
    | inr new ↦ elim (Option-cases (apply_one exec m s)) [
      | inl failed ↦ absurd (ground arith)
      | inr (t, taken) ↦
          let more = (apply_one-some m s t taken).1 in
          apply_all-keeps v applied ms t s' (ground arith) (ground arith)
    ]
  ]

  apply_all-records :
      (applied : Migration → Bool) (ms : List Migration) (s s' : Migrated S)
      → ((m : Migration) → applied m ≡ true → is_applied exec s m ≡ true)
      → apply_all exec applied ms s ≡ (s', true)
      → all (is_applied exec s') ms ≡ true
  unfolding apply_all
  apply_all-records applied [] s s' known h = refl
  apply_all-records applied (m ∷ ms) s s' known h = elim (Bool-cases (applied m)) [
    | inl old ↦
        let rest = apply_all-records applied ms s s' known (ground arith) in
        let here = apply_all-keeps m.version applied ms s s' (ground arith) (known m old) in
        ground arith
    | inr new ↦ elim (Option-cases (apply_one exec m s)) [
      | inl failed ↦ absurd (ground arith)
      | inr (t, taken) ↦
          let more = (apply_one-some m s t taken).1 in
          let later : apply_all exec applied ms t ≡ (s', true) = ground arith in
          let rest =
            apply_all-records applied ms t s' (λ n old. ground (arith, known n old)) later in
          let here = apply_all-keeps m.version applied ms t s' later (ground arith) in ground arith
    ]
  ]

  apply_all_applied :
      (applied : Migration → Bool) (ms : List Migration) (s : Migrated S)
      → all applied ms ≡ true
      → apply_all exec applied ms s ≡ (s, true)
  unfolding apply_all
  apply_all_applied applied [] s h = refl
  apply_all_applied applied (m ∷ ms) s h = ground (arith, apply_all_applied applied ms s)

  -- After a run of the migrations that succeeds, a second run of the same migrations succeeds and
  -- changes nothing.
  pub migrate-migrate :
      (ms : List Migration) (s s' : Migrated S)
      → migrate exec ms s ≡ (s', true)
      → migrate exec ms s' ≡ (s', true)
  unfolding migrate
  migrate-migrate ms s s' h =
      apply_all_applied (is_applied exec s') ms s'
        (apply_all-records (is_applied exec s) ms s s' (λ m k. k) h)
