-- ===== src/Sqlite/Credentials/Rows.antt =====
-- credentials.go: lookups in the table after it was written, sorted or rotated.
use spendlease.Base.{
  ◌≡◌, refl, ◌∙◌, ◌⊎◌, inl, inr, Bool, true, false, not, ◌&&◌, [], ◌∷◌, none, some, Bytes, str_eq,
  str_eq_iff, str_eq_refl, is_some, if◌then◌else◌, arith, Option-cases, Bool-cases, sum_cases,
}
use spendlease.Vault.{Credential, VaultError}
use spendlease.Sqlite.Credentials.{
  CredentialDb, find_credential, replaced, put_credential, insert_by_provider, sort_by_provider,
  rotate_rows,
}

-- The primary key of the table.
unfoldable pub distinct : CredentialDb → Bool
unfolding find_credential
distinct [] = true
distinct (c ∷ cs) = not (is_some (find_credential c.provider cs)) && distinct cs

pub find-put :
    (p : Bytes) (r : Credential) (db : CredentialDb)
    → str_eq r.provider p ≡ false
    → find_credential p (put_credential r db) ≡ find_credential p db
unfolding find_credential put_credential
find-put p r [] h = ground arith
find-put p r (c ∷ cs) h = ground (arith, find-put p r cs, str_eq_iff c.provider r.provider)

pub find-put_same :
    (r c : Credential) (db : CredentialDb)
    → find_credential r.provider db ≡ some c
    → find_credential r.provider (put_credential r db) ≡ some (replaced c r)
unfolding find_credential put_credential
find-put_same r c [] h = absurd (cc h)
find-put_same r c (d ∷ ds) h = ground (arith, find-put_same r c ds)

find-insert :
    (p : Bytes) (c : Credential) (ds : CredentialDb)
    → find_credential c.provider ds ≡ none
    → find_credential p (insert_by_provider c ds)
      ≡ (if str_eq c.provider p then some c else find_credential p ds)
unfolding find_credential insert_by_provider
find-insert p c [] h = refl
find-insert p c (d ∷ ds) h = ground (
  arith,
  find-insert p c ds,
  str_eq_iff c.provider p,
  str_eq_iff d.provider p,
  str_eq_iff d.provider c.provider,
)

pub find-sort :
    (p : Bytes) (db : CredentialDb)
    → distinct db ≡ true
    → find_credential p (sort_by_provider db) ≡ find_credential p db
unfolding distinct sort_by_provider find_credential
find-sort p [] h = refl
find-sort p (c ∷ cs) h = ground (
  arith,
  find-sort p cs,
  find-sort c.provider cs,
  find-insert p c (sort_by_provider cs),
  Option-cases (find_credential c.provider cs),
)

find-insert_none :
    (p : Bytes) (c : Credential) (ds : CredentialDb)
    → is_some (find_credential p (insert_by_provider c ds))
      ≡ (if str_eq c.provider p then true else is_some (find_credential p ds))
unfolding find_credential insert_by_provider
find-insert_none p c [] = ground arith
find-insert_none p c (d ∷ ds) = ground (arith, find-insert_none p c ds)

distinct-insert :
    (c : Credential) (ds : CredentialDb)
    → distinct (c ∷ ds) ≡ true
    → distinct (insert_by_provider c ds) ≡ true
unfolding distinct insert_by_provider find_credential
distinct-insert c [] h = refl
distinct-insert c (d ∷ ds) h = ground (
  arith,
  distinct-insert c ds,
  find-insert_none d.provider c ds,
  str_eq_iff d.provider c.provider,
  str_eq_iff c.provider d.provider,
)

pub distinct-sort : (db : CredentialDb) → distinct db ≡ true → distinct (sort_by_provider db) ≡ true
unfolding distinct sort_by_provider
distinct-sort [] h = refl
distinct-sort (c ∷ cs) h =
    ground
      (arith, distinct-sort cs, distinct-insert c (sort_by_provider cs), find-sort c.provider cs)

pub find-put_new :
    (r : Credential) (db : CredentialDb)
    → find_credential r.provider db ≡ none
    → find_credential r.provider (put_credential r db) ≡ some r
unfolding find_credential put_credential
find-put_new r [] h = ground (arith, str_eq_refl r.provider)
find-put_new r (d ∷ ds) h = ground (arith, find-put_new r ds)

pub find_credential_provider :
    (p : Bytes) (c : Credential) (db : CredentialDb)
    → find_credential p db ≡ some c
    → c.provider ≡ p
unfolding find_credential
find_credential_provider p c [] h = absurd (cc h)
find_credential_provider p c (d ∷ ds) h =
    ground (arith, find_credential_provider p c ds, str_eq_iff d.provider p)

module _ (t : Credential → VaultError ⊎ Credential) where
  -- One round of the loop that does not fail.
  rotate_rows_inv :
      (c : Credential) (cs db db' : CredentialDb)
      → rotate_rows t (c ∷ cs) db ≡ inr db'
      → (r : Credential) × (t c ≡ inr r)
        × (r.provider ≡ c.provider)
        × (rotate_rows t cs (put_credential r db) ≡ inr db')
  unfolding rotate_rows
  rotate_rows_inv c cs db db' h = elim (sum_cases (t c)) [
    | inl (e, failed) ↦ absurd (ground arith)
    | inr (r, done) ↦ (r, done, ground (arith, str_eq_iff r.provider c.provider), ground arith)
  ]

  pub rotate_rows_other :
      (p : Bytes) (cs db db' : CredentialDb)
      → find_credential p cs ≡ none
      → rotate_rows t cs db ≡ inr db'
      → find_credential p db' ≡ find_credential p db
  unfolding find_credential
  rotate_rows_other p [] db db' f h = unfold rotate_rows in ground arith
  rotate_rows_other p (c ∷ cs) db db' f h =
      let (r, done, same, rest) = rotate_rows_inv c cs db db' h in
      let later = rotate_rows_other p cs (put_credential r db) db' (ground arith) rest in
      later ∙ find-put p r db (ground arith)

  pub rotate_rows_found :
      (p : Bytes) (c o : Credential) (cs db db' : CredentialDb)
      → find_credential p db ≡ some o
      → find_credential p cs ≡ some c
      → distinct cs ≡ true
      → rotate_rows t cs db ≡ inr db'
      → (r : Credential) × (t c ≡ inr r) × (find_credential p db' ≡ some (replaced o r))
  unfolding find_credential distinct
  rotate_rows_found p c o [] db db' i f u h = absurd (cc f)
  rotate_rows_found p c o (d ∷ cs) db db' i f u h =
      let (r, done, same, rest) = rotate_rows_inv d cs db db' h in
      elim (Bool-cases (str_eq d.provider p)) [
        | inl mine ↦
            let e : d.provider ≡ p = (str_eq_iff d.provider p).0 mine in
            let put : find_credential p (put_credential r db) ≡ some (replaced o r) =
              ground (arith, find-put_same r o db) in
            let none_left : find_credential p cs ≡ none =
              ground (arith, Option-cases (find_credential p cs)) in
            (r, ground arith, rotate_rows_other p cs (put_credential r db) db' none_left rest ∙ put)
        | inr other ↦
            rotate_rows_found p c o cs (put_credential r db) db'
              (find-put p r db (ground arith) ∙ i) (ground arith) (ground arith) rest
      ]

  pub rotate_rows_failed :
      (e : VaultError) (cs db : CredentialDb)
      → ((c r : Credential) → t c ≡ inr r → str_eq r.provider c.provider ≡ true)
      → distinct cs ≡ true
      → rotate_rows t cs db ≡ inl e
      → (c : Credential) × (find_credential c.provider cs ≡ some c) × (t c ≡ inl e)
  unfolding rotate_rows find_credential distinct
  rotate_rows_failed e [] db k u h = absurd (cc h)
  rotate_rows_failed e (c ∷ cs) db k u h = elim (sum_cases (t c)) [
    | inl (e', failed) ↦ (c, ground (arith, str_eq_refl c.provider), ground arith)
    | inr (r, done) ↦
        let (d, found, failed) =
          rotate_rows_failed e cs (put_credential r db) k (ground arith)
            (ground (arith, k c r done)) in
        (d, ground (arith, str_eq_iff c.provider d.provider), failed)
  ]
