-- ===== src/Sqlite/Tree/Ancestors.antt =====
-- The ancestors query ends: with a unit of fuel for each row it reads the whole chain. A table in
-- which every parent is older than its child has no cycle.
use mathlib.Core.Path.{subst}
use spendlease.Base.{
  ℕ, zero, suc, ◌≤◌, ◌≡◌, refl, sym, ◌∙◌, ◌⊎◌, inl, inr, true, false, List, [], ◌∷◌, none, some,
  arith, Bytes, str_eq, str_eq_iff, if◌then◌else◌, length, is_some, Bool-cases, Option-cases,
}
use spendlease.Store.{Run, is_root}
use spendlease.Sqlite.Tables.{find_run}
use spendlease.Sqlite.Tree.{ancestors_upto, ancestors}

-- Each run has an id of its own, and a parent that is older.
abbrev pub IsRooted : List Run → Type 0
IsRooted [] = Unit
IsRooted (r ∷ rs) =
    (find_run r.id rs ≡ none)
    × ((is_root r ≡ true) ⊎ (is_some (find_run r.parent_run_id rs) ≡ true))
    × IsRooted rs

-- The chain of a rooted table, by one pass over it.
unfoldable pub chain : List Run → Bytes → List Run
chain [] i = []
chain (r ∷ rs) i =
    if str_eq r.id i then r ∷ (if is_root r then [] else chain rs r.parent_run_id) else chain rs i

pub chain_missing : (rs : List Run) (i : Bytes) → find_run i rs ≡ none → chain rs i ≡ []
unfolding chain find_run
chain_missing [] i h = refl
chain_missing (r ∷ rs) i h = ground (arith, chain_missing rs i)

pub find_run-cons :
    (r : Run) (rs : List Run) (i : Bytes)
    → is_some (find_run i rs) ≡ true
    → is_some (find_run i (r ∷ rs)) ≡ true
unfolding find_run
find_run-cons r rs i h = ground arith

pub parent_found :
    (rs : List Run) (i : Bytes) (q : Run)
    → IsRooted rs
    → find_run i rs ≡ some q
    → is_root q ≡ false
    → is_some (find_run q.parent_run_id rs) ≡ true
unfolding find_run
parent_found [] i q w h n = cc
parent_found (r ∷ rs) i q w h n =
    ground (arith, parent_found rs i q w.2, find_run-cons r rs q.parent_run_id)

-- A newer row does not change the chain of an older run.
pub ancestors_upto-cons :
    (f : ℕ) (r : Run) (rs : List Run) (i : Bytes)
    → IsRooted (r ∷ rs)
    → is_some (find_run i rs) ≡ true
    → ancestors_upto f (r ∷ rs) i ≡ ancestors_upto f rs i
unfolding ancestors_upto find_run
ancestors_upto-cons zero r rs i w h = refl
ancestors_upto-cons (suc f) r rs i w h = elim (Option-cases (find_run i rs)) [
  | inl e ↦ ground arith
  | inr (q, e) ↦ ground (
    arith,
    str_eq_iff r.id i,
    parent_found rs i q w.2,
    ancestors_upto-cons f r rs q.parent_run_id w,
  )
]

pub ancestors_upto-chain :
    (f : ℕ) (rs : List Run) (i : Bytes)
    → IsRooted rs
    → length rs ≤ f
    → ancestors_upto f rs i ≡ chain rs i
unfolding ancestors_upto find_run chain
ancestors_upto-chain zero [] i w h = refl
ancestors_upto-chain (suc f) [] i w h = refl
ancestors_upto-chain zero (r ∷ rs) i w h = absurd (omega arith)
ancestors_upto-chain (suc f) (r ∷ rs) i w h = elim (Bool-cases (is_some (find_run i rs))) [
  | inl found ↦ ground (
    arith,
    ancestors_upto-cons (suc f) r rs i w found,
    ancestors_upto-chain (suc f) rs i w.2 (omega arith),
    ancestors_upto-cons f r rs r.parent_run_id w,
    ancestors_upto-chain f rs r.parent_run_id w.2 (omega arith),
  )
  | inr missing ↦ ground (
    arith,
    chain_missing rs i,
    ancestors_upto-cons f r rs r.parent_run_id w,
    ancestors_upto-chain f rs r.parent_run_id w.2 (omega arith),
  )
]

-- Fuel beyond the number of rows changes nothing.
ancestors_upto_enough :
    (f : ℕ) (rs : List Run) (i : Bytes)
    → IsRooted rs
    → length rs ≤ f
    → ancestors_upto f rs i ≡ ancestors rs i
unfolding ancestors
ancestors_upto_enough f rs i w h =
    ancestors_upto-chain f rs i w h ∙ sym (ancestors_upto-chain (length rs) rs i w (omega arith))

pub ancestors-chain : (rs : List Run) (i : Bytes) → IsRooted rs → ancestors rs i ≡ chain rs i
unfolding ancestors
ancestors-chain rs i w = ancestors_upto-chain (length rs) rs i w (omega arith)

-- The runs from an id up to a root, each the parent of the one before; for an unknown id, none.
abbrev pub IsLineage : List Run → Bytes → List Run → Type 0
IsLineage rs i [] = find_run i rs ≡ none
IsLineage rs i (x ∷ xs) =
    (find_run i rs ≡ some x)
    × (((is_root x ≡ true) × (xs ≡ [])) ⊎ ((is_root x ≡ false) × IsLineage rs x.parent_run_id xs))

find_run-older :
    (r : Run) (rs : List Run) (i : Bytes)
    → find_run r.id rs ≡ none
    → is_some (find_run i rs) ≡ true
    → find_run i (r ∷ rs) ≡ find_run i rs
unfolding find_run
find_run-older r rs i n h = ground (arith, str_eq_iff r.id i)

-- A newer run is on no older lineage.
IsLineage-cons :
    (r : Run) (rs : List Run) (i : Bytes) (xs : List Run)
    → IsRooted (r ∷ rs)
    → is_some (find_run i rs) ≡ true
    → IsLineage rs i xs
    → IsLineage (r ∷ rs) i xs
IsLineage-cons r rs i [] w h v = absurd (ground arith)
IsLineage-cons r rs i (x ∷ xs) w h (found, inl top) = (find_run-older r rs i w.0 h ∙ found, inl top)
IsLineage-cons r rs i (x ∷ xs) w h (found, inr (below, up)) = (
  find_run-older r rs i w.0 h ∙ found,
  inr (below, IsLineage-cons r rs x.parent_run_id xs w (parent_found rs i x w.2 found below) up),
)

chain-IsLineage : (rs : List Run) (i : Bytes) → IsRooted rs → IsLineage rs i (chain rs i)
unfolding chain find_run
chain-IsLineage [] i w = refl
chain-IsLineage (r ∷ rs) i w = elim (Bool-cases (str_eq r.id i)) [
  | inl here ↦
      let found : find_run i (r ∷ rs) ≡ some r = ground arith in
      elim (Bool-cases (is_root r)) [
        | inl top ↦
            let same : chain (r ∷ rs) i ≡ r ∷ [] = ground arith in
            subst (IsLineage (r ∷ rs) i) (sym same) (found, inl (top, refl))
        | inr below ↦
            let same : chain (r ∷ rs) i ≡ r ∷ chain rs r.parent_run_id = ground arith in
            let above : is_some (find_run r.parent_run_id rs) ≡ true = ground arith in
            subst (IsLineage (r ∷ rs) i) (sym same) (
              found,
              inr (
                below,
                IsLineage-cons r rs r.parent_run_id (chain rs r.parent_run_id) w above
                    (chain-IsLineage rs r.parent_run_id w.2),
              ),
            )
      ]
  | inr there ↦
      let same : chain (r ∷ rs) i ≡ chain rs i = ground arith in
      subst (IsLineage (r ∷ rs) i) (sym same) (elim (Option-cases (find_run i rs)) [
        | inl missing ↦
            let unknown : find_run i (r ∷ rs) ≡ none = ground arith in
            subst (IsLineage (r ∷ rs) i) (sym (chain_missing rs i missing)) unknown
        | inr (q, found) ↦
            IsLineage-cons r rs i (chain rs i) w (ground arith) (chain-IsLineage rs i w.2)
      ])
]

-- In a table in which ids differ and every parent is an older row, the ancestors query reads the
-- whole chain: its result starts with the run of the given id, each further run is the one that
-- the run before names as its parent, and the last one is a root (for an unknown id the result is
-- empty); and any fuel of at least the number of rows gives this result.
pub ancestors_upto-IsLineage :
    (f : ℕ) (rs : List Run) (i : Bytes)
    → IsRooted rs
    → length rs ≤ f
    → (ancestors_upto f rs i ≡ ancestors rs i) × IsLineage rs i (ancestors rs i)
ancestors_upto-IsLineage f rs i w h = (
  ancestors_upto_enough f rs i w h,
  subst (IsLineage rs i) (sym (ancestors-chain rs i w)) (chain-IsLineage rs i w),
)
