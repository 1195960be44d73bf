-- ===== src/Sqlite/Tree/Subtree.antt =====
-- The subtree query against the ancestors: a run lies in the subtree of another exactly when that
-- one is among its ancestors.
use spendlease.Base.{
  ℕ, zero, suc, ◌≤◌, ◌≡◌, refl, inl, inr, Bool, true, false, not, ◌&&◌, ◌||◌, List, [], ◌∷◌, none,
  arith, Bytes, str_eq, str_eq_iff, str_eq_comm, if◌then◌else◌, length, any, is_some, Bool-cases,
}
use spendlease.Store.{Run, is_root}
use spendlease.Sqlite.Tables.{find_run}
use spendlease.Sqlite.Tree.{descendants, subtree, contains, ancestors}
use spendlease.Sqlite.Tree.Ancestors.{IsRooted, chain, ancestors-chain}
use spendlease.Sqlite.Tree.Descendants.{
  contains-descendants_cons, contains-descendants_newest, descendants_newest,
}

-- `n` is an ancestor of `x`, or `x` itself.
unfoldable pub under : List Run → Bytes → Bytes → Bool
under rs n x = any (λ r. str_eq r.id n) (chain rs x)

chain_exists :
    (rs : List Run) (n x : Bytes) → IsRooted rs → find_run n rs ≡ none → under rs n x ≡ false
unfolding under chain find_run
chain_exists [] n x w h = refl
chain_exists (r ∷ rs) n x w h =
    ground (arith, chain_exists rs n x w.2, chain_exists rs n r.parent_run_id w.2)

under-cons :
    (r : Run) (rs : List Run) (n x : Bytes)
    → under (r ∷ rs) n x ≡ (
        if str_eq r.id x
        then str_eq r.id n || (not (is_root r) && under rs n r.parent_run_id)
        else under rs n x)
unfolding under chain
under-cons r rs n x = ground arith

parent_ne :
    (r : Run) (rs : List Run)
    → IsRooted (r ∷ rs)
    → is_root r ≡ false
    → str_eq r.id r.parent_run_id ≡ false
parent_ne r rs w h = ground (arith, str_eq_iff r.id r.parent_run_id)

-- The newest run, from the claim about its parent.
descendants-under_newest :
    (f : ℕ) (r : Run) (rs : List Run) (n : Bytes)
    → IsRooted (r ∷ rs)
    → (str_eq r.id n ≡ false
        → (str_eq n r.parent_run_id || contains r.parent_run_id (descendants f rs n))
          ≡ under rs n r.parent_run_id)
    → (str_eq n r.id || contains r.id (descendants (suc f) (r ∷ rs) n))
      ≡ (str_eq r.id n || (not (is_root r) && under rs n r.parent_run_id))
descendants-under_newest f r rs n w ih = ground (
  arith,
  contains-descendants_newest f r rs n w,
  contains-descendants_cons f r rs r.parent_run_id n w,
  parent_ne r rs w,
  str_eq_comm n r.id,
  str_eq_comm n r.parent_run_id,
  ih,
)

descendants-under :
    (f : ℕ) (rs : List Run) (n x : Bytes)
    → IsRooted rs
    → length rs ≤ f
    → is_some (find_run n rs) ≡ true
    → (str_eq n x || contains x (descendants f rs n)) ≡ under rs n x
unfolding find_run
descendants-under f [] n x w h e = cc
descendants-under zero (r ∷ rs) n x w h e = absurd (omega arith)
descendants-under (suc f) (r ∷ rs) n x w h e = elim (Bool-cases (str_eq r.id x)) [
  | inl new ↦
      rw (under-cons r rs n x, new, ← (str_eq_iff r.id x).0 new)
        (descendants-under_newest f r rs n w
          (λ ne. descendants-under f rs n r.parent_run_id w.2 (omega arith) (ground arith)))
  | inr old ↦ elim (Bool-cases (str_eq r.id n)) [
    | inl top ↦ ground (
      arith,
      under-cons r rs n x,
      str_eq_iff r.id n,
      descendants_newest (suc f) r rs w,
      chain_exists rs r.id x w.2 w.0,
    )
    | inr inner ↦ ground (
      arith,
      under-cons r rs n x,
      contains-descendants_cons (suc f) r rs x n w old,
      descendants-under (suc f) rs n x w.2 (omega arith),
    )
  ]
]

-- The two recursive queries agree.
pub subtree-under :
    (rs : List Run) (n x : Bytes) → IsRooted rs → contains x (subtree rs n) ≡ under rs n x
unfolding subtree
subtree-under rs n x w =
    ground (arith, descendants-under (length rs) rs n x w (omega arith), chain_exists rs n x w)

-- In a table in which ids differ and every parent is an older row, a run lies in the subtree of
-- another, as the subtree query finds it, exactly if that other one is among its ancestors, as
-- the ancestors query finds them.
pub subtree-ancestors :
    (rs : List Run) (n x : Bytes)
    → IsRooted rs
    → contains x (subtree rs n) ≡ any (λ r. str_eq r.id n) (ancestors rs x)
unfolding under
subtree-ancestors rs n x w = rw (ancestors-chain rs x w) (subtree-under rs n x w)

-- A new run changes nothing under the older ones.
pub under-old :
    (r : Run) (rs : List Run) (n x : Bytes)
    → str_eq r.id x ≡ false
    → under (r ∷ rs) n x ≡ under rs n x
under-old r rs n x h = rw (under-cons r rs n x, h)

pub under-missing :
    (rs : List Run) (n x : Bytes) → IsRooted rs → find_run n rs ≡ none → under rs n x ≡ false
under-missing = chain_exists
