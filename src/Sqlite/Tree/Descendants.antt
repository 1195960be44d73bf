-- ===== src/Sqlite/Tree/Descendants.antt =====
-- What lies below a run: a newer row adds only itself, below its parent.
use spendlease.Base.{
  ℕ, zero, suc, ◌≡◌, refl, Bool, true, false, not, ◌&&◌, ◌||◌, List, [], ◌∷◌, ◌++◌, none, arith,
  Bytes, str_eq, str_eq_iff, str_eq_refl, str_eq_comm, any,
}
use spendlease.Store.{Run, is_root}
use spendlease.Sqlite.Tables.{find_run}
use spendlease.Sqlite.Tree.{is_child, children, descendants, contains}
use spendlease.Sqlite.Tree.Ancestors.{IsRooted}

contains-append :
    (x : Bytes) (xs ys : List Bytes) → contains x (xs ++ ys) ≡ (contains x xs || contains x ys)
contains-append x [] ys = refl
contains-append x (y ∷ xs) ys = ground (arith, contains-append x xs ys)

contains-children_ext :
    (x n : Bytes) (b c : Bytes → List Bytes) (rs : List Run)
    → ((y : Bytes) → contains x (b y) ≡ contains x (c y))
    → contains x (children b n rs) ≡ contains x (children c n rs)
unfolding children
contains-children_ext x n b c [] h = refl
contains-children_ext x n b c (r ∷ rs) h = ground (
  arith,
  h r.id,
  contains-children_ext x n b c rs h,
  contains-append x (r.id ∷ b r.id) (children b n rs),
  contains-append x (r.id ∷ c r.id) (children c n rs),
)

-- A run that is not in the table has no child there.
children_missing :
    (below : Bytes → List Bytes) (p : Bytes) (rs : List Run)
    → IsRooted rs
    → find_run p rs ≡ none
    → children below p rs ≡ []
unfolding children find_run
children_missing below p [] w h = refl
children_missing below p (r ∷ rs) w h =
    ground (arith, children_missing below p rs w.2, str_eq_iff r.parent_run_id p)

-- The newest run has no child.
children_newest :
    (below : Bytes → List Bytes) (r : Run) (rs : List Run)
    → IsRooted (r ∷ rs)
    → children below r.id (r ∷ rs) ≡ []
unfolding children
children_newest below r rs w =
    ground (arith, children_missing below r.id rs w.2 w.0, str_eq_iff r.parent_run_id r.id)

pub descendants_newest :
    (f : ℕ) (r : Run) (rs : List Run) → IsRooted (r ∷ rs) → descendants f (r ∷ rs) r.id ≡ []
unfolding descendants
descendants_newest zero r rs w = refl
descendants_newest (suc f) r rs w = children_newest (descendants f (r ∷ rs)) r rs w

-- A newer row adds only itself to a subtree.
pub contains-descendants_cons :
    (f : ℕ) (r : Run) (rs : List Run) (x n : Bytes)
    → IsRooted (r ∷ rs)
    → str_eq r.id x ≡ false
    → contains x (descendants f (r ∷ rs) n) ≡ contains x (descendants f rs n)
unfolding descendants
contains-descendants_cons zero r rs x n w h = refl
contains-descendants_cons (suc f) r rs x n w h =
    unfold children in
    ground (
      arith,
      descendants_newest f r rs w,
      contains-children_ext x n (descendants f (r ∷ rs)) (descendants f rs) rs
          (λ y. contains-descendants_cons f r rs x y w h),
    )

-- The row of `r` itself among `rs`, as a child of `n`.
abbrev is_row_below : Bytes → Bytes → Run → Bool
is_row_below n x z = is_child n z && str_eq z.id x

pub no_row_below :
    (n x : Bytes) (rs : List Run) → find_run x rs ≡ none → any (is_row_below n x) rs ≡ false
unfolding find_run
no_row_below n x [] h = refl
no_row_below n x (r ∷ rs) h = ground (arith, no_row_below n x rs)

-- What holds below each child holds below all of them.
contains-children_through :
    (x p n : Bytes) (q : Bool) (b c : Bytes → List Bytes) (rs : List Run)
    → ((y : Bytes) → contains x (b y) ≡ (q && (str_eq p y || contains p (c y))))
    → contains x (children b n rs)
      ≡ (any (is_row_below n x) rs || (q && contains p (children c n rs)))
unfolding children
contains-children_through x p n true b c [] h = refl
contains-children_through x p n false b c [] h = refl
contains-children_through x p n q b c (r ∷ rs) h = ground (
  arith,
  h r.id,
  str_eq_comm p r.id,
  contains-children_through x p n q b c rs h,
  contains-append x (r.id ∷ b r.id) (children b n rs),
  contains-append p (r.id ∷ c r.id) (children c n rs),
)

contains-children_none :
    (x n : Bytes) (rs : List Run) → contains x (children (λ _. []) n rs) ≡ any (is_row_below n x) rs
unfolding children
contains-children_none x n [] = refl
contains-children_none x n (r ∷ rs) = ground (arith, contains-children_none x n rs)

-- The newest run is below `n` exactly when its parent is `n` or is below `n`.
pub contains-descendants_newest :
    (f : ℕ) (r : Run) (rs : List Run) (n : Bytes)
    → IsRooted (r ∷ rs)
    → contains r.id (descendants (suc f) (r ∷ rs) n) ≡ (
        not (is_root r)
        && (str_eq r.parent_run_id n || contains r.parent_run_id (descendants f (r ∷ rs) n)))
unfolding descendants
contains-descendants_newest zero r rs n w =
    ground
      (arith, contains-children_none r.id n (r ∷ rs), no_row_below n r.id rs w.0, str_eq_refl r.id)
contains-descendants_newest (suc f) r rs n w = ground (
  arith,
  contains-children_through r.id r.parent_run_id n (not (is_root r)) (descendants (suc f) (r ∷ rs))
      (descendants f (r ∷ rs)) (r ∷ rs) (λ y. contains-descendants_newest f r rs y w),
  no_row_below n r.id rs w.0,
  str_eq_refl r.id,
)
