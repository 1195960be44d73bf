-- ===== src/Sqlite/Budget/Closing.antt =====
-- CloseRun and the invariant: a change of a run's status leaves the hierarchy and its sums alone.
use mathlib.Core.Path.{subst, fun_ext}
use spendlease.Base.{
  ℕ, zero, suc, ◌≡◌, refl, sym, ◌∙◌, inl, inr, Bool, List, [], ◌∷◌, some, arith, Bytes, str_eq, All,
  is_some, update, length, length-update, Bool-cases, Option-cases, ap,
}
use spendlease.Ledger.{Entry}
use spendlease.Store.{Run, Reservation, ok, closed}
use spendlease.Sqlite.Tables.{Db, find_run}
use spendlease.Sqlite.Tree.{subtree, descendants, children}
use spendlease.Sqlite.Tree.Ancestors.{IsRooted}
use spendlease.Sqlite.Usage.{spent_under, held_under}
use spendlease.Sqlite.Runs.{close_run, closes}
use spendlease.Sqlite.Budget.Solvent.{IsHeld, IsCharged, IsSolvent, Covers}

abbrev pub mark_closed : ℕ → Run → Run
mark_closed now r = record r { status = closed; closed_at = some now }

module _ (p : Run → Bool) (now : ℕ) where
  abbrev marked : List Run → List Run
  marked rs = update p (mark_closed now) rs

  is_some-find_run_marked :
      (i : Bytes) (rs : List Run)
      → is_some (find_run i (update p (mark_closed now) rs)) ≡ is_some (find_run i rs)
  unfolding find_run
  is_some-find_run_marked i [] = refl
  is_some-find_run_marked i (r ∷ rs) = ground (arith, is_some-find_run_marked i rs)

  -- The row that is found has kept its budget and its id.
  find_run_marked :
      (i : Bytes) (n : Run) (rs : List Run)
      → find_run i (update p (mark_closed now) rs) ≡ some n
      → (o : Run) × (find_run i rs ≡ some o) × (o.budget ≡ n.budget) × (o.id ≡ n.id)
  unfolding find_run
  find_run_marked i n [] h = cc
  find_run_marked i n (r ∷ rs) h = elim (Bool-cases (str_eq r.id i)) [
    | inl here ↦ (r, ground arith, ground arith, ground arith)
    | inr further ↦
        let (o, f, b, e) = find_run_marked i n rs (ground arith) in (o, ground arith, b, e)
  ]

  pub IsRooted-marked : (rs : List Run) → IsRooted rs → IsRooted (update p (mark_closed now) rs)
  IsRooted-marked [] w = tt
  IsRooted-marked (r ∷ rs) w = (
    ground (arith, is_some-find_run_marked r.id rs),
    ground (arith, is_some-find_run_marked r.parent_run_id rs),
    IsRooted-marked rs w.2,
  )

  children_marked :
      (below : Bytes → List Bytes) (i : Bytes) (rs : List Run)
      → children below i (update p (mark_closed now) rs) ≡ children below i rs
  unfolding children
  children_marked below i [] = refl
  children_marked below i (r ∷ rs) = ground (arith, children_marked below i rs)

  descendants_marked :
      (f : ℕ) (rs : List Run) (i : Bytes)
      → descendants f (update p (mark_closed now) rs) i ≡ descendants f rs i
  unfolding descendants
  descendants_marked zero rs i = refl
  descendants_marked (suc f) rs i =
      ap (λ below. children below i (update p (mark_closed now) rs))
        (fun_ext (descendants_marked f rs))
      ∙ children_marked (descendants f rs) i rs

  pub subtree_marked :
      (rs : List Run) (i : Bytes) → subtree (update p (mark_closed now) rs) i ≡ subtree rs i
  unfolding subtree
  subtree_marked rs i = rw (
    length-update p (mark_closed now) rs,
    is_some-find_run_marked i rs,
    descendants_marked (length rs) rs i,
  )

  All-IsCharged_marked :
      (rs : List Run) (es : List Entry)
      → All (IsCharged rs) es
      → All (IsCharged (update p (mark_closed now) rs)) es
  All-IsCharged_marked rs [] h = tt
  All-IsCharged_marked rs (e ∷ es) h =
      (is_some-find_run_marked e.run_id rs ∙ h.0, All-IsCharged_marked rs es h.1)

  All-IsHeld_marked :
      (rs : List Run) (os : List Reservation)
      → All (IsHeld rs) os
      → All (IsHeld (update p (mark_closed now) rs)) os
  All-IsHeld_marked rs [] h = tt
  All-IsHeld_marked rs (o ∷ os) h =
      (is_some-find_run_marked o.run_id rs ∙ h.0, All-IsHeld_marked rs os h.1)

  marked-Covers :
      (s : Db) (i : Bytes) (n : Run)
      → IsSolvent s
      → find_run i (update p (mark_closed now) s.runs) ≡ some n
      → Covers (record s { runs = update p (mark_closed now) s.runs }) n
  unfolding spent_under held_under
  marked-Covers s i n (v, within) f =
      let (o, g, b, e) = find_run_marked i n s.runs f in
      ground (arith, within i o g, subtree_marked s.runs n.id)

  marked-IsSolvent :
      (s : Db) → IsSolvent s → IsSolvent (record s { runs = update p (mark_closed now) s.runs })
  marked-IsSolvent s (v, within) = (
    record {
      rooted = IsRooted-marked s.runs v.rooted;
      charged = All-IsCharged_marked s.runs s.ledger v.charged;
      held = All-IsHeld_marked s.runs s.reservations v.held;
      amounts = v.amounts;
    },
    λ i n f. marked-Covers s i n (v, within) f,
  )

pub close_run_inv :
    (now : ℕ) (i : Bytes) (s s' : Db)
    → close_run now i s ≡ ok s'
    → s' ≡ record s { runs = update (closes i) (mark_closed now) s.runs }
unfolding close_run
close_run_inv now i s s' h = elim (Option-cases (find_run i s.runs)) [
  | inl missing ↦ ground arith
  | inr (r, found) ↦ ground arith
]

-- A CloseRun that succeeds keeps the invariant of the store.
pub close_run-IsSolvent :
    (now : ℕ) (i : Bytes) (s s' : Db) → close_run now i s ≡ ok s' → IsSolvent s → IsSolvent s'
close_run-IsSolvent now i s s' h v =
    subst IsSolvent (sym (close_run_inv now i s s' h)) (marked-IsSolvent (closes i) now s v)
