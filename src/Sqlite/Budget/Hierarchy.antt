-- ===== src/Sqlite/Budget/Hierarchy.antt =====
-- Runs and the invariant: a new run brings no spend, and a closed run keeps its place.
use mathlib.Core.Path.{subst}
use spendlease.Base.{
  ◌≡◌, sym, ◌⊎◌, inl, inr, true, false, List, [], ◌∷◌, none, some, arith, Bytes, str_eq, str_eq_iff,
  All, is_some, Bool-cases,
}
use spendlease.Base.Int.{pos, ◌≤ℤ◌, +ℤ_parts}
use spendlease.Ledger.{Entry}
use spendlease.Store.{Run, Reservation, ok, is_root}
use spendlease.Sqlite.Tables.{Db, find_run}
use spendlease.Sqlite.Tree.{subtree, contains}
use spendlease.Sqlite.Tree.Ancestors.{IsRooted, find_run-cons}
use spendlease.Sqlite.Tree.Subtree.{subtree-under, under-old, under-missing}
use spendlease.Sqlite.Usage.{held_in, charged_in, spent_under, held_under}
use spendlease.Sqlite.Runs.{insert_run, create_run}
use spendlease.Sqlite.Budget.Sums.{sum_costs_ext, sum_amounts_ext, sum_costs_none, sum_amounts_none}
use spendlease.Sqlite.Budget.Solvent.{IsHeld, IsCharged, IsSolvent, Covers}

pub insert_run_inv :
    (r : Run) (s s' : Db)
    → insert_run r s ≡ ok s'
    → (s' ≡ record s { runs = r ∷ s.runs })
      × (pos 0 ≤ℤ r.budget)
      × (find_run r.id s.runs ≡ none)
      × ((is_root r ≡ true) ⊎ (is_some (find_run r.parent_run_id s.runs) ≡ true))
unfolding insert_run
insert_run_inv r s s' h = ground arith

pub create_run_inv : (r : Run) (s s' : Db) → create_run r s ≡ ok s' → insert_run r s ≡ ok s'
unfolding create_run
create_run_inv r s s' h = ground arith

-- Rows of the older runs count under the same runs as before, and under no new run.
module _ (r : Run) (rs : List Run) (w : IsRooted (r ∷ rs)) where
  found_ne : (x : Bytes) → is_some (find_run x rs) ≡ true → str_eq r.id x ≡ false
  found_ne x f = ground (arith, str_eq_iff r.id x)

  contains-subtree_cons :
      (n x : Bytes)
      → is_some (find_run x rs) ≡ true
      → contains x (subtree (r ∷ rs) n) ≡ contains x (subtree rs n)
  contains-subtree_cons n x f =
      cc (subtree-under (r ∷ rs) n x w, under-old r rs n x (found_ne x f), subtree-under rs n x w.2)

  contains-subtree_new :
      (x : Bytes) → is_some (find_run x rs) ≡ true → contains x (subtree (r ∷ rs) r.id) ≡ false
  contains-subtree_new x f = cc (
    subtree-under (r ∷ rs) r.id x w,
    under-old r rs r.id x (found_ne x f),
    under-missing rs r.id x w.2 w.0,
  )

  charged_old :
      (n : Bytes) (es : List Entry)
      → All (IsCharged rs) es
      → All (λ e. charged_in (subtree (r ∷ rs) n) e ≡ charged_in (subtree rs n) e) es
  charged_old n [] h = tt
  charged_old n (e ∷ es) h = (contains-subtree_cons n e.run_id h.0, charged_old n es h.1)

  charged_new :
      (es : List Entry)
      → All (IsCharged rs) es
      → All (λ e. charged_in (subtree (r ∷ rs) r.id) e ≡ false) es
  charged_new [] h = tt
  charged_new (e ∷ es) h = (contains-subtree_new e.run_id h.0, charged_new es h.1)

  held_old :
      (n : Bytes) (os : List Reservation)
      → All (IsHeld rs) os
      → All (λ o. held_in (subtree (r ∷ rs) n) o ≡ held_in (subtree rs n) o) os
  held_old n [] h = tt
  held_old n (o ∷ os) h = (ground (arith, contains-subtree_cons n o.run_id h.0), held_old n os h.1)

  held_new :
      (os : List Reservation)
      → All (IsHeld rs) os
      → All (λ o. held_in (subtree (r ∷ rs) r.id) o ≡ false) os
  held_new [] h = tt
  held_new (o ∷ os) h = (ground (arith, contains-subtree_new o.run_id h.0), held_new os h.1)

All-IsCharged_cons :
    (r : Run) (rs : List Run) (es : List Entry)
    → All (IsCharged rs) es
    → All (IsCharged (r ∷ rs)) es
All-IsCharged_cons r rs [] h = tt
All-IsCharged_cons r rs (e ∷ es) h =
    (find_run-cons r rs e.run_id h.0, All-IsCharged_cons r rs es h.1)

All-IsHeld_cons :
    (r : Run) (rs : List Run) (os : List Reservation)
    → All (IsHeld rs) os
    → All (IsHeld (r ∷ rs)) os
All-IsHeld_cons r rs [] h = tt
All-IsHeld_cons r rs (o ∷ os) h = (find_run-cons r rs o.run_id h.0, All-IsHeld_cons r rs os h.1)

insert_run-Covers :
    (r : Run) (s : Db) (i : Bytes) (n : Run)
    → IsRooted (r ∷ s.runs)
    → IsSolvent s
    → pos 0 ≤ℤ r.budget
    → find_run i (r ∷ s.runs) ≡ some n
    → Covers (record s { runs = r ∷ s.runs }) n
unfolding find_run spent_under held_under
insert_run-Covers r s i n w (v, within) b f = elim (Bool-cases (str_eq r.id i)) [
  | inl new ↦ ground (
    arith,
    sum_costs_none (charged_in (subtree (r ∷ s.runs) r.id)) s.ledger
        (charged_new r s.runs w s.ledger v.charged),
    sum_amounts_none (held_in (subtree (r ∷ s.runs) r.id)) s.reservations
        (held_new r s.runs w s.reservations v.held),
    +ℤ_parts (pos 0) (pos 0),
  )
  | inr old ↦ ground (
    arith,
    within i n,
    sum_costs_ext (charged_in (subtree (r ∷ s.runs) n.id)) (charged_in (subtree s.runs n.id))
        s.ledger (charged_old r s.runs w n.id s.ledger v.charged),
    sum_amounts_ext (held_in (subtree (r ∷ s.runs) n.id)) (held_in (subtree s.runs n.id))
        s.reservations (held_old r s.runs w n.id s.reservations v.held),
  )
]

pub insert_run-IsSolvent :
    (r : Run) (s s' : Db) → insert_run r s ≡ ok s' → IsSolvent s → IsSolvent s'
insert_run-IsSolvent r s s' h (v, within) =
    let (same, budget, fresh, parent) = insert_run_inv r s s' h in
    let w : IsRooted (r ∷ s.runs) = (fresh, parent, v.rooted) in
    subst IsSolvent (sym same) (
      record {
        rooted = w;
        charged = All-IsCharged_cons r s.runs s.ledger v.charged;
        held = All-IsHeld_cons r s.runs s.reservations v.held;
        amounts = v.amounts;
      },
      λ i n f. insert_run-Covers r s i n w (v, within) budget f,
    )

-- A CreateRun that succeeds keeps the invariant of the store: a new run is younger than its
-- parent, and nothing is settled or held below it yet.
pub create_run-IsSolvent :
    (r : Run) (s s' : Db) → create_run r s ≡ ok s' → IsSolvent s → IsSolvent s'
create_run-IsSolvent r s s' h v = insert_run-IsSolvent r s s' (create_run_inv r s s' h) v
