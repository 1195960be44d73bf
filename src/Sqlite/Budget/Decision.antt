-- ===== src/Sqlite/Budget/Decision.antt =====
-- What TryReserve decides, against the exact sums of the tables.
use spendlease.Base.{
  ◌≡◌, refl, ◌⊎◌, inl, inr, Bool, true, false, not, ◌&&◌, ◌||◌, List, [], ◌∷◌, none, some, arith,
  Bytes, if◌then◌else◌, any, All, is_some, Bool-cases, Option-cases,
}
use spendlease.Base.Int.{ℤ, pos, ◌+ℤ◌, ◌-ℤ◌, ◌≤ℤ◌, ◌<ℤ◌, ltb_ℤ, eq_ℤ, int_laws}
use spendlease.Store.{
  Run, Reservation, BudgetDecision, ok, is_active, is_pending, is_empty, Result-cases,
}
use spendlease.Sqlite.Tables.{Db, find_lease, find_run}
use spendlease.Sqlite.Tree.{ancestors}
use spendlease.Sqlite.Usage.{
  spent_under, held_under, subtree_usage, lease_usage, lease_spent, lease_held,
}
use spendlease.Sqlite.Reservations.{create_reservation}
use spendlease.Sqlite.Reserve.{
  take_off, remaining_of, note_shortfall, check_run, check_chain, check_lease, check_budgets,
  try_reserve, new_decision,
}

-- `a` less `b`, but never below zero.
take_off_bounds :
    (a b : ℤ) → ((a ≤ℤ b) × (take_off a b ≡ pos 0)) ⊎ ((b <ℤ a) × (take_off a b ≡ a -ℤ b))
unfolding take_off
take_off_bounds a b = ground arith

-- An amount that a limit has left over fits below the limit, with all that it counts.
pub remaining_of_fits :
    (limit spent held amount : ℤ)
    → pos 0 ≤ℤ held
    → amount ≤ℤ remaining_of limit spent held
    → pos 0 <ℤ amount
    → spent +ℤ held +ℤ amount ≤ℤ limit
unfolding remaining_of
remaining_of_fits limit spent held amount k h p =
    grind (int_laws, take_off_bounds limit spent, take_off_bounds (take_off limit spent) held)

-- What the insertion of a hold has checked, and what it adds.
pub create_reservation_inv :
    (r : Reservation) (s s' : Db)
    → create_reservation r s ≡ ok s'
    → (s' ≡ record s { reservations = r ∷ s.reservations })
      × (pos 0 ≤ℤ r.amount)
      × (is_some (find_run r.run_id s.runs) ≡ true)
unfolding create_reservation
create_reservation_inv r s s' h = ground arith

-- A run's budget, unless it is zero, has less left than `amount`.
unfoldable pub is_short : Db → ℤ → Run → Bool
is_short s amount n =
    not (eq_ℤ n.budget (pos 0))
    && ltb_ℤ (remaining_of n.budget (spent_under s n.id) (held_under s n.id)) amount

pub subtree_usage_exact :
    (s : Db) (i : Bytes) (u : ℤ × ℤ)
    → subtree_usage s i ≡ ok u
    → (u.0 ≡ spent_under s i) × (u.1 ≡ held_under s i)
unfolding subtree_usage
subtree_usage_exact s i u h = ground arith

pub note_shortfall_would_block :
    (i : Bytes) (a limit spent held : ℤ) (d : BudgetDecision)
    → (note_shortfall i a limit spent held d).would_block
      ≡ (d.would_block || ltb_ℤ (remaining_of limit spent held) a)
unfolding note_shortfall
note_shortfall_would_block i a limit spent held d = ground arith

-- A run that the loop has passed is active, and the decision notes whether it is short.
check_run_exact :
    (s : Db) (a : ℤ) (n : Run) (d : BudgetDecision)
    → (check_run s a n d).1 ≡ none
    → (is_active n.status ≡ true)
      × ((check_run s a n d).0.would_block ≡ (d.would_block || is_short s a n))
unfolding check_run is_short
check_run_exact s a n d h = elim (Result-cases (subtree_usage s n.id)) [
  | inl (e, failed) ↦ ground arith
  | inr (u, done) ↦ ground (
    arith,
    subtree_usage_exact s n.id u done,
    note_shortfall_would_block n.id a n.budget u.0 u.1 d,
  )
]

-- The loop ends without an error only over active runs, and blocks exactly if one is short.
pub check_chain_exact :
    (s : Db) (a : ℤ) (ns : List Run) (d : BudgetDecision)
    → (check_chain s a ns d).1 ≡ none
    → All (λ n. is_active n.status ≡ true) ns
      × ((check_chain s a ns d).0.would_block ≡ (d.would_block || any (is_short s a) ns))
unfolding check_chain
check_chain_exact s a [] d h = (tt, ground arith)
check_chain_exact s a (n ∷ ns) d h = elim (Option-cases (check_run s a n d).1) [
  | inl passed ↦
      let before = check_run_exact s a n d passed in
      let after = check_chain_exact s a ns (check_run s a n d).0 (ground arith) in
      ((before.0, after.0), ground arith)
  | inr (e, failed) ↦ ground arith
]

-- A lease's ceiling, unless it is zero, has less left than `amount`.
unfoldable pub lease_is_short : Db → Reservation → Bool
unfolding find_lease
lease_is_short s r = if is_empty r.lease_id then false else elim (find_lease r.lease_id s.leases) [
  | none ↦ false
  | some l ↦
      ltb_ℤ (pos 0) l.ceiling
      && ltb_ℤ (remaining_of l.ceiling (lease_spent s l.id) (lease_held s l.id)) r.amount
]

lease_usage_exact :
    (s : Db) (i : Bytes) (u : ℤ × ℤ)
    → lease_usage s i ≡ ok u
    → (u.0 ≡ lease_spent s i) × (u.1 ≡ lease_held s i)
unfolding lease_usage
lease_usage_exact s i u h = ground arith

check_lease_exact :
    (s : Db) (r : Reservation) (d : BudgetDecision)
    → (check_lease s r d).1 ≡ none
    → (check_lease s r d).0.would_block ≡ (d.would_block || lease_is_short s r)
unfolding check_lease lease_is_short
check_lease_exact s r d h = elim (Bool-cases (is_empty r.lease_id)) [
  | inl none_given ↦ ground arith
  | inr given ↦ elim (Option-cases (find_lease r.lease_id s.leases)) [
    | inl missing ↦ ground arith
    | inr (l, found) ↦ elim (Result-cases (lease_usage s l.id)) [
      | inl (e, failed) ↦ ground arith
      | inr (u, done) ↦ ground (
        arith,
        lease_usage_exact s l.id u done,
        note_shortfall_would_block d.run_id r.amount l.ceiling u.0 u.1 d,
      )
    ]
  ]
]

-- Some limit of the reservation has too little left: a budget of its chain, or its lease's ceiling.
unfoldable pub exceeds : Db → Reservation → Bool
exceeds s r = any (is_short s r.amount) (ancestors s.runs r.run_id) || lease_is_short s r

new_decision_open : (r : Reservation) → (new_decision r).would_block ≡ false
unfolding new_decision
new_decision_open r = refl

-- A decision without an error was made over active runs only, and says whether a limit is exceeded.
pub check_budgets_exact :
    (s : Db) (r : Reservation)
    → (check_budgets s r).1 ≡ none
    → All (λ n. is_active n.status ≡ true) (ancestors s.runs r.run_id)
      × ((check_budgets s r).0.would_block ≡ exceeds s r)
unfolding check_budgets exceeds
check_budgets_exact s r h =
    let chain = ancestors s.runs r.run_id in
    let d = check_chain s r.amount chain (new_decision r) in
    elim (Option-cases d.1) [
      | inl passed ↦
          let chained = check_chain_exact s r.amount chain (new_decision r) passed in
          (chained.0, ground (arith, new_decision_open r, chained.1, check_lease_exact s r d.0))
      | inr (e, failed) ↦ ground arith
    ]

-- The conditions under which the hold was inserted.
abbrev pub IsAccepted : Db → Reservation → Bool → Db → Type 0
IsAccepted s r enforced s' =
    (is_pending r.status ≡ true)
    × (create_reservation r s ≡ ok s')
    × ((check_budgets s r).1 ≡ none)
    × ((enforced && (check_budgets s r).0.would_block) ≡ false)

-- A call leaves the store as it was, or has inserted the hold.
pub try_reserve-cases :
    (s : Db) (r : Reservation) (enforced : Bool)
    → ((try_reserve r enforced s).0 ≡ s) ⊎ IsAccepted s r enforced (try_reserve r enforced s).0
unfolding try_reserve
try_reserve-cases s r enforced = elim (Result-cases (create_reservation r s)) [
  | inl (e, failed) ↦ ground arith
  | inr (s', done) ↦ ground arith
]

-- A TryReserve that returns no error says that it would block exactly if some limit has less left
-- than the requested amount (a nonzero budget of the run or of one of its ancestors, or the
-- positive ceiling of the lease that it names), allows the call unless it is enforced and would
-- block, and has inserted the hold exactly if the call was allowed, changing nothing else.
pub try_reserve_decides :
    (s : Db) (r : Reservation) (enforced : Bool)
    → (try_reserve r enforced s).2 ≡ none
    → let (s', d, _) = try_reserve r enforced s in
      (d.would_block ≡ exceeds s r)
      × (d.allowed ≡ (not enforced || not (exceeds s r)))
      × (s' ≡ (if d.allowed then record s { reservations = r ∷ s.reservations } else s))
unfolding try_reserve
try_reserve_decides s r enforced h = elim (Result-cases (create_reservation r s)) [
  | inl (e, failed) ↦ ground (arith, check_budgets_exact s r)
  | inr (s', done) ↦ ground (arith, check_budgets_exact s r, create_reservation_inv r s s' done)
]
