-- ===== src/Sqlite/Reserve.antt =====
-- TryReserve, the atomic budget decision, and BudgetStatus, its report.
use spendlease.Base.{
  Bool, true, false, not, ◌&&◌, ◌||◌, List, [], ◌∷◌, ◌++◌, Option, none, some, Bytes, ◌==◌,
  if◌then◌else◌, length, is_some,
}
use spendlease.Base.Int.{ℤ, pos, ◌-ℤ◌, ltb_ℤ, leb_ℤ, eq_ℤ}
use spendlease.Store.{
  Run, Reservation, BudgetDecision, BudgetLevel, RunBudgetStatus, BudgetEvent, Result, ok, err,
  ◌>>◌, guard, StoreError, is_active, is_pending, is_empty, not_found, conflict,
}
use spendlease.Sqlite.Tables.{Db, find_run, find_lease, find_principal}
use spendlease.Sqlite.Tree.{ancestors}
use spendlease.Sqlite.Usage.{subtree_usage, lease_usage}
use spendlease.Sqlite.Reservations.{create_reservation}

-- `if b >= a { 0 } else { a - b }`
unfoldable pub take_off : ℤ → ℤ → ℤ
take_off a b = if leb_ℤ a b then pos 0 else a -ℤ b

-- What a limit leaves after the settled and the held amounts.
unfoldable pub remaining_of : ℤ → ℤ → ℤ → ℤ
unfolding take_off
remaining_of limit spent held = take_off (take_off limit spent) held

unfoldable pub new_decision : Reservation → BudgetDecision
new_decision r = record {
  allowed = false;
  would_block = false;
  run_id = r.run_id;
  budget = pos 0;
  spent = pos 0;
  held = pos 0;
  requested = r.amount;
  remaining = pos 0;
  shortfall = pos 0;
}

-- The first limit that is too small for `amount` is written into the decision, under `run_id`.
unfoldable pub note_shortfall : Bytes → ℤ → ℤ → ℤ → ℤ → BudgetDecision → BudgetDecision
unfolding remaining_of
note_shortfall run_id amount limit spent held d =
    let remaining = remaining_of limit spent held in
    if ltb_ℤ remaining amount && not d.would_block
    then record d {
      would_block = true;
      run_id = run_id;
      budget = limit;
      spent = spent;
      held = held;
      remaining = remaining;
      shortfall = amount -ℤ remaining;
    }
    else d

-- A decision comes back beside an error, too.
abbrev pub Checked : Type 0
Checked = BudgetDecision × Option StoreError

-- One run of the chain: it must be active, and its budget, unless it is zero, is compared.
unfoldable pub check_run : Db → ℤ → Run → BudgetDecision → Checked
check_run s amount n d =
    if not (is_active n.status)
    then (d, some conflict)
    else if eq_ℤ n.budget (pos 0)
    then (d, none)
    else elim (subtree_usage s n.id) [
      | err e ↦ (d, some e)
      | ok (spent, held) ↦ (note_shortfall n.id amount n.budget spent held d, none)
    ]

-- The loop over the chain stops at the first error.
unfoldable pub check_chain : Db → ℤ → List Run → BudgetDecision → Checked
check_chain s amount [] d = (d, none)
check_chain s amount (n ∷ ns) d =
    let (d', failed) = check_run s amount n d in
    let rest = check_chain s amount ns d' in elim failed [ none ↦ rest | some e ↦ (d', some e) ]

-- The lease's own ceiling; zero is none. The decision keeps its run.
unfoldable pub check_lease : Db → Reservation → BudgetDecision → Checked
unfolding find_lease
check_lease s r d =
    if is_empty r.lease_id then (d, none) else elim (find_lease r.lease_id s.leases) [
      | none ↦ (d, some not_found)
      | some l ↦ elim (lease_usage s l.id) [
        | err e ↦ (d, some e)
        | ok (spent, held) ↦
            if ltb_ℤ (pos 0) l.ceiling
            then (note_shortfall d.run_id r.amount l.ceiling spent held d, none)
            else (d, none)
      ]
    ]

unfoldable pub check_budgets : Db → Reservation → Checked
check_budgets s r =
    let chain = ancestors s.runs r.run_id in
    let d = new_decision r in
    if length chain == 0
    then (d, some not_found)
    else let (d', failed) = check_chain s r.amount chain d in
      elim failed [ none ↦ check_lease s r d' | some e ↦ (d', some e) ]

-- The store after the call, the decision, and the error if there is one.
unfoldable pub try_reserve : Reservation → Bool → Db → Db × BudgetDecision × Option StoreError
try_reserve r enforced s =
    if not (is_pending r.status)
    then (s, new_decision r, some conflict)
    else let (d, failed) = check_budgets s r in
      let d' = record d { allowed = not enforced || not d.would_block } in
      elim failed [
        | some e ↦ (s, d, some e)
        | none ↦
            if d'.allowed
            then elim (create_reservation r s) [ err e ↦ (s, d', some e) | ok s' ↦ (s', d', none) ]
            else (s, d', none)
      ]

abbrev level_of : Run → ℤ → ℤ → BudgetLevel
unfolding remaining_of
level_of n spent held = record {
  run_id = n.id;
  status = n.status;
  budget = n.budget;
  spent = spent;
  held = held;
  remaining = if ltb_ℤ (pos 0) n.budget then remaining_of n.budget spent held else pos 0;
  unlimited = eq_ℤ n.budget (pos 0);
}

-- The status, after one more level of the chain.
unfoldable pub add_level : Run → ℤ → ℤ → RunBudgetStatus → RunBudgetStatus
unfolding remaining_of
add_level n spent held b =
    let blocks = not (is_active n.status) && b.spend_allowed in
    let left = remaining_of n.budget spent held in
    let limits = ltb_ℤ (pos 0) n.budget && (b.unlimited || ltb_ℤ left b.effective_remaining) in
    record b {
      spend_allowed = if blocks then false else b.spend_allowed;
      blocking_run_id = if blocks then n.id else b.blocking_run_id;
      unlimited = if limits then false else b.unlimited;
      effective_remaining = if limits then left else b.effective_remaining;
      limiting_run_id = if limits then n.id else b.limiting_run_id;
      levels = b.levels ++ (level_of n spent held ∷ []);
    }

unfoldable pub add_levels : Db → List Run → RunBudgetStatus → Result RunBudgetStatus
add_levels s [] b = ok b
add_levels s (n ∷ ns) b = elim (subtree_usage s n.id) [
  | err e ↦ err e
  | ok (spent, held) ↦ add_levels s ns (add_level n spent held b)
]

abbrev pub new_status : Bytes → Run → RunBudgetStatus
new_status i n = record {
  run_id = i;
  status = n.status;
  spend_allowed = true;
  blocking_run_id = [];
  unlimited = true;
  effective_remaining = pos 0;
  limiting_run_id = [];
  levels = [];
}

unfoldable pub budget_status : Bytes → Db → Result RunBudgetStatus
unfolding add_levels add_level
budget_status i s = elim (ancestors s.runs i) [
  | [] ↦ err not_found
  | n ∷ ns ↦ add_levels s (n ∷ ns) (new_status i n)
]

-- INSERT INTO budget_events, with the constraints of the table.
unfoldable pub record_budget_event : BudgetEvent → Db → Result Db
unfolding find_lease find_principal
record_budget_event e s = do
  guard (not (ltb_ℤ e.requested (pos 0))) conflict
  guard (not (ltb_ℤ e.remaining (pos 0))) conflict
  guard (not (ltb_ℤ e.shortfall (pos 0))) conflict
  guard (is_some (find_principal e.principal_id s.principals)) not_found
  guard (is_some (find_run e.run_id s.runs)) not_found
  guard (is_empty e.lease_id || is_some (find_lease e.lease_id s.leases)) not_found
  ok (record s { budget_events = e ∷ s.budget_events })
