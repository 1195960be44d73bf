-- ===== src/Witnesses/Budget.antt =====
-- The theorems on budgets, at a store that the methods have filled.
use mathlib.Core.Path.{subst}
use spendlease.Base.{
  false, all, any, All, ◌≡◌, refl, inr, true, not, ◌||◌, [], ◌∷◌, some, none, codes, str_eq, arith,
  if◌then◌else◌,
}
use spendlease.Base.Int.{pos, ◌+ℤ◌, ◌-ℤ◌}
use spendlease.Billing.{validate, canonical_json, token_usage}
use spendlease.Ledger.{verify_chain, Entry, seal, genesis_hash, itemized_usage, validate_entry}
use spendlease.Store.{Reservation, RunBudgetStatus, ok, settled, closed, active}
use spendlease.Sqlite.Tables.{Db, empty_db, find_run, find_principal, find_reservation}
use spendlease.Sqlite.Principals.{create_principal, insert_principal}
use spendlease.Sqlite.Runs.{create_run, insert_run, close_run}
use spendlease.Sqlite.Tree.{contains, subtree, descendants, children, ancestors, ancestors_upto}
use spendlease.Sqlite.Reservations.{create_reservation}
use spendlease.Sqlite.Reserve.{
  try_reserve, check_budgets, check_chain, check_run, check_lease, note_shortfall, remaining_of,
  take_off, new_decision, budget_status, add_levels, add_level,
}
use spendlease.Sqlite.Append.{
  ledger_entries, append_ledger, place, insert_entry, ledger_head, head_hash,
}
use spendlease.Sqlite.Settle.{settle_reservation, settle_first, link_settlement, finish_hold}
use spendlease.Sqlite.Settle.Once.{settle_reservation-settle_reservation}
use spendlease.Sqlite.Usage.{
  spent_under, held_under, sum_costs, sum_amounts, fit_int64, subtree_usage,
}
use spendlease.Sqlite.Budget.Solvent.{IsSolvent, Covers}
use spendlease.Sqlite.Budget.Decision.{try_reserve_decides, exceeds, is_short}
use spendlease.Sqlite.Budget.Holds.{try_reserve-IsSolvent}
use spendlease.Sqlite.Budget.Status.{budget_status-exceeds, is_running, reports_short, IsBudgeted}
use spendlease.Sqlite.Budget.Stopped.{close_run-try_reserve}
use spendlease.Sqlite.Audit.{reachable_verified}
use spendlease.Sqlite.Append.Chained.{no_filter}
use spendlease.Sqlite.Budget.Reach.{
  Step, Reach, reachable_within, empty_db-IsSolvent, Reach-IsSolvent,
}
use spendlease.Sqlite.Budget.Reach.Step.{new_principal, new_run, reserve, settle}
use spendlease.Sqlite.Budget.Reach.Reach.{here, next}
use spendlease.Witnesses.{
  plain, alice, parent_run, child_run, hold, charge, with_alice, with_parent, with_child, with_hold,
}

principal-Step : Step plain empty_db with_alice
unfolding create_principal insert_principal find_principal
principal-Step = new_principal alice refl

parent-Step : Step plain with_alice with_parent
unfolding create_run insert_run find_run find_principal str_eq
parent-Step = new_run parent_run refl

child-Step : Step plain with_parent with_child
unfolding create_run insert_run find_run find_principal str_eq
child-Step = new_run child_run refl

filled : Reach plain empty_db with_child
filled = next (next (next here principal-Step) parent-Step) child-Step

hold_fits : (try_reserve hold true with_child).0 ≡ with_hold
unfolding try_reserve check_budgets check_chain check_run check_lease note_shortfall remaining_of
    take_off new_decision subtree_usage spent_under held_under sum_costs sum_amounts fit_int64
    subtree descendants children ancestors ancestors_upto create_reservation find_run
    find_reservation str_eq ◌-ℤ◌ ◌+ℤ◌
hold_fits = refl

reserved : Reach plain empty_db with_hold
reserved = subst (Reach plain empty_db) hold_fits (next filled (reserve with_child hold))

with_child-IsSolvent : IsSolvent with_child
with_child-IsSolvent = Reach-IsSolvent plain filled empty_db-IsSolvent

with_hold-IsSolvent : IsSolvent with_hold
with_hold-IsSolvent = Reach-IsSolvent plain reserved empty_db-IsSolvent

parent_found : find_run (codes "r1") with_hold.runs ≡ some parent_run
unfolding find_run str_eq
parent_found = refl

try_reserve-IsSolvent_example : IsSolvent (try_reserve hold true with_child).0
try_reserve-IsSolvent_example = try_reserve-IsSolvent hold with_child with_child-IsSolvent

-- What is left of the budget does not cover a second hold.
abbrev second : Reservation
second = record hold { id = codes "h2"; amount = pos 41 }

second_checked : (try_reserve second true with_hold).2 ≡ none
unfolding try_reserve check_budgets check_chain check_run check_lease note_shortfall remaining_of
    take_off new_decision subtree_usage spent_under held_under sum_costs sum_amounts fit_int64
    subtree descendants children ancestors ancestors_upto find_run str_eq ◌-ℤ◌ ◌+ℤ◌
second_checked = refl

try_reserve_decides_example :
    let (s', d, _) = try_reserve second true with_hold in
    (d.would_block ≡ exceeds with_hold second)
    × (d.allowed ≡ (not true || not (exceeds with_hold second)))
    × (s' ≡ (
        if d.allowed
        then record with_hold { reservations = second ∷ with_hold.reservations }
        else with_hold))
try_reserve_decides_example = try_reserve_decides with_hold second true second_checked

-- A later charge to the same hold.
abbrev second_charge : Entry
second_charge = record charge { cost = pos 59 }

abbrev sealed : Entry
sealed = seal plain (place 5 with_hold charge) genesis_hash

abbrev with_charge : Db
with_charge = record with_hold {
  reservations = record hold { status = settled; resolved_at = some 5 } ∷ [];
  settlements = record { reservation_id = codes "h1"; ledger_seq = 1; created_at = 5 } ∷ [];
  ledger = record sealed { usage = itemized_usage sealed } ∷ [];
}

charged : settle_reservation plain 5 (codes "h1") charge with_hold ≡ ok (sealed, with_charge)
unfolding settle_reservation settle_first append_ledger link_settlement finish_hold place
    insert_entry ledger_head head_hash validate_entry itemized_usage validate canonical_json seal
    find_run find_reservation str_eq token_usage genesis_hash
charged = refl

abbrev with_closed : Db
with_closed = record with_hold {
  runs = record child_run { status = closed; closed_at = some 7 } ∷ parent_run ∷ [];
}

settle_reservation-settle_reservation_example :
    (row : Entry) × (settle_reservation plain 8 (codes "h1") second_charge with_charge
      ≡ ok (row, with_charge))
    × (row.seq ≡ sealed.seq)
    × (row.cost ≡ sealed.cost)
    × (row.hash ≡ sealed.hash)
settle_reservation-settle_reservation_example =
    settle_reservation-settle_reservation plain 5 8 (codes "h1") charge second_charge sealed
      with_hold with_charge charged

-- A hold on the child run, after its parent was closed.
abbrev with_stopped : Db
with_stopped = record with_hold {
  runs = child_run ∷ record parent_run { status = closed; closed_at = some 7 } ∷ [];
}

stopped : close_run 7 (codes "r1") with_hold ≡ ok with_stopped
unfolding close_run find_run str_eq
stopped = refl

below_parent : contains (codes "r2") (subtree with_hold.runs (codes "r1")) ≡ true
unfolding subtree descendants children find_run str_eq
below_parent = refl

close_run-try_reserve_example : (try_reserve second true with_stopped).0 ≡ with_stopped
close_run-try_reserve_example =
    close_run-try_reserve 7 (codes "r1") with_hold with_stopped second true stopped
      with_hold-IsSolvent.0.rooted below_parent

abbrev report : RunBudgetStatus
report = record {
  run_id = codes "r2";
  status = active;
  spend_allowed = true;
  blocking_run_id = [];
  unlimited = false;
  effective_remaining = pos 40;
  limiting_run_id = codes "r1";
  levels =
      record {
        run_id = codes "r2";
        status = active;
        budget = pos 0;
        spent = pos 0;
        held = pos 60;
        remaining = pos 0;
        unlimited = true;
      }
      ∷ record {
        run_id = codes "r1";
        status = active;
        budget = pos 100;
        spent = pos 0;
        held = pos 60;
        remaining = pos 40;
        unlimited = false;
      }
      ∷ [];
}

reported : budget_status (codes "r2") with_hold ≡ ok report
unfolding budget_status add_levels add_level remaining_of take_off subtree_usage spent_under
    held_under sum_costs sum_amounts fit_int64 subtree descendants children ancestors ancestors_upto
    find_run str_eq ◌-ℤ◌ ◌+ℤ◌
reported = refl

budgeted : All IsBudgeted (ancestors with_hold.runs (codes "r2"))
unfolding ancestors ancestors_upto find_run str_eq
budgeted = (omega arith, (omega arith, tt))

budget_status-exceeds_example :
    (report.spend_allowed ≡ all is_running (ancestors with_hold.runs (codes "r2")))
    × (reports_short report (pos 41)
        ≡ any (is_short with_hold (pos 41)) (ancestors with_hold.runs (codes "r2")))
budget_status-exceeds_example =
    budget_status-exceeds with_hold (codes "r2") (pos 41) report budgeted reported

-- The reservation is settled, and the store is still reached from the empty one.
settled-Reach : Reach plain empty_db with_charge
unfolding find_reservation str_eq
settled-Reach =
    next reserved
      (settle 5 (codes "h1") charge sealed charged (inr (hold, refl, refl, omega arith)))

reachable_within_example : Covers with_charge parent_run
reachable_within_example =
    reachable_within plain with_charge (codes "r1") parent_run settled-Reach parent_found

reachable_verified_example :
    verify_chain plain (ledger_entries plain.format_time no_filter with_charge) ≡ none
reachable_verified_example = reachable_verified plain with_charge settled-Reach
