-- ===== src/Witnesses/Summary.antt =====
-- The report of one principal, with a root run that has spent more than its budget.
use spendlease.Base.{
  List, [], ◌∷◌, some, codes, refl, ◌≡◌, All, inl, inr, str_eq, str_leb, sort_rows,
}
use spendlease.Base.Decimal.{format_nat}
use spendlease.Base.Int.{pos, ◌+ℤ◌}
use spendlease.Store.{ok}
use spendlease.Sqlite.Tables.{Db, find_run}
use spendlease.Sqlite.Usage.{sum_costs, fit_int64}
use spendlease.Sqlite.Tree.Ancestors.{IsRooted}
use spendlease.Sqlite.Summary.{
  PrincipalSummary, groups_fit, latest, revocations, last_event_of, principal_row,
  principal_summaries,
}
use spendlease.Sqlite.Summary.Totals.{IsDetailed, principal_summaries-IsDetailed}
use spendlease.Sqlite.Summary.Spend.{IsAttributed, IsAccounted, principal_summaries-IsAccounted}
use spendlease.Witnesses.{plain, alice, parent_run, child_run, charge, with_child}

-- The root run has spent 140 of its 100, its child 40.
abbrev spent : Db
spent = record with_child {
  ledger = record charge { run_id = codes "r1"; cost = pos 140; created_at = 5 } ∷ charge ∷ [];
}

abbrev report : List PrincipalSummary
report =
    record {
      principal = alice;
      spend = pos 180;
      entries = 2;
      estimated_entries = 0;
      runs = 2;
      over_budget_runs = 1;
      active_leases = 0;
      revoked_leases = 0;
      expired_leases = 0;
      budget_blocks = 0;
      would_block_events = 0;
      last_event = some 5;
      last_activity = some 5;
    }
    ∷ []

spent_report : principal_summaries plain.format_time 9 spent ≡ ok report
unfolding principal_summaries groups_fit latest revocations last_event_of principal_row sum_costs
    fit_int64 str_eq ◌+ℤ◌ sort_rows str_leb format_nat
spent_report = refl

principal_summaries-IsDetailed_example : All (IsDetailed plain.format_time spent) report
principal_summaries-IsDetailed_example =
    principal_summaries-IsDetailed plain.format_time 9 spent report spent_report

spent-IsRooted : IsRooted spent.runs
unfolding find_run str_eq
spent-IsRooted = (refl, inr refl, (refl, inl refl, tt))

spent-IsAttributed : All (IsAttributed spent.runs) spent.ledger
unfolding find_run str_eq
spent-IsAttributed = ((parent_run, refl, refl), ((child_run, refl, refl), tt))

principal_summaries-IsAccounted_example : All (IsAccounted plain.format_time spent) report
principal_summaries-IsAccounted_example =
    principal_summaries-IsAccounted plain.format_time 9 spent report spent-IsRooted
      spent-IsAttributed spent_report
