-- ===== src/Sqlite/Summary/Totals.antt =====
-- summary.go: the row of a principal and the rows of its runs agree.
use mathlib.Core.Path.{subst}
use spendlease.Base.{
  ℕ, ◌≡◌, refl, ap, inl, inr, Bool, false, ◌&&◌, List, [], ◌∷◌, Bytes, map, any, keep, length, All,
  sort_rows, length-sort_rows, count-sort_rows, All-sort_rows, All-map, length-map, arith,
  Bool-cases,
}
use spendlease.Base.Int.{pos}
use spendlease.Ledger.{Entry}
use spendlease.Store.{Principal, Run, RunSummary, over_budget, ok, ◌>>◌, Result-cases}
use spendlease.Sqlite.Tables.{Db}
use spendlease.Sqlite.Usage.{sum_costs}
use spendlease.Sqlite.Summary.{
  PrincipalSummary, groups_fit, dearer, charged_to, run_row, executes_as, run_rows, run_summaries,
  overspent, principal_row, principal_summaries,
}

sum_costs_none : (p : Entry → Bool) (es : List Entry) → any p es ≡ false → sum_costs p es ≡ pos 0
unfolding sum_costs
sum_costs_none p [] h = refl
sum_costs_none p (e ∷ es) h = ground (arith, sum_costs_none p es)

module _ (format_time : ℕ → Bytes) where
  -- A run without entries has spent nothing, so OverBudget and the query agree.
  over_budget-run_row : (s : Db) (r : Run) → over_budget (run_row format_time s r) ≡ overspent s r
  unfolding over_budget run_row
  over_budget-run_row s r = elim (Bool-cases (any (charged_to r.id) s.ledger)) [
    | inl charged ↦ ground arith
    | inr idle ↦ ground (arith, sum_costs_none (charged_to r.id) s.ledger idle)
  ]

  count_overspent :
      (s : Db) (p : Bytes) (rs : List Run)
      → length (keep over_budget (map (run_row format_time s) (keep (executes_as p) rs)))
        ≡ length (keep (λ r. overspent s r && executes_as p r) rs)
  count_overspent s p [] = refl
  count_overspent s p (r ∷ rs) =
      let agree = over_budget-run_row s r in let rest = count_overspent s p rs in ground arith

  -- RunSummaries of a principal, as its row in PrincipalSummaries counts them.
  abbrev pub IsDetailed : Db → PrincipalSummary → Type 0
  IsDetailed s row =
      (rs : List RunSummary) × (run_summaries format_time row.principal.id s ≡ ok rs)
      × (row.runs ≡ length rs)
      × (row.over_budget_runs ≡ length (keep over_budget rs))

  principal_row-IsDetailed :
      (now : ℕ) (s : Db) (p : Principal)
      → groups_fit (λ e. e.run_id) s.ledger s.ledger ≡ ok tt
      → IsDetailed s (principal_row format_time now s p)
  unfolding principal_row run_summaries run_rows
  principal_row-IsDetailed now s p fits =
      let rows = map (run_row format_time s) (keep (executes_as p.id) s.runs) in
      let before = λ (a b : RunSummary).
        dearer format_time a.spend a.created_at a.id b.spend b.created_at b.id in
      let found = ap (λ r. r >> ok (sort_rows before rows)) fits in
      let many = length-sort_rows before rows in
      let each = length-map (run_row format_time s) (keep (executes_as p.id) s.runs) in
      let over = count-sort_rows before over_budget rows in
      let agree = count_overspent s p.id s.runs in
      (sort_rows before rows, found, ground arith, ground arith)

  -- A property of the row of every principal holds of every row of the report.
  pub All_rows :
      (P : PrincipalSummary → Type 0) (now : ℕ) (s : Db) (rows : List PrincipalSummary)
      → (groups_fit (λ e. e.run_id) s.ledger s.ledger ≡ ok tt
          → (p : Principal) → P (principal_row format_time now s p))
      → principal_summaries format_time now s ≡ ok rows
      → All P rows
  unfolding principal_summaries
  All_rows P now s rows each h =
      elim (Result-cases (groups_fit (λ e. e.principal_id) s.ledger s.ledger)) [
        | inl (e, failed) ↦ absurd (ground arith)
        | inr (tt, fits) ↦ elim (Result-cases (groups_fit (λ e. e.run_id) s.ledger s.ledger)) [
          | inl (e, failed) ↦ absurd (ground arith)
          | inr (tt, runs_fit) ↦
              let before = λ (a b : PrincipalSummary).
                dearer format_time a.spend a.principal.created_at a.principal.id b.spend
                  b.principal.created_at b.principal.id in
              let sorted = sort_rows before (map (principal_row format_time now s) s.principals) in
              let same : sorted ≡ rows = ground arith in
              subst (All P) same (
                All-sort_rows before P (map (principal_row format_time now s) s.principals)
                  (All-map P (principal_row format_time now s) s.principals (each runs_fit)))
        ]
      ]

  -- If PrincipalSummaries succeeds, then for the principal of each of its rows RunSummaries
  -- succeeds too, with as many rows as the row counts runs, and the rows for which OverBudget
  -- holds are as many as the row counts over budget.
  pub principal_summaries-IsDetailed :
      (now : ℕ) (s : Db) (rows : List PrincipalSummary)
      → principal_summaries format_time now s ≡ ok rows
      → All (IsDetailed s) rows
  principal_summaries-IsDetailed now s rows h =
      All_rows (IsDetailed s) now s rows (λ fits p. principal_row-IsDetailed now s p fits) h
