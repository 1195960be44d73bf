-- ===== src/Sqlite/Summary/Spend.antt =====
-- summary.go: what the runs of a principal have spent adds up to what the principal has spent.
use spendlease.Base.{
  ℕ, ◌≡◌, refl, ap, ◌∙◌, inl, inr, Bool, false, List, [], ◌∷◌, none, some, Bytes, str_eq,
  str_eq_comm, str_eq_iff, map, keep, All, if◌then◌else◌, sort_rows, insert_row, arith, Bool-cases,
}
use spendlease.Base.Int.{ℤ, pos, ◌+ℤ◌, int_laws}
use spendlease.Ledger.{Entry}
use spendlease.Store.{Principal, Run, RunSummary, ok, ◌>>◌}
use spendlease.Sqlite.Tables.{Db, find_run}
use spendlease.Sqlite.Usage.{sum_costs}
use spendlease.Sqlite.Tree.Ancestors.{IsRooted}
use spendlease.Sqlite.Summary.Totals.{All_rows}
use spendlease.Sqlite.Summary.{
  PrincipalSummary, groups_fit, charged_to, dearer, run_row, executes_as, run_rows, run_summaries,
  principal_row, principal_summaries,
}

unfoldable pub total_spend : List RunSummary → ℤ
total_spend [] = pos 0
total_spend (r ∷ rs) = r.spend +ℤ total_spend rs

total_spend-insert_row :
    (before : RunSummary → RunSummary → Bool) (x : RunSummary) (ys : List RunSummary)
    → total_spend (insert_row before x ys) ≡ x.spend +ℤ total_spend ys
unfolding insert_row total_spend
total_spend-insert_row before x [] = refl
total_spend-insert_row before x (y ∷ ys) = elim (Bool-cases (before x y)) [
  | inl first ↦ ground arith
  | inr later ↦
      let rest = total_spend-insert_row before x ys in
      let same : total_spend (insert_row before x (y ∷ ys))
          ≡ y.spend +ℤ (x.spend +ℤ total_spend ys) =
        ground arith in
      let swap : y.spend +ℤ (x.spend +ℤ total_spend ys) ≡ x.spend +ℤ (y.spend +ℤ total_spend ys) =
        grind int_laws in
      same ∙ swap
]

total_spend-sort_rows :
    (before : RunSummary → RunSummary → Bool) (xs : List RunSummary)
    → total_spend (sort_rows before xs) ≡ total_spend xs
unfolding sort_rows total_spend
total_spend-sort_rows before [] = refl
total_spend-sort_rows before (x ∷ xs) =
    ground (
      arith,
      total_spend-insert_row before x (sort_rows before xs),
      total_spend-sort_rows before xs,
    )

-- What the runs of a principal have spent, of some entries.
unfoldable spent_of : Bytes → List Run → List Entry → ℤ
spent_of p [] es = pos 0
spent_of p (r ∷ rs) es =
    if executes_as p r then sum_costs (charged_to r.id) es +ℤ spent_of p rs es else spent_of p rs es

total_spend-spent_of :
    (format_time : ℕ → Bytes) (s : Db) (p : Bytes) (rs : List Run)
    → total_spend (map (run_row format_time s) (keep (executes_as p) rs)) ≡ spent_of p rs s.ledger
unfolding total_spend spent_of run_row
total_spend-spent_of format_time s p [] = refl
total_spend-spent_of format_time s p (r ∷ rs) =
    ground (arith, total_spend-spent_of format_time s p rs)

spent_of_none : (p : Bytes) (rs : List Run) → spent_of p rs [] ≡ pos 0
unfolding spent_of sum_costs ◌+ℤ◌
spent_of_none p [] = refl
spent_of_none p (r ∷ rs) = ground (arith, spent_of_none p rs)

-- The run of an entry is one of the principal's.
unfoldable run_of : Bytes → List Run → Entry → Bool
run_of p rs e = elim (find_run e.run_id rs) [ none ↦ false | some r ↦ executes_as p r ]

spent_of-other :
    (p : Bytes) (rs : List Run) (e : Entry) (es : List Entry)
    → find_run e.run_id rs ≡ none
    → spent_of p rs (e ∷ es) ≡ spent_of p rs es
unfolding spent_of sum_costs find_run
spent_of-other p [] e es h = refl
spent_of-other p (r ∷ rs) e es h =
    ground (arith, str_eq_comm e.run_id r.id, spent_of-other p rs e es)

spent_of-cons :
    (p : Bytes) (rs : List Run) (e : Entry) (es : List Entry)
    → IsRooted rs
    → spent_of p rs (e ∷ es)
      ≡ (if run_of p rs e then e.cost +ℤ spent_of p rs es else spent_of p rs es)
unfolding spent_of run_of sum_costs find_run
spent_of-cons p [] e es w = refl
spent_of-cons p (r ∷ rs) e es w = elim (Bool-cases (str_eq r.id e.run_id)) [
  | inl here ↦
      let same = str_eq_iff r.id e.run_id in
      let gone : find_run e.run_id rs ≡ none = ground arith in
      let rest = spent_of-other p rs e es gone in
      let swap : (e.cost +ℤ sum_costs (charged_to r.id) es) +ℤ spent_of p rs es
          ≡ e.cost +ℤ (sum_costs (charged_to r.id) es +ℤ spent_of p rs es) =
        grind int_laws in
      ground (arith, str_eq_comm e.run_id r.id)
  | inr there ↦
      let rest = spent_of-cons p rs e es w.2 in
      let swap : sum_costs (charged_to r.id) es +ℤ (e.cost +ℤ spent_of p rs es)
          ≡ e.cost +ℤ (sum_costs (charged_to r.id) es +ℤ spent_of p rs es) =
        grind int_laws in
      ground (arith, str_eq_comm e.run_id r.id)
]

-- An entry names the principal of its run.
abbrev pub IsAttributed : List Run → Entry → Type 0
IsAttributed rs e = (r : Run) × (find_run e.run_id rs ≡ some r) × (r.principal_id ≡ e.principal_id)

spent_of-sum_costs :
    (p : Bytes) (rs : List Run) (es : List Entry)
    → IsRooted rs
    → All (IsAttributed rs) es
    → spent_of p rs es ≡ sum_costs (λ e. str_eq e.principal_id p) es
unfolding sum_costs run_of
spent_of-sum_costs p rs [] w h = spent_of_none p rs
spent_of-sum_costs p rs (e ∷ es) w ((r, found, same), hs) =
    ground (arith, spent_of-cons p rs e es w, spent_of-sum_costs p rs es w hs)

module _ (format_time : ℕ → Bytes) where
  -- RunSummaries of a principal, whose spend adds up to the principal's.
  abbrev pub IsAccounted : Db → PrincipalSummary → Type 0
  IsAccounted s row =
      (rs : List RunSummary) × (run_summaries format_time row.principal.id s ≡ ok rs)
      × (total_spend rs ≡ row.spend)

  principal_row-IsAccounted :
      (now : ℕ) (s : Db) (p : Principal)
      → IsRooted s.runs
      → All (IsAttributed s.runs) s.ledger
      → groups_fit (λ e. e.run_id) s.ledger s.ledger ≡ ok tt
      → IsAccounted s (principal_row format_time now s p)
  unfolding run_rows principal_row run_summaries
  principal_row-IsAccounted now s p w h fits =
      let rows = map (run_row format_time s) (keep (executes_as p.id) s.runs) in
      let before = λ (a b : RunSummary).
        dearer format_time a.spend a.created_at a.id b.spend b.created_at b.id in
      (
        sort_rows before rows,
        ap (λ r. r >> ok (sort_rows before rows)) fits,
        total_spend-sort_rows before rows
            ∙ total_spend-spent_of format_time s p.id s.runs
            ∙ spent_of-sum_costs p.id s.runs s.ledger w h,
      )

  -- If PrincipalSummaries succeeds, ids of runs differ, every parent is an older row, and each
  -- ledger entry names the principal of its run, then for each row RunSummaries of that principal
  -- succeeds, and the spend of its rows adds up to the spend of the principal's row.
  pub principal_summaries-IsAccounted :
      (now : ℕ) (s : Db) (rows : List PrincipalSummary)
      → IsRooted s.runs
      → All (IsAttributed s.runs) s.ledger
      → principal_summaries format_time now s ≡ ok rows
      → All (IsAccounted s) rows
  principal_summaries-IsAccounted now s rows w h reported =
      All_rows format_time (IsAccounted s) now s rows
        (λ fits p. principal_row-IsAccounted now s p w h fits) reported
