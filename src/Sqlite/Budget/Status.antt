-- ===== src/Sqlite/Budget/Status.antt =====
-- BudgetStatus against TryReserve: what the report says is what a decision would find.
use spendlease.Base.{
  ◌≡◌, refl, Bool, not, ◌&&◌, ◌||◌, List, [], ◌∷◌, arith, Bytes, any, all, All, inl, inr,
}
use spendlease.Base.Int.{ℤ, pos, ltb_ℤ, ◌≤ℤ◌}
use spendlease.Store.{Run, RunBudgetStatus, ok, is_active, Result-cases}
use spendlease.Sqlite.Tables.{Db}
use spendlease.Sqlite.Tree.{ancestors}
use spendlease.Sqlite.Usage.{subtree_usage, spent_under, held_under}
use spendlease.Sqlite.Reserve.{add_level, add_levels, budget_status, remaining_of, new_status}
use spendlease.Sqlite.Budget.Decision.{is_short, subtree_usage_exact}

abbrev pub IsBudgeted : Run → Type 0
IsBudgeted n = pos 0 ≤ℤ n.budget

-- The report leaves less than `amount`.
abbrev pub reports_short : RunBudgetStatus → ℤ → Bool
reports_short b amount = not b.unlimited && ltb_ℤ b.effective_remaining amount

abbrev pub is_running : Run → Bool
is_running n = is_active n.status

add_level_lem :
    (s : Db) (amount : ℤ) (n : Run) (b : RunBudgetStatus)
    → IsBudgeted n
    → let c = add_level n (spent_under s n.id) (held_under s n.id) b in
      (c.spend_allowed ≡ (b.spend_allowed && is_running n))
      × (reports_short c amount ≡ (reports_short b amount || is_short s amount n))
unfolding add_level is_short
add_level_lem s amount n b h =
    let left = remaining_of n.budget (spent_under s n.id) (held_under s n.id) in
    (ground arith, ground arith)

add_levels_lem :
    (s : Db) (amount : ℤ) (ns : List Run) (b c : RunBudgetStatus)
    → All IsBudgeted ns
    → add_levels s ns b ≡ ok c
    → (c.spend_allowed ≡ (b.spend_allowed && all is_running ns))
      × (reports_short c amount ≡ (reports_short b amount || any (is_short s amount) ns))
unfolding add_levels
add_levels_lem s amount [] b c w h = (ground arith, ground arith)
add_levels_lem s amount (n ∷ ns) b c w h = elim (Result-cases (subtree_usage s n.id)) [
  | inl (e, failed) ↦ absurd (ground arith)
  | inr ((spent, held), done) ↦
      let sums = subtree_usage_exact s n.id (spent, held) done in
      let next = add_level n (spent_under s n.id) (held_under s n.id) b in
      let one = add_level_lem s amount n b w.0 in
      let rest = add_levels_lem s amount ns next c w.1 (ground (arith, sums)) in
      (ground arith, ground arith)
]

budget_status_inv :
    (s : Db) (i : Bytes) (ns : List Run) (b : RunBudgetStatus)
    → ancestors s.runs i ≡ ns
    → budget_status i s ≡ ok b
    → (n : Run) × (add_levels s ns (new_status i n) ≡ ok b)
unfolding budget_status
budget_status_inv s i [] b e h = absurd (ground arith)
budget_status_inv s i (n ∷ ns) b e h = (n, ground arith)

-- If no run of the chain has a negative budget and BudgetStatus succeeds, its report agrees with
-- what a decision would find: it allows spending exactly if every run of the chain is active, and
-- for every amount it has a limit with less left than that amount exactly if the budget of some
-- run of the chain is too short for it.
pub budget_status-exceeds :
    (s : Db) (i : Bytes) (amount : ℤ) (b : RunBudgetStatus)
    → All IsBudgeted (ancestors s.runs i)
    → budget_status i s ≡ ok b
    → (b.spend_allowed ≡ all is_running (ancestors s.runs i))
      × (reports_short b amount ≡ any (is_short s amount) (ancestors s.runs i))
budget_status-exceeds s i amount b w h =
    let (n, levels) = budget_status_inv s i (ancestors s.runs i) b refl h in
    add_levels_lem s amount (ancestors s.runs i) (new_status i n) b w levels
