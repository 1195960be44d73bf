-- ===== src/Sqlite/Summary.antt =====
-- internal/store/sqlite/summary.go: the totals of each principal and of each run. MAX over a column of
-- instants compares the texts that are stored.
pub mod Totals
pub mod Spend
use spendlease.Base.{
  ℕ, Bool, true, false, not, ◌&&◌, ◌||◌, List, [], ◌∷◌, Option, none, some, Bytes, str_eq, str_leb,
  ltb, map, any, keep, length, is_some, if◌then◌else◌, sort_rows,
}
use spendlease.Base.Int.{ℤ, pos, ltb_ℤ, leb_ℤ, eq_ℤ}
use spendlease.Ledger.{Entry}
use spendlease.Store.{
  Principal, Run, Lease, BudgetEvent, RunSummary, Mode, Result, ok, err, ◌>>=◌, ◌>>◌,
}
use spendlease.Sqlite.Tables.{Db, find_run}
use spendlease.Sqlite.Usage.{sum_costs, fit_int64}
use spendlease.Sqlite.Queries.{older}

pub record PrincipalSummary : Type 0 where
  pub principal : Principal
  pub spend : ℤ
  pub entries : ℕ
  pub estimated_entries : ℕ
  pub runs : ℕ
  pub over_budget_runs : ℕ
  pub active_leases : ℕ
  pub revoked_leases : ℕ
  pub expired_leases : ℕ
  pub budget_blocks : ℕ
  pub would_block_events : ℕ
  pub last_event : Option ℕ
  pub last_activity : Option ℕ

-- GROUP BY a key: the sum of every group has to be an int64.
unfoldable pub groups_fit : (Entry → Bytes) → List Entry → List Entry → Result (Unit {0})
unfolding fit_int64
groups_fit key ledger [] = ok tt
groups_fit key ledger (e ∷ es) =
    fit_int64 (sum_costs (λ x. str_eq (key x) (key e)) ledger) >>= λ _. groups_fit key ledger es

abbrev pub charged_to : Bytes → Entry → Bool
charged_to i e = str_eq e.run_id i

abbrev pub executes_as : Bytes → Run → Bool
executes_as p r = str_eq r.principal_id p

-- The leases of a principal, by the join with the runs.
abbrev pub leased_to : Db → Bytes → Lease → Bool
leased_to s p l = elim (find_run l.run_id s.runs) [ none ↦ false | some r ↦ executes_as p r ]

unfoldable pub revocations : List Lease → List ℕ
revocations [] = []
revocations (l ∷ ls) = elim l.revoked_at [ none ↦ revocations ls | some t ↦ t ∷ revocations ls ]

-- A run with entries whose sum is more than its budget, where it has one.
abbrev pub overspent : Db → Run → Bool
overspent s r =
    any (charged_to r.id) s.ledger
    && (ltb_ℤ (pos 0) r.budget && ltb_ℤ r.budget (sum_costs (charged_to r.id) s.ledger))

-- The loop over the last instants: the latest of them.
unfoldable pub last_event_of : Option ℕ → List (Option ℕ) → Option ℕ
last_event_of seen [] = seen
last_event_of seen (none ∷ ts) = last_event_of seen ts
last_event_of none (some t ∷ ts) = last_event_of (some t) ts
last_event_of (some u) (some t ∷ ts) = last_event_of (if ltb u t then some t else some u) ts

module _ (format_time : ℕ → Bytes) where
  -- MAX of the instants of a group, which is NULL for none.
  unfoldable pub latest : List ℕ → Option ℕ
  latest [] = none
  latest (t ∷ ts) = elim (latest ts) [
    | none ↦ some t
    | some u ↦ if str_leb (format_time u) (format_time t) then some t else some u
  ]

  -- ORDER BY spend DESC, created_at, id
  abbrev pub dearer : ℤ → ℕ → Bytes → ℤ → ℕ → Bytes → Bool
  dearer spend at i spend' at' j =
      ltb_ℤ spend' spend || (eq_ℤ spend spend' && older format_time at i at' j)

  unfoldable pub run_row : Db → Run → RunSummary
  unfolding latest
  run_row s r =
      let rows = keep (charged_to r.id) s.ledger in
      record {
        id = r.id;
        principal_id = r.principal_id;
        parent_run_id = r.parent_run_id;
        budget = r.budget;
        spend = sum_costs (charged_to r.id) s.ledger;
        entries = length rows;
        status = r.status;
        created_at = r.created_at;
        last_activity = latest (map (λ e. e.created_at) rows);
      }

  unfoldable pub run_rows : Bytes → Db → List RunSummary
  unfolding run_row
  run_rows p s =
      sort_rows (λ a b. dearer a.spend a.created_at a.id b.spend b.created_at b.id)
        (map (run_row s) (keep (executes_as p) s.runs))

  unfoldable pub run_summaries : Bytes → Db → Result (List RunSummary)
  unfolding groups_fit run_rows
  run_summaries p s = groups_fit (λ e. e.run_id) s.ledger s.ledger >> ok (run_rows p s)

  abbrev pub lapsed : ℕ → Lease → Bool
  lapsed now l = not (is_some l.revoked_at) && str_leb (format_time l.expires_at) (format_time now)

  abbrev pub live : ℕ → Lease → Bool
  live now l =
      not (is_some l.revoked_at) && not (str_leb (format_time l.expires_at) (format_time now))

  unfoldable pub principal_row : ℕ → Db → Principal → PrincipalSummary
  unfolding latest revocations last_event_of
  principal_row now s p =
      let rows = keep (λ e. str_eq e.principal_id p.id) s.ledger in
      let held = keep (leased_to s p.id) s.leases in
      let events = keep (λ e. str_eq e.principal_id p.id) s.budget_events in
      let spent_at = latest (map (λ e. e.created_at) rows) in
      let revoked_at = latest (revocations held) in
      let lapsed_at = latest (map (λ l. l.expires_at) (keep (lapsed now) held)) in
      let decided_at = latest (map (λ e. e.created_at) events) in
      record {
        principal = p;
        spend = sum_costs (λ e. str_eq e.principal_id p.id) s.ledger;
        entries = length rows;
        estimated_entries = length (keep (λ e. e.estimated) rows);
        runs = length (keep (executes_as p.id) s.runs);
        over_budget_runs = length (keep (λ r. overspent s r && executes_as p.id r) s.runs);
        active_leases = length (keep (live now) held);
        revoked_leases = length (keep (λ l. is_some l.revoked_at) held);
        expired_leases = length (keep (lapsed now) held);
        budget_blocks = length (keep (λ e. e.enforced) events);
        would_block_events = length (keep (λ e. not e.enforced) events);
        last_event = last_event_of none (spent_at ∷ revoked_at ∷ lapsed_at ∷ decided_at ∷ []);
        last_activity = spent_at;
      }

  unfoldable pub principal_summaries : ℕ → Db → Result (List PrincipalSummary)
  unfolding groups_fit principal_row
  principal_summaries now s =
      groups_fit (λ e. e.principal_id) s.ledger s.ledger
      >> (groups_fit (λ e. e.run_id) s.ledger s.ledger
          >> ok (
              sort_rows
                (λ a b.
                  dearer a.spend a.principal.created_at a.principal.id b.spend
                    b.principal.created_at b.principal.id)
                (map (principal_row now s) s.principals)))
