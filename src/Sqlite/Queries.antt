-- ===== src/Sqlite/Queries.antt =====
-- The list queries of internal/store/sqlite/sqlite.go. Instants are compared as the texts that are stored.
use spendlease.Base.{ℕ, Bool, not, ◌&&◌, ◌||◌, List, Bytes, str_eq, str_leb, keep, sort_rows}
use spendlease.Store.{Principal, Run, Lease, is_root}
use spendlease.Sqlite.Tables.{Db}

module _ (format_time : ℕ → Bytes) where
  -- ORDER BY created_at, id
  abbrev pub older : ℕ → Bytes → ℕ → Bytes → Bool
  older at i at' j =
      not (str_leb (format_time at') (format_time at))
      || (str_eq (format_time at) (format_time at') && str_leb i j)

  -- ORDER BY created_at DESC, id
  abbrev pub newer : ℕ → Bytes → ℕ → Bytes → Bool
  newer at i at' j =
      not (str_leb (format_time at) (format_time at'))
      || (str_eq (format_time at) (format_time at') && str_leb i j)

  unfoldable pub list_principals : Db → List Principal
  list_principals s = sort_rows (λ a b. older a.created_at a.id b.created_at b.id) s.principals

  unfoldable pub list_runs_by_principal : Bytes → Db → List Run
  list_runs_by_principal p s =
      sort_rows (λ a b. newer a.created_at a.id b.created_at b.id)
        (keep (λ r. str_eq r.principal_id p) s.runs)

  unfoldable pub child_runs : Bytes → Db → List Run
  child_runs i s =
      sort_rows (λ a b. older a.created_at a.id b.created_at b.id)
        (keep (λ r. not (is_root r) && str_eq r.parent_run_id i) s.runs)

  unfoldable pub list_leases_by_run : Bytes → Db → List Lease
  list_leases_by_run i s =
      sort_rows (λ a b. newer a.created_at a.id b.created_at b.id)
        (keep (λ l. str_eq l.run_id i) s.leases)
