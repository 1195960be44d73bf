-- ===== src/Sqlite/Runs.antt =====
-- The methods on runs: CreateRun and CloseRun.
use spendlease.Base.{
  ℕ, Bool, not, ◌&&◌, ◌||◌, ◌∷◌, none, some, Bytes, str_eq, if◌then◌else◌, update, is_some,
}
use spendlease.Base.Int.{pos, ltb_ℤ}
use spendlease.Store.{
  Run, Result, ok, err, ◌>>◌, guard, closed, run_status_valid, is_active, is_closed, is_root,
  not_found, conflict,
}
use spendlease.Sqlite.Tables.{Db, find_run, find_principal}

-- `(status = 'closed') = (closed_at IS NOT NULL)`
abbrev closed_matches : Run → Bool
closed_matches r = if is_closed r.status then is_some r.closed_at else not (is_some r.closed_at)

-- INSERT INTO runs, with the CHECKs, the primary key and the foreign keys of the table.
unfoldable pub insert_run : Run → Db → Result Db
unfolding find_principal
insert_run r s = do
  guard (run_status_valid r.status) conflict
  guard (not (ltb_ℤ r.budget (pos 0))) conflict
  guard (is_root r || not (str_eq r.parent_run_id r.id)) conflict
  guard (closed_matches r) conflict
  guard (not (is_some (find_run r.id s.runs))) conflict
  guard (is_some (find_principal r.principal_id s.principals)) not_found
  guard (is_root r || is_some (find_run r.parent_run_id s.runs)) not_found
  ok (record s { runs = r ∷ s.runs })

-- The row of the parent that `INSERT … SELECT … WHERE` selects.
abbrev accepts_child : Run → Run → Bool
accepts_child r parent = str_eq parent.principal_id r.principal_id && is_active parent.status

-- A child joins an active run of its own principal.
create_child : Run → Db → Result Db
create_child r s = elim (find_run r.parent_run_id s.runs) [
  | none ↦ err not_found
  | some parent ↦ if accepts_child r parent then insert_run r s else err conflict
]

unfoldable pub create_run : Run → Db → Result Db
unfolding create_child
create_run r s = do
  guard (run_status_valid r.status) conflict
  (if is_root r then insert_run r s else create_child r s)

abbrev pub closes : Bytes → Run → Bool
closes i r = str_eq r.id i && is_active r.status

unfoldable pub close_run : ℕ → Bytes → Db → Result Db
close_run now i s = elim (find_run i s.runs) [
  | none ↦ err not_found
  | some r ↦ ok (record s {
    runs = update (closes i) (λ r. record r { status = closed; closed_at = some now }) s.runs;
  })
]
