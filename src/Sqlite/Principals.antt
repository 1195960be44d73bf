-- ===== src/Sqlite/Principals.antt =====
-- The methods on principals: CreatePrincipal, SetPrincipalMode, CreatePrincipalRunLease.
use spendlease.Base.{not, ◌&&◌, ◌∷◌, Bytes, str_eq, any, update, is_some}
use spendlease.Store.{
  Principal, Run, Lease, Result, ok, ◌>>=◌, ◌>>◌, guard, Mode, mode_valid, is_active, is_empty,
  run_status_valid, not_found, conflict,
}
use spendlease.Sqlite.Tables.{Db, find_principal}
use spendlease.Sqlite.Runs.{insert_run}
use spendlease.Sqlite.Leases.{insert_lease}

-- INSERT INTO principals: id, name and key_hash are unique, and the mode is checked.
unfoldable pub insert_principal : Principal → Db → Result Db
unfolding find_principal
insert_principal p s = do
  guard (mode_valid p.mode) conflict
  guard (not (is_some (find_principal p.id s.principals))) conflict
  guard (not (any (λ q. str_eq q.name p.name) s.principals)) conflict
  guard (not (any (λ q. str_eq q.key_hash p.key_hash) s.principals)) conflict
  ok (record s { principals = p ∷ s.principals })

unfoldable pub create_principal : Principal → Db → Result Db
create_principal p s = do guard (mode_valid p.mode) conflict; insert_principal p s

-- The three rows of a new agent are inserted together or not at all.
unfoldable pub create_principal_run_lease : Principal → Run → Lease → Db → Result Db
create_principal_run_lease p r l s = do
  guard (mode_valid p.mode) conflict
  guard (run_status_valid r.status && is_active r.status) conflict
  guard (str_eq r.principal_id p.id && is_empty r.parent_run_id && str_eq l.run_id r.id) conflict
  s1 ← insert_principal p s
  s2 ← insert_run r s1
  insert_lease l s2

unfoldable pub set_principal_mode : Bytes → Mode → Db → Result Db
unfolding find_principal
set_principal_mode i m s = do
  guard (mode_valid m) conflict
  guard (is_some (find_principal i s.principals)) not_found
  ok (record s {
    principals = update (λ p. str_eq p.id i) (λ p. record p { mode = m }) s.principals;
  })
