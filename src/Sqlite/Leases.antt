-- ===== src/Sqlite/Leases.antt =====
-- The methods on leases: CreateLease, RevokeLease, RevokeLeasesForPrincipal.
pub mod Killed
use spendlease.Base.{
  ℕ, Bool, not, ◌&&◌, List, ◌∷◌, none, some, Bytes, str_eq, str_leb, ◌==◌, if◌then◌else◌, any, keep,
  update, is_some, length,
}
use spendlease.Base.Int.{pos, ltb_ℤ}
use spendlease.Store.{Run, Lease, Result, ok, err, ◌>>◌, guard, is_active, not_found, conflict}
use spendlease.Sqlite.Tables.{Db, find_run, find_lease}
use spendlease.Sqlite.Tree.{ancestors}

-- INSERT INTO leases, with the constraints of the table.
unfoldable pub insert_lease : Lease → Db → Result Db
unfolding find_lease
insert_lease l s = do
  guard (not (ltb_ℤ l.ceiling (pos 0))) conflict
  guard (not (is_some (find_lease l.id s.leases))) conflict
  guard (not (any (λ k. str_eq k.token_hash l.token_hash) s.leases)) conflict
  guard (is_some (find_run l.run_id s.runs)) not_found
  ok (record s { leases = l ∷ s.leases })

-- `status != 'active'`
abbrev pub is_inactive : Run → Bool
is_inactive r = not (is_active r.status)

unfoldable pub create_lease : Lease → Db → Result Db
create_lease l s =
    let chain = ancestors s.runs l.run_id in
    if not (length chain == 0) && not (any is_inactive chain)
    then insert_lease l s
    else if any is_inactive chain
    then err conflict
    else if is_some (find_run l.run_id s.runs)
    then err conflict
    else err not_found

abbrev pub not_revoked : Lease → Bool
not_revoked l = not (is_some l.revoked_at)

unfoldable pub revoke_lease : Bytes → ℕ → Db → Result Db
unfolding find_lease
revoke_lease i at s = elim (find_lease i s.leases) [
  | none ↦ err not_found
  | some l ↦ ok (record s {
    leases =
        update (λ l. str_eq l.id i && not_revoked l) (λ l. record l { revoked_at = some at })
          s.leases;
  })
]

-- `run_id IN (SELECT id FROM runs WHERE principal_id = ?)`
unfoldable pub runs_as : Bytes → List Run → Bytes → Bool
runs_as p rs i = any (λ r. str_eq r.id i && str_eq r.principal_id p) rs

-- The rows that the kill switch updates. Instants are compared as the texts that are stored.
unfoldable pub kills : (ℕ → Bytes) → Bytes → ℕ → List Run → Lease → Bool
unfolding runs_as
kills format_time p at rs l =
    not_revoked l
    && not (str_leb (format_time l.expires_at) (format_time at))
    && runs_as p rs l.run_id

unfoldable pub revoke_leases_for_principal : (ℕ → Bytes) → Bytes → ℕ → Db → ℕ × Db
unfolding kills
revoke_leases_for_principal format_time p at s =
    let dead = kills format_time p at s.runs in
    (
      length (keep dead s.leases),
      record s { leases = update dead (λ l. record l { revoked_at = some at }) s.leases },
    )
