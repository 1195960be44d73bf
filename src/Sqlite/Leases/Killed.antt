-- ===== src/Sqlite/Leases/Killed.antt =====
-- The kill switch: RevokeLeasesForPrincipal.
use spendlease.Base.{ℕ, ◌≡◌, true, false, List, [], ◌∷◌, arith, Bytes, str_leb, update, some}
use spendlease.Store.{Run, Lease, ok, lease_active}
use spendlease.Sqlite.Tables.{Db, get_lease, find_lease}
use spendlease.Sqlite.Leases.{kills, runs_as, revoke_leases_for_principal}

abbrev revoke_at : ℕ → Lease → Lease
revoke_at at l = record l { revoked_at = some at }

find_lease-killed :
    (format_time : ℕ → Bytes) (p : Bytes) (at now : ℕ) (rs : List Run) (i : Bytes) (l : Lease)
    (ls : List Lease)
    → find_lease i (update (kills format_time p at rs) (revoke_at at) ls) ≡ some l
    → runs_as p rs l.run_id ≡ true
    → str_leb (format_time l.expires_at) (format_time at) ≡ false
    → lease_active l now ≡ false
unfolding find_lease kills lease_active
find_lease-killed format_time p at now rs i l [] f r e = cc
find_lease-killed format_time p at now rs i l (k ∷ ls) f r e =
    ground (arith, find_lease-killed format_time p at now rs i l ls)

-- After RevokeLeasesForPrincipal, a lease of one of the principal's runs is active at no instant,
-- unless its formatted expiry was not later than the formatted instant of the call.
pub revoke_leases_for_principal-lease_active :
    (format_time : ℕ → Bytes) (p : Bytes) (at now : ℕ) (i : Bytes) (l : Lease) (s : Db)
    → get_lease i (revoke_leases_for_principal format_time p at s).1 ≡ ok l
    → runs_as p s.runs l.run_id ≡ true
    → str_leb (format_time l.expires_at) (format_time at) ≡ false
    → lease_active l now ≡ false
unfolding revoke_leases_for_principal get_lease
revoke_leases_for_principal-lease_active format_time p at now i l s f r e =
    ground (arith, find_lease-killed format_time p at now s.runs i l s.leases)
