-- ===== src/Witnesses/Leases.antt =====
-- The kill switch, at a store with one lease.
use spendlease.Base.{◌≡◌, refl, true, false, some, none, [], ◌∷◌, codes, str_eq, str_leb}
use spendlease.Base.Decimal.{format_nat}
use spendlease.Base.Int.{pos}
use spendlease.Store.{Lease, ok}
use spendlease.Sqlite.Tables.{Db, get_lease, find_lease}
use spendlease.Sqlite.Leases.{kills, runs_as, revoke_leases_for_principal}
use spendlease.Witnesses.{with_child}

abbrev lease : Lease
lease = record {
  id = codes "l1";
  run_id = codes "r2";
  token_hash = codes "t1";
  providers = [];
  ceiling = pos 0;
  expires_at = 9;
  revoked_at = none;
  created_at = 1;
}

abbrev with_lease : Db
with_lease = record with_child { leases = lease ∷ [] }

abbrev killed : Lease
killed = record lease { revoked_at = some 5 }

found :
    get_lease (codes "l1") (revoke_leases_for_principal format_nat (codes "p1") 5 with_lease).1
    ≡ ok killed
unfolding get_lease find_lease revoke_leases_for_principal kills runs_as str_eq str_leb format_nat
found = refl

of_alice : runs_as (codes "p1") with_lease.runs (codes "r2") ≡ true
unfolding runs_as str_eq
of_alice = refl

not_expired : str_leb (format_nat 9) (format_nat 5) ≡ false
unfolding str_leb format_nat
not_expired = refl
