-- ===== src/Sqlite/Tables.antt =====
-- The tables, and the lookups by a key that every method makes.
use spendlease.Base.{ℕ, List, [], ◌∷◌, Option, none, some, Bytes, str_eq, ◌==◌, if◌then◌else◌, find}
use spendlease.Ledger.{Entry}
use spendlease.Store.{Principal, Run, Lease, Reservation, BudgetEvent, Result, ok, err, not_found}

pub record Settlement : Type 0 where
  pub reservation_id : Bytes
  pub ledger_seq : ℕ
  pub created_at : ℕ

pub record Db : Type 0 where
  pub principals : List Principal
  pub runs : List Run
  pub leases : List Lease
  pub reservations : List Reservation
  pub settlements : List Settlement
  pub ledger : List Entry
  pub budget_events : List BudgetEvent

abbrev pub empty_db : Db
empty_db = record {
  principals = [];
  runs = [];
  leases = [];
  reservations = [];
  settlements = [];
  ledger = [];
  budget_events = [];
}

-- `sql.ErrNoRows` is wrapped as ErrNotFound.
abbrev pub or_not_found {ℓ} : {A : Type ℓ} → Option A → Result A
or_not_found none = err not_found
or_not_found (some a) = ok a

unfoldable pub find_principal : Bytes → List Principal → Option Principal
find_principal i ps = find (λ p. str_eq p.id i) ps

unfoldable pub find_run : Bytes → List Run → Option Run
find_run i [] = none
find_run i (r ∷ rs) = if str_eq r.id i then some r else find_run i rs

unfoldable pub find_lease : Bytes → List Lease → Option Lease
find_lease i ls = find (λ l. str_eq l.id i) ls

unfoldable pub find_reservation : Bytes → List Reservation → Option Reservation
find_reservation i [] = none
find_reservation i (r ∷ rs) = if str_eq r.id i then some r else find_reservation i rs

unfoldable pub find_settlement : Bytes → List Settlement → Option Settlement
find_settlement i ss = find (λ s. str_eq s.reservation_id i) ss

-- `ledgerEntryBySeq`
unfoldable pub find_entry : ℕ → List Entry → Option Entry
find_entry n es = find (λ e. e.seq == n) es

unfoldable pub get_principal : Bytes → Db → Result Principal
get_principal i s = or_not_found (find_principal i s.principals)

unfoldable pub get_principal_by_key_hash : Bytes → Db → Result Principal
get_principal_by_key_hash k s = or_not_found (find (λ p. str_eq p.key_hash k) s.principals)

unfoldable pub get_run : Bytes → Db → Result Run
get_run i s = or_not_found (find_run i s.runs)

unfoldable pub get_lease : Bytes → Db → Result Lease
get_lease i s = or_not_found (find_lease i s.leases)

unfoldable pub get_lease_by_token_hash : Bytes → Db → Result Lease
get_lease_by_token_hash h s = or_not_found (find (λ l. str_eq l.token_hash h) s.leases)

unfoldable pub get_reservation : Bytes → Db → Result Reservation
get_reservation i s = or_not_found (find_reservation i s.reservations)
