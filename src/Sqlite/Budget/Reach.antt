-- ===== src/Sqlite/Budget/Reach.antt =====
-- Every interleaving of the store's methods: each holds its locks for one whole transaction, so a run
-- of the gateway is a sequence of them.
use mathlib.Core.Path.{subst}
use spendlease.Base.{ℕ, ◌≡◌, sym, ◌⊎◌, true, some, Bytes}
use spendlease.Base.Int.{pos, ◌+ℤ◌, ◌≤ℤ◌}
use spendlease.Ledger.{Platform, Entry}
use spendlease.Store.{Principal, Run, Lease, Reservation, ReservationStatus, Mode, BudgetEvent, ok}
use spendlease.Sqlite.Tables.{Db, empty_db, find_run}
use spendlease.Sqlite.Principals.{create_principal, create_principal_run_lease, set_principal_mode}
use spendlease.Sqlite.Runs.{create_run, close_run}
use spendlease.Sqlite.Leases.{create_lease, revoke_lease, revoke_leases_for_principal}
use spendlease.Sqlite.Reservations.{resolve_reservation, expire_pending_reservations}
use spendlease.Sqlite.Reserve.{try_reserve, record_budget_event}
use spendlease.Sqlite.Settle.{settle_reservation}
use spendlease.Sqlite.Usage.{spent_under, held_under}
use spendlease.Sqlite.Budget.Solvent.{IsSolvent}
use spendlease.Sqlite.Budget.Holds.{
  try_reserve-IsSolvent, resolve_reservation-IsSolvent, expire-IsSolvent,
}
use spendlease.Sqlite.Budget.Hierarchy.{create_run-IsSolvent}
use spendlease.Sqlite.Budget.Closing.{close_run-IsSolvent}
use spendlease.Sqlite.Budget.Charges.{IsCovered, settle_reservation-IsSolvent}
use spendlease.Sqlite.Budget.Calls.{
  with_principals, with_leases, with_events, insert_lease-IsSolvent, insert_principal-IsSolvent,
  create_principal_inv, create_lease_inv, set_principal_mode_inv, revoke_lease_inv,
  record_budget_event_inv, new_agent-IsSolvent, kill-IsSolvent,
}

-- One call of a method that changes the tables. A reservation is enforced, and a first charge is
-- covered by its hold. Three calls are left out, since they spend whatever the budgets say:
-- AppendLedger without a hold, CreateReservation without a decision, and a TryReserve that observes.
pub data Step (p : Platform) : Db → Db → Type 0 where
  new_principal : {s s' : Db} (a : Principal) → create_principal a s ≡ ok s' → Step p s s'
  new_agent :
      {s s' : Db} (a : Principal) (r : Run) (l : Lease)
      → create_principal_run_lease a r l s ≡ ok s'
      → Step p s s'
  mode : {s s' : Db} (i : Bytes) (m : Mode) → set_principal_mode i m s ≡ ok s' → Step p s s'
  new_run : {s s' : Db} (r : Run) → create_run r s ≡ ok s' → Step p s s'
  close : {s s' : Db} (now : ℕ) (i : Bytes) → close_run now i s ≡ ok s' → Step p s s'
  new_lease : {s s' : Db} (l : Lease) → create_lease l s ≡ ok s' → Step p s s'
  revoke : {s s' : Db} (i : Bytes) (at : ℕ) → revoke_lease i at s ≡ ok s' → Step p s s'
  kill :
      (s : Db) (i : Bytes) (at : ℕ) → Step p s (revoke_leases_for_principal p.format_time i at s).1
  reserve : (s : Db) (r : Reservation) → Step p s (try_reserve r true s).0
  resolve :
      {s s' : Db} (i : Bytes) (status : ReservationStatus) (at : ℕ)
      → resolve_reservation i status at s ≡ ok s'
      → Step p s s'
  expire : (s : Db) (now : ℕ) → Step p s (expire_pending_reservations p.format_time now s).1
  settle :
      {s s' : Db} (now : ℕ) (i : Bytes) (e o : Entry)
      → settle_reservation p now i e s ≡ ok (o, s')
      → IsCovered s i e
      → Step p s s'
  event : {s s' : Db} (e : BudgetEvent) → record_budget_event e s ≡ ok s' → Step p s s'

-- One call of a method, or none.
abbrev pub IsStep : Platform → Db → Db → Type 0
IsStep p s s' = (s' ≡ s) ⊎ Step p s s'

Step-IsSolvent : (p : Platform) {s s' : Db} → Step p s s' → IsSolvent s → IsSolvent s'
Step-IsSolvent p {s} {s'} (new_principal a h) v =
    insert_principal-IsSolvent a s s' (create_principal_inv a s s' h) v
Step-IsSolvent p {s} {s'} (new_agent a r l h) v = new_agent-IsSolvent a r l s s' h v
Step-IsSolvent p {s} {s'} (mode i m h) v =
    let (ps, same) = set_principal_mode_inv i m s s' h in
    subst IsSolvent (sym same) (with_principals s v ps)
Step-IsSolvent p {s} {s'} (new_run r h) v = create_run-IsSolvent r s s' h v
Step-IsSolvent p {s} {s'} (close now i h) v = close_run-IsSolvent now i s s' h v
Step-IsSolvent p {s} {s'} (new_lease l h) v =
    insert_lease-IsSolvent l s s' (create_lease_inv l s s' h) v
Step-IsSolvent p {s} {s'} (revoke i at h) v =
    let (ls, same) = revoke_lease_inv i at s s' h in subst IsSolvent (sym same) (with_leases s v ls)
Step-IsSolvent p (kill s i at) v = kill-IsSolvent p.format_time i at s v
Step-IsSolvent p (reserve s r) v = try_reserve-IsSolvent r s v
Step-IsSolvent p {s} {s'} (resolve i status at h) v =
    resolve_reservation-IsSolvent i status at s s' h v
Step-IsSolvent p (expire s now) v = expire-IsSolvent p.format_time now s v
Step-IsSolvent p {s} {s'} (settle now i e o h c) v =
    settle_reservation-IsSolvent p now i e o s s' h c v
Step-IsSolvent p {s} {s'} (event e h) v =
    let (es, same) = record_budget_event_inv e s s' h in
    subst IsSolvent (sym same) (with_events s v es)

pub data Reach (p : Platform) (s : Db) : Db → Type 0 where
  here : Reach p s s
  next : {t u : Db} → Reach p s t → Step p t u → Reach p s u

pub empty_db-IsSolvent : IsSolvent empty_db
unfolding find_run
empty_db-IsSolvent =
    (record { rooted = tt; charged = tt; held = tt; amounts = tt }, λ i n f. absurd (cc f))

pub Reach-IsSolvent : (p : Platform) {s t : Db} → Reach p s t → IsSolvent s → IsSolvent t
Reach-IsSolvent p here v = v
Reach-IsSolvent p (next r st) v = Step-IsSolvent p st (Reach-IsSolvent p r v)

-- For every store that is reached from the empty one by calls of the store's methods, with
-- reservations enforced and each first settlement no dearer than its pending hold, every run of
-- the table has the budget zero (no limit), or what is settled and held in its subtree is at most
-- its budget. Direct ledger appends and holds that are created without a decision are not among
-- the calls.
pub reachable_within :
    (p : Platform) (s : Db) (i : Bytes) (n : Run)
    → Reach p empty_db s
    → find_run i s.runs ≡ some n
    → (n.budget ≡ pos 0) ⊎ (spent_under s n.id +ℤ held_under s n.id ≤ℤ n.budget)
reachable_within p s i n r f = (Reach-IsSolvent p r empty_db-IsSolvent).1 i n f
