-- ===== src/Sqlite/Audit.antt =====
-- The ledger of every store that the methods reach: a chain that the audit accepts.
use mathlib.Core.Path.{subst}
use spendlease.Base.{Bool, ℕ, ◌≡◌, inl, inr, none, true, arith, Bytes, ap, ◌∙◌, sym}
use spendlease.Ledger.{Platform, Entry, verify_chain}
use spendlease.Store.{Principal, Run, Lease, Reservation, ok, Result-cases}
use spendlease.Sqlite.Tables.{Db, empty_db, Settlement}
use spendlease.Sqlite.Principals.{create_principal_run_lease}
use spendlease.Sqlite.Leases.{revoke_leases_for_principal}
use spendlease.Sqlite.Reservations.{expire_pending_reservations}
use spendlease.Sqlite.Reserve.{try_reserve}
use spendlease.Sqlite.Append.{append_ledger, ledger_entries}
use spendlease.Sqlite.Append.Chained.{
  IsChained, no_filter, append_ledger-IsChained, ledger_entries-verify,
}
use spendlease.Sqlite.Settle.{settle_first, settle_reservation, link_settlement, finish_hold}
use spendlease.Sqlite.Budget.Decision.{try_reserve-cases, create_reservation_inv}
use spendlease.Sqlite.Budget.Holds.{resolve_reservation_inv}
use spendlease.Sqlite.Budget.Hierarchy.{create_run_inv, insert_run_inv}
use spendlease.Sqlite.Budget.Closing.{close_run_inv}
use spendlease.Sqlite.Budget.Charges.{link_settlement_inv, settle_reservation-cases}
use spendlease.Sqlite.Budget.Calls.{
  insert_principal_inv, insert_lease_inv, create_principal_run_lease_inv, create_principal_inv,
  create_lease_inv, set_principal_mode_inv, revoke_lease_inv, record_budget_event_inv,
}
use spendlease.Sqlite.Budget.Reach.{Step, Reach}
use spendlease.Sqlite.Budget.Reach.Step.{
  new_principal, new_agent, mode, new_run, close, new_lease, revoke, kill, reserve, resolve, expire,
  settle, event,
}
use spendlease.Sqlite.Budget.Reach.Reach.{here, next}

finish_hold-ledger : (now : ℕ) (r : Reservation) (s : Db) → (finish_hold now r s).ledger ≡ s.ledger
unfolding finish_hold
finish_hold-ledger now r s = ground arith

-- The charge of a first settlement is an append.
settle_first-append_ledger :
    (p : Platform) (now : ℕ) (r : Reservation) (e o : Entry) (s s' : Db)
    → settle_first p now r e s ≡ ok (o, s')
    → (t : Db) × (append_ledger p now e s ≡ ok (o, t)) × (s'.ledger ≡ t.ledger)
unfolding settle_first
settle_first-append_ledger p now r e o s s' h = elim (Result-cases (append_ledger p now e s)) [
  | inl (x, failed) ↦ absurd (ground arith)
  | inr ((o1, t), appended) ↦
      let st : Settlement = record {
        reservation_id = r.id;
        ledger_seq = o1.seq;
        created_at = now;
      } in
      elim (Result-cases (link_settlement st t)) [
        | inl (x, failed) ↦ absurd (ground arith)
        | inr (u, linked) ↦ (
          t,
          ground arith,
          ground (arith, link_settlement_inv st t u linked, finish_hold-ledger now r u),
        )
      ]
]

pub settle_reservation-IsChained :
    (p : Platform) (now : ℕ) (i : Bytes) (e o : Entry) (s s' : Db)
    → settle_reservation p now i e s ≡ ok (o, s')
    → IsChained p s.ledger
    → IsChained p s'.ledger
settle_reservation-IsChained p now i e o s s' h c =
    elim (settle_reservation-cases p now i e o s s' h) [
      | inl (known, same) ↦ subst (λ t. IsChained p t.ledger) (sym same) c
      | inr (r, first, found, done) ↦
          let (t, appended, same) = settle_first-append_ledger p now r e o s s' done in
          subst (IsChained p) (sym same) (append_ledger-IsChained p now e o s t appended c)
    ]

try_reserve-ledger :
    (s : Db) (r : Reservation) (enforced : Bool) → (try_reserve r enforced s).0.ledger ≡ s.ledger
try_reserve-ledger s r enforced = elim (try_reserve-cases s r enforced) [
  | inl same ↦ ap (λ t. t.ledger) same
  | inr (unresolved, created, checked, clear) ↦
      ap (λ t. t.ledger) (create_reservation_inv r s (try_reserve r enforced s).0 created).0
]

new_agent-ledger :
    (a : Principal) (r : Run) (l : Lease) (s s' : Db)
    → create_principal_run_lease a r l s ≡ ok s'
    → s'.ledger ≡ s.ledger
new_agent-ledger a r l s s' h =
    let (s1, s2, one, two, three) = create_principal_run_lease_inv a r l s s' h in
    ap (λ t. t.ledger) (insert_lease_inv l s2 s' three)
    ∙ ap (λ t. t.ledger) (insert_run_inv r s1 s2 two).0
    ∙ ap (λ t. t.ledger) (insert_principal_inv a s s1 one)

Step-IsChained :
    (p : Platform) {s s' : Db} → Step p s s' → IsChained p s.ledger → IsChained p s'.ledger
unfolding revoke_leases_for_principal expire_pending_reservations
Step-IsChained p {s} {s'} (new_principal a h) c =
    subst (λ t. IsChained p t.ledger)
      (sym (insert_principal_inv a s s' (create_principal_inv a s s' h))) c
Step-IsChained p {s} {s'} (new_agent a r l h) c =
    subst (IsChained p) (sym (new_agent-ledger a r l s s' h)) c
Step-IsChained p {s} {s'} (mode i m h) c =
    subst (λ t. IsChained p t.ledger) (sym (set_principal_mode_inv i m s s' h).1) c
Step-IsChained p {s} {s'} (new_run r h) c =
    subst (λ t. IsChained p t.ledger) (sym (insert_run_inv r s s' (create_run_inv r s s' h)).0) c
Step-IsChained p {s} {s'} (close now i h) c =
    subst (λ t. IsChained p t.ledger) (sym (close_run_inv now i s s' h)) c
Step-IsChained p {s} {s'} (new_lease l h) c =
    subst (λ t. IsChained p t.ledger) (sym (insert_lease_inv l s s' (create_lease_inv l s s' h))) c
Step-IsChained p {s} {s'} (revoke i at h) c =
    subst (λ t. IsChained p t.ledger) (sym (revoke_lease_inv i at s s' h).1) c
Step-IsChained p (kill s i at) c = c
Step-IsChained p (reserve s r) c = subst (IsChained p) (sym (try_reserve-ledger s r true)) c
Step-IsChained p {s} {s'} (resolve i status at h) c =
    subst (λ t. IsChained p t.ledger) (sym (resolve_reservation_inv i status at s s' h).1) c
Step-IsChained p (expire s now) c = c
Step-IsChained p {s} {s'} (settle now i e o h k) c =
    settle_reservation-IsChained p now i e o s s' h c
Step-IsChained p {s} {s'} (event e h) c =
    subst (λ t. IsChained p t.ledger) (sym (record_budget_event_inv e s s' h).1) c

Reach-IsChained :
    (p : Platform) {s t : Db} → Reach p s t → IsChained p s.ledger → IsChained p t.ledger
Reach-IsChained p here c = c
Reach-IsChained p (next r step) c = Step-IsChained p step (Reach-IsChained p r c)

-- For every store that is reached from the empty one by calls of the store's methods, with
-- reservations enforced and each first settlement no dearer than its pending hold, VerifyChain
-- accepts what LedgerEntries reads back without a filter. Direct ledger appends and holds that
-- are created without a decision are not among the calls.
pub reachable_verified :
    (p : Platform) (s : Db)
    → Reach p empty_db s
    → verify_chain p (ledger_entries p.format_time no_filter s) ≡ none
reachable_verified p s r = ledger_entries-verify p s (Reach-IsChained p r (tt, tt))
