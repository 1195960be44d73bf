-- ===== src/Gateway/Proxy/Refused.antt =====
-- A request that handleProxy refuses holds nothing and charges nothing.
use spendlease.Base.{
  ℕ, ◌≡◌, sym, ◌∙◌, inl, inr, Bool, true, Bytes, arith, Option-cases, not, ◌||◌, sum_cases, is_some,
}
use spendlease.Store.{Reservation, BudgetEvent, Result-cases}
use spendlease.Sqlite.Tables.{Db}
use spendlease.Sqlite.Reserve.{try_reserve, record_budget_event}
use spendlease.Sqlite.Reservations.{create_reservation}
use spendlease.Sqlite.Budget.Calls.{record_budget_event_inv}
use spendlease.Providers.{Provider, RequestInfo, BillingCapability}
use spendlease.Gateway.{Gateway, Recorder, Context, ErrorType}
use spendlease.Gateway.Record.{is_enforce, reserve, note_event, new_reservation, budget_event}
use spendlease.Gateway.Proxy.{admit, authorize, handle_proxy, request_info, Request, Body, refuse}
use spendlease.Gateway.Proxy.Steps.{handle_proxy_cases}

-- Only the table of budget events differs.
abbrev pub IsNoted : Db → Db → Type 0
IsNoted s s' = s' ≡ record s { budget_events = s'.budget_events }

note_event-IsNoted : (e : BudgetEvent) (s : Db) → IsNoted s (note_event e s)
unfolding note_event
note_event-IsNoted e s = elim (Result-cases (record_budget_event e s)) [
  | inl (x, h) ↦ ground arith
  | inr (s', h) ↦ ground (arith, record_budget_event_inv e s s' h)
]

-- A decision that is not an allowed one inserts nothing.
try_reserve_refused :
    (r : Reservation) (enforced : Bool) (s : Db)
    → is_some (try_reserve r enforced s).2 || not (try_reserve r enforced s).1.allowed ≡ true
    → (try_reserve r enforced s).0 ≡ s
unfolding try_reserve
try_reserve_refused r enforced s h = elim (Result-cases (create_reservation r s)) [
  | inl (e, k) ↦ ground arith
  | inr (t, k) ↦ ground arith
]

reserve_refused :
    (rc : Recorder) (id : Bytes) (now : ℕ) (c : Context) (name : Bytes) (info : RequestInfo)
    (s : Db)
    → is_some (reserve rc id now c name info s).2 || not (reserve rc id now c name info s).1.allowed
      ≡ true
    → IsNoted s (reserve rc id now c name info s).0
unfolding reserve
reserve_refused rc id now c name info s h =
    let r = new_reservation rc id now c name info in
    let t = try_reserve r (is_enforce c.principal.mode) s in
    let same = try_reserve_refused r (is_enforce c.principal.mode) s (ground arith) in
    let noted = note_event-IsNoted (budget_event now c name info t.1) t.0 in
    ground (arith, same, noted)

admit_refused :
    (rc : Recorder) (id : Bytes) (now : ℕ) (c : Context) (name : Bytes) (info : RequestInfo)
    (s : Db) (x : ErrorType)
    → (admit rc id now c name info s).1 ≡ inl x
    → IsNoted s (admit rc id now c name info s).0
unfolding admit
admit_refused rc id now c name info s x h = ground (arith, reserve_refused rc id now c name info s)

authorize_refused :
    (g : Gateway) (id : Bytes) (now : ℕ) (c : Context) (v : Provider) (path k : Bytes)
    (billing : BillingCapability) (original : Body) (b : Bytes) (whole : Bool) (s s' : Db)
    (x : ErrorType)
    → authorize g id now c v path k billing original b whole s ≡ (s', refuse x)
    → IsNoted s s'
unfolding authorize
authorize_refused g id now c v path k billing original b whole s s' x h =
    elim (Option-cases g.recorder) [
      | inl n ↦ ground arith
      | inr (rc, n) ↦
          let info = request_info v billing b whole in
          elim (sum_cases (admit rc id now c v.name info s).1) [
            | inr (hold, admitted) ↦ ground arith
            | inl (y, refused) ↦
                let noted = admit_refused rc id now c v.name info s y refused in
                ground (arith, noted)
          ]
    ]

-- An authenticated request that handleProxy refuses, for whatever reason of its own and in
-- whatever mode of the principal, leaves the store that handleProxy was given as it was, but for
-- the table of budget events: handleProxy holds nothing and charges nothing. The refusals of
-- authentication, and the implicit run that authentication may have inserted before, are not part
-- of this.
pub handle_proxy_refused :
    (g : Gateway) (id : Bytes) (now : ℕ) (c : Context) (q : Request) (s s' : Db) (x : ErrorType)
    → handle_proxy g id now c q s ≡ (s', refuse x)
    → IsNoted s s'
handle_proxy_refused g id now c q s s' x h = elim (handle_proxy_cases g id now c q s) [
  | inl (e, refused) ↦ ground arith
  | inr (v, path, k, b, whole, _, _, same) ↦
      authorize_refused g id now c v path k (v.billing q.method path) q.payload b whole s s' x
        (sym same ∙ h)
]
