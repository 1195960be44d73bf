-- ===== src/Gateway/Proxy/Steps.antt =====
-- What the handlers do to the store is a sequence of its methods.
use mathlib.Core.Path.{subst}
use spendlease.Base.{
  ℕ, ◌≡◌, refl, sym, ap, ◌∙◌, ◌⊎◌, inl, inr, Bool, true, false, none, some, Bytes, codes, arith,
  Option-cases, sum_cases, Bool-cases, not, ◌&&◌, ◌||◌,
}
use spendlease.Ledger.{Platform, Entry}
use spendlease.Store.{BudgetEvent, ok, Result-cases, released, is_empty}
use spendlease.Sqlite.Tables.{Db}
use spendlease.Sqlite.Reserve.{try_reserve, record_budget_event}
use spendlease.Sqlite.Reservations.{resolve_reservation}
use spendlease.Sqlite.Settle.{settle_reservation}
use spendlease.Sqlite.Budget.Charges.{IsCovered}
use spendlease.Sqlite.Budget.Reach.{Step, Reach, here, next, event, settle}
use spendlease.Sqlite.Budget.Reach
use spendlease.Providers.{Usage, Provider, RequestInfo, BillingCapability, resolve}
use spendlease.Gateway.{
  Gateway, Recorder, Context, ErrorType, header, unknown_route, lease_scope_denied,
  spend_not_enforceable, internal,
}
use spendlease.Gateway.Record.{
  is_enforce, reserve, note_event, release, record_spend, store_charge, charge_entry, Observation,
  new_reservation, budget_event,
}
use spendlease.Gateway.Proxy.{
  request_info, is_unsupported, out_of_scope, vendor_key_for, read_request_body, refuse, admit,
  authorize, handle_proxy, finish, Request, Body, Forwarded, VendorResult, unreachable, failure,
  success, observation,
}

note_event_cases :
    (e : BudgetEvent) (s : Db)
    → (note_event e s ≡ s) ⊎ (record_budget_event e s ≡ ok (note_event e s))
unfolding note_event
note_event_cases e s = elim (Result-cases (record_budget_event e s)) [
  | inl (x, h) ↦ inl (ground arith)
  | inr (s', h) ↦ inr (ground arith)
]

note_event-Reach :
    (p : Platform) (o s : Db) (e : BudgetEvent) → Reach p o s → Reach p o (note_event e s)
note_event-Reach p o s e r = elim (note_event_cases e s) [
  | inl same ↦ subst (Reach p o) (sym same) r
  | inr noted ↦ next r (event e noted)
]

-- A reservation takes the decision of the store, and may note it.
reserve_cases :
    (rc : Recorder) (id : Bytes) (now : ℕ) (c : Context) (name : Bytes) (info : RequestInfo)
    (s : Db)
    → let t = try_reserve (new_reservation rc id now c name info) (is_enforce c.principal.mode) s in
      ((reserve rc id now c name info s).0 ≡ t.0)
      ⊎ ((reserve rc id now c name info s).0 ≡ note_event (budget_event now c name info t.1) t.0)
unfolding reserve
reserve_cases rc id now c name info s = ground arith

reserve-Reach :
    (p : Platform) (o s : Db) (rc : Recorder) (id : Bytes) (now : ℕ) (c : Context) (name : Bytes)
    (info : RequestInfo)
    → is_enforce c.principal.mode ≡ true
    → Reach p o s
    → Reach p o (reserve rc id now c name info s).0
reserve-Reach p o s rc id now c name info m r =
    let h = new_reservation rc id now c name info in
    let decided : Reach p o (try_reserve h (is_enforce c.principal.mode) s).0 =
      subst (λ b. Reach p o (try_reserve h b s).0) (sym m) (next r (Reach.reserve s h)) in
    elim (reserve_cases rc id now c name info s) [
      | inl same ↦ subst (Reach p o) (sym same) decided
      | inr noted ↦ subst (Reach p o) (sym noted) (note_event-Reach p o _ _ decided)
    ]

admit_cases :
    (rc : Recorder) (id : Bytes) (now : ℕ) (c : Context) (name : Bytes) (info : RequestInfo)
    (s : Db)
    → ((admit rc id now c name info s).0 ≡ s)
      ⊎ ((admit rc id now c name info s).0 ≡ (reserve rc id now c name info s).0)
unfolding admit
admit_cases rc id now c name info s = ground arith

pub authorize_cases :
    (g : Gateway) (id : Bytes) (now : ℕ) (c : Context) (v : Provider) (path k : Bytes)
    (billing : BillingCapability) (original : Body) (b : Bytes) (whole : Bool) (s : Db)
    (rc : Recorder)
    → g.recorder ≡ some rc
    → ((authorize g id now c v path k billing original b whole s).0 ≡ s)
      ⊎ ((authorize g id now c v path k billing original b whole s).0
          ≡ (admit rc id now c v.name (request_info v billing b whole) s).0)
unfolding authorize
authorize_cases g id now c v path k billing original b whole s rc h = ground (arith, h)

authorize-none :
    (g : Gateway) (id : Bytes) (now : ℕ) (c : Context) (v : Provider) (path k : Bytes)
    (billing : BillingCapability) (original : Body) (b : Bytes) (whole : Bool) (s : Db)
    → g.recorder ≡ none
    → (authorize g id now c v path k billing original b whole s).0 ≡ s
unfolding authorize
authorize-none g id now c v path k billing original b whole s h = ground (arith, h)

-- A request is refused before the store is asked, or it reaches `authorize`.
pub handle_proxy_cases :
    (g : Gateway) (id : Bytes) (now : ℕ) (c : Context) (r : Request) (s : Db)
    → ((e : ErrorType) × (handle_proxy g id now c r s ≡ (s, refuse e)))
      ⊎ ((v : Provider) × (path k b : Bytes) × (whole : Bool) × (resolve g.registry r.path
              (header (codes "Anthropic-Version") r.headers)
            ≡ some (v, path))
          × (is_unsupported (v.billing r.method path).class && is_enforce c.principal.mode ≡ false)
          × (handle_proxy g id now c r s
              ≡ authorize g id now c v path k (v.billing r.method path) r.payload b whole s))
unfolding handle_proxy
handle_proxy_cases g id now c r s =
    elim (Option-cases (resolve g.registry r.path (header (codes "Anthropic-Version") r.headers))) [
      | inl e ↦ inl (unknown_route, ground arith)
      | inr ((v, path), e) ↦ elim (Bool-cases (out_of_scope c v.name)) [
        | inl out ↦ inl (lease_scope_denied, ground arith)
        | inr within ↦
            elim (Bool-cases
              (is_unsupported (v.billing r.method path).class && is_enforce c.principal.mode)) [
                | inl bad ↦ inl (spend_not_enforceable, ground arith)
                | inr good ↦ elim (sum_cases (vendor_key_for g v.name)) [
                  | inl (x, no_key) ↦ inl (x, ground arith)
                  | inr (k, found) ↦ elim (Option-cases (read_request_body r.payload)) [
                    | inl unread ↦ inl (internal, ground arith)
                    | inr ((b, whole), read) ↦ inr (v, path, k, b, whole, e, good, ground arith)
                  ]
                ]
              ]
      ]
    ]

authorize-Reach :
    (p : Platform) (o s : Db) (g : Gateway) (id : Bytes) (now : ℕ) (c : Context) (v : Provider)
    (path k : Bytes) (billing : BillingCapability) (original : Body) (b : Bytes) (whole : Bool)
    → is_enforce c.principal.mode ≡ true
    → Reach p o s
    → Reach p o (authorize g id now c v path k billing original b whole s).0
authorize-Reach p o s g id now c v path k billing original b whole m r =
    elim (Option-cases g.recorder) [
      | inl h ↦
          subst (Reach p o) (sym (authorize-none g id now c v path k billing original b whole s h))
            r
      | inr (rc, h) ↦ elim (authorize_cases g id now c v path k billing original b whole s rc h) [
        | inl same ↦ subst (Reach p o) (sym same) r
        | inr admitted ↦
            let info = request_info v billing b whole in
            elim (admit_cases rc id now c v.name info s) [
              | inl same ↦ subst (Reach p o) (sym (admitted ∙ same)) r
              | inr reserved ↦
                  subst (Reach p o) (sym (admitted ∙ reserved))
                    (reserve-Reach p o s rc id now c v.name info m r)
            ]
      ]
    ]

pub handle_proxy-Reach :
    (p : Platform) (o s : Db) (g : Gateway) (id : Bytes) (now : ℕ) (c : Context) (q : Request)
    → is_enforce c.principal.mode ≡ true
    → Reach p o s
    → Reach p o (handle_proxy g id now c q s).0
handle_proxy-Reach p o s g id now c q m r = elim (handle_proxy_cases g id now c q s) [
  | inl (e, refused) ↦ subst (Reach p o) (sym (ap (λ x. x.0) refused)) r
  | inr (v, path, k, b, whole, _, _, same) ↦
      subst (Reach p o) (sym (ap (λ x. x.0) same))
        (authorize-Reach p o s g id now c v path k (v.billing q.method path) q.payload b whole m r)
]

release_cases :
    (now : ℕ) (i : Bytes) (s : Db)
    → (release now i s ≡ s) ⊎ (resolve_reservation i released now s ≡ ok (release now i s))
unfolding release
release_cases now i s = elim (Result-cases (resolve_reservation i released now s)) [
  | inl (x, h) ↦ inl (ground arith)
  | inr (s', h) ↦ elim (Bool-cases (is_empty i)) [
    | inl e ↦ inl (ground arith)
    | inr e ↦ inr (ground arith)
  ]
]

release-Reach :
    (p : Platform) (o s : Db) (now : ℕ) (i : Bytes) → Reach p o s → Reach p o (release now i s)
release-Reach p o s now i r = elim (release_cases now i s) [
  | inl same ↦ subst (Reach p o) (sym same) r
  | inr resolved ↦ next r (Step.resolve i released now resolved)
]

record_spend_cases :
    (p : Platform) (rc : Recorder) (now at : ℕ) (obs : Observation) (s : Db)
    → is_empty obs.reservation_id ≡ false
    → (record_spend p rc now at obs s ≡ s)
      ⊎ (record_spend p rc now at obs s ≡ release now obs.reservation_id s)
      ⊎ ((e : Entry) × (settle_reservation p at obs.reservation_id (charge_entry p rc now obs) s
            ≡ ok (e, record_spend p rc now at obs s)))
unfolding record_spend store_charge
record_spend_cases p rc now at obs s n =
    elim (Result-cases (settle_reservation p at obs.reservation_id (charge_entry p rc now obs) s)) [
      | inl (x, h) ↦ ground arith
      | inr ((e, s'), h) ↦ elim (Bool-cases (is_empty obs.context.run_id || not obs.upstream_ok)) [
        | inl a ↦ inl (ground arith)
        | inr a ↦ elim (Bool-cases (is_empty obs.request.model)) [
          | inl b ↦ inr (inl (ground arith))
          | inr b ↦ inr (inr (e, ground arith))
        ]
      ]
    ]

record_spend-Reach :
    (p : Platform) (o s : Db) (rc : Recorder) (now at : ℕ) (obs : Observation)
    → is_empty obs.reservation_id ≡ false
    → IsCovered s obs.reservation_id (charge_entry p rc now obs)
    → Reach p o s
    → Reach p o (record_spend p rc now at obs s)
record_spend-Reach p o s rc now at obs n c r = elim (record_spend_cases p rc now at obs s n) [
  | inl same ↦ subst (Reach p o) (sym same) r
  | inr (inl freed) ↦ subst (Reach p o) (sym freed) (release-Reach p o s now obs.reservation_id r)
  | inr (inr (e, settled)) ↦
      next r (settle at obs.reservation_id (charge_entry p rc now obs) e settled c)
]

-- A success is paid for: the hold covers what is charged, or was charged before.
abbrev pub IsPaid : Platform → Gateway → ℕ → Context → Forwarded → VendorResult → Db → Type 0
IsPaid p g now c f unreachable s = Unit
IsPaid p g now c f failure s = Unit
IsPaid p g now c f (success usage reported complete external) s =
    (rc : Recorder)
    → g.recorder ≡ some rc
    → f.metered ≡ true
    → (is_empty f.reservation_id ≡ false)
      × IsCovered s f.reservation_id
          (charge_entry p rc now (observation c f usage reported complete external))

finish_cases :
    (p : Platform) (g : Gateway) (now at : ℕ) (c : Context) (f : Forwarded) (result : VendorResult)
    (s : Db) (rc : Recorder)
    → g.recorder ≡ some rc
    → (finish p g now at c f result s ≡ s)
      ⊎ (finish p g now at c f result s ≡ release now f.reservation_id s)
      ⊎ ((u : Usage) × (reported complete : Bool) × (external : Bytes) × (result
            ≡ success u reported complete external)
          × (f.metered ≡ true)
          × (finish p g now at c f result s
              ≡ record_spend p rc now at (observation c f u reported complete external) s))
unfolding finish
finish_cases p g now at c f unreachable s rc h = inr (inl (ground (arith, h)))
finish_cases p g now at c f failure s rc h = ground (arith, h)
finish_cases p g now at c f (success u reported complete external) s rc h =
    elim (Bool-cases f.metered) [
      | inl m ↦ inr (inr (u, reported, complete, external, refl, m, ground (arith, h)))
      | inr m ↦ inl (ground (arith, h))
    ]

finish-none :
    (p : Platform) (g : Gateway) (now at : ℕ) (c : Context) (f : Forwarded) (result : VendorResult)
    (s : Db)
    → g.recorder ≡ none
    → finish p g now at c f result s ≡ s
unfolding finish
finish-none p g now at c f result s h = ground (arith, h)

pub finish-Reach :
    (p : Platform) (o s : Db) (g : Gateway) (now at : ℕ) (c : Context) (f : Forwarded)
    (result : VendorResult)
    → IsPaid p g now c f result s
    → Reach p o s
    → Reach p o (finish p g now at c f result s)
finish-Reach p o s g now at c f result paid r = elim (Option-cases g.recorder) [
  | inl h ↦ subst (Reach p o) (sym (finish-none p g now at c f result s h)) r
  | inr (rc, h) ↦ elim (finish_cases p g now at c f result s rc h) [
    | inl same ↦ subst (Reach p o) (sym same) r
    | inr (inl freed) ↦ subst (Reach p o) (sym freed) (release-Reach p o s now f.reservation_id r)
    | inr (inr (u, reported, complete, external, e, m, charged)) ↦
        let (held, covered) = subst (λ x. IsPaid p g now c f x s) e paid rc h m in
        subst (Reach p o) (sym charged) (
          record_spend-Reach p o s rc now at (observation c f u reported complete external) held
            covered r)
  ]
]
