-- ===== src/Gateway/Proxy/Enforced.antt =====
-- What an enforced request that is forwarded has left in the store.
use mathlib.Core.Path.{subst}
use spendlease.Base.{
  ℕ, ◌≡◌, sym, ap, ◌∙◌, ◌⊎◌, inl, inr, Bool, true, false, ◌∷◌, none, some, Bytes, arith, Bool-cases,
  sum_cases,
}
use spendlease.Store.{BudgetEvent, Result-cases, is_empty}
use spendlease.Sqlite.Tables.{Db}
use spendlease.Sqlite.Reserve.{try_reserve, record_budget_event}
use spendlease.Sqlite.Budget.Decision.{try_reserve_decides, exceeds}
use spendlease.Sqlite.Budget.Calls.{record_budget_event_inv}
use spendlease.Providers.{Provider, RequestInfo, BillingCapability, no_spend}
use spendlease.Gateway.{Gateway, Recorder, Context}
use spendlease.Gateway.Record.{
  is_enforce, reserve, note_event, new_reservation, budget_event, strictly_unenforceable,
}
use spendlease.Gateway.Proxy.{
  admit, authorize, handle_proxy, is_metered, unmetered_reason, request_info, is_unsupported,
  Request, Body, forward, Forwarded,
}
use spendlease.Gateway.Proxy.Steps.{handle_proxy_cases}

-- What a forwarded request was decided on.
record IsAuthorized (g : Gateway) (id : Bytes) (now : ℕ) (c : Context) (v : Provider) (path : Bytes)
    (billing : BillingCapability) (b : Bytes) (whole : Bool) (s s' : Db) (rc : Recorder)
    (f : Forwarded) : Type 0 where
  target : f.provider ≡ v
  forwarded_path : f.path ≡ path
  info : f.info ≡ request_info v billing b whole
  metered : f.metered ≡ is_metered billing whole (request_info v billing b whole)
  measurable : is_empty (unmetered_reason billing whole (request_info v billing b whole)) ≡ true
  outcome :
      ((f.metered ≡ false) × (s' ≡ s))
      ⊎ ((f.metered ≡ true)
          × (admit rc id now c v.name (request_info v billing b whole) s
              ≡ (s', inr f.reservation_id)))

authorize-IsAuthorized :
    (g : Gateway) (id : Bytes) (now : ℕ) (c : Context) (v : Provider) (path k : Bytes)
    (billing : BillingCapability) (original : Body) (b : Bytes) (whole : Bool) (s s' : Db)
    (rc : Recorder) (f : Forwarded)
    → g.recorder ≡ some rc
    → is_enforce c.principal.mode ≡ true
    → authorize g id now c v path k billing original b whole s ≡ (s', forward f)
    → IsAuthorized g id now c v path billing b whole s s' rc f
unfolding authorize
authorize-IsAuthorized g id now c v path k billing original b whole s s' rc f h m e =
    let info = request_info v billing b whole in
    elim (Bool-cases (is_empty (unmetered_reason billing whole info))) [
      | inr x ↦ absurd (ground (arith, h, e))
      | inl x ↦ elim (Bool-cases (is_metered billing whole info)) [
        | inr y ↦ record {
          target = ground (arith, h, e);
          forwarded_path = ground (arith, h, e);
          info = ground (arith, h, e);
          metered = ground (arith, h, e);
          measurable = x;
          outcome = inl (ground (arith, h, e));
        }
        | inl y ↦ elim (sum_cases (admit rc id now c v.name info s).1) [
          | inl (z, n) ↦ absurd (ground (arith, h, e))
          | inr (z, n) ↦ record {
            target = ground (arith, h, e);
            forwarded_path = ground (arith, h, e);
            info = ground (arith, h, e);
            metered = ground (arith, h, e);
            measurable = x;
            outcome = inr (ground (arith, h, e));
          }
        ]
      ]
    ]

admit-reserve :
    (rc : Recorder) (id : Bytes) (now : ℕ) (c : Context) (name : Bytes) (info : RequestInfo)
    (s s' : Db) (hold : Bytes)
    → is_enforce c.principal.mode ≡ true
    → admit rc id now c name info s ≡ (s', inr hold)
    → (hold ≡ id)
      × (strictly_unenforceable rc now c.principal name info ≡ false)
      × ((reserve rc id now c name info s).0 ≡ s')
      × ((reserve rc id now c name info s).1.allowed ≡ true)
      × ((reserve rc id now c name info s).2 ≡ none)
unfolding admit
admit-reserve rc id now c name info s s' hold m e = ground arith

note_event-reservations :
    (e : BudgetEvent) (s : Db) → (note_event e s).reservations ≡ s.reservations
unfolding note_event
note_event-reservations e s = elim (Result-cases (record_budget_event e s)) [
  | inl (x, h) ↦ ground arith
  | inr (s', h) ↦ ground (arith, record_budget_event_inv e s s' h)
]

-- A reservation that is allowed has inserted its hold, and nothing was exceeded.
reserve-held :
    (rc : Recorder) (id : Bytes) (now : ℕ) (c : Context) (name : Bytes) (info : RequestInfo)
    (s : Db)
    → is_enforce c.principal.mode ≡ true
    → (reserve rc id now c name info s).1.allowed ≡ true
    → (reserve rc id now c name info s).2 ≡ none
    → let h = new_reservation rc id now c name info in
      (exceeds s h ≡ false)
      × ((reserve rc id now c name info s).0.reservations ≡ h ∷ s.reservations)
unfolding reserve
reserve-held rc id now c name info s m a n =
    let h = new_reservation rc id now c name info in
    let t = try_reserve h (is_enforce c.principal.mode) s in
    let decided = try_reserve_decides s h (is_enforce c.principal.mode) (ground arith) in
    let noted = note_event-reservations (budget_event now c name info t.1) t.0 in
    ground (arith, decided, noted)

unmetered-no_spend :
    (billing : BillingCapability) (whole : Bool) (info : RequestInfo)
    → is_unsupported billing.class ≡ false
    → is_empty (unmetered_reason billing whole info) ≡ true
    → is_metered billing whole info ≡ false
    → billing.class ≡ no_spend
unfolding unmetered_reason is_metered
unmetered-no_spend billing whole info u r m = ground (arith, u, r, m)

-- Nothing was held, and the route costs nothing.
abbrev pub IsFree : Request → Db → Db → Forwarded → Type 0
IsFree q s s' f =
    (f.metered ≡ false) × (s' ≡ s) × ((f.provider.billing q.method f.path).class ≡ no_spend)

-- The strict check found nothing, no limit is exceeded, and the hold is the newest row.
abbrev pub IsBacked : Recorder → Bytes → ℕ → Context → Db → Db → Provider → RequestInfo → Type 0
IsBacked rc id now c s s' v info =
    (strictly_unenforceable rc now c.principal v.name info ≡ false)
    × (exceeds s (new_reservation rc id now c v.name info) ≡ false)
    × (s'.reservations ≡ new_reservation rc id now c v.name info ∷ s.reservations)

abbrev pub IsHeld : Recorder → Bytes → ℕ → Context → Db → Db → Forwarded → Type 0
IsHeld rc id now c s s' f =
    (f.metered ≡ true) × (f.reservation_id ≡ id) × IsBacked rc id now c s s' f.provider f.info

authorized_outcome :
    (g : Gateway) (id : Bytes) (now : ℕ) (c : Context) (q : Request) (v : Provider) (path b : Bytes)
    (whole : Bool) (s s' : Db) (rc : Recorder) (f : Forwarded)
    → is_enforce c.principal.mode ≡ true
    → is_unsupported (v.billing q.method path).class ≡ false
    → IsAuthorized g id now c v path (v.billing q.method path) b whole s s' rc f
    → IsFree q s s' f ⊎ IsHeld rc id now c s s' f
authorized_outcome g id now c q v path b whole s s' rc f m u a =
    let info = request_info v (v.billing q.method path) b whole in
    elim a.outcome [
      | inl (unmetered, same) ↦
          let free =
            unmetered-no_spend (v.billing q.method path) whole info u a.measurable
              (sym a.metered ∙ unmetered) in
          inl (
            unmetered,
            same,
            ap (λ w. (w.billing q.method f.path).class) a.target
                ∙ (ap (λ x. (v.billing q.method x).class) a.forwarded_path ∙ free),
          )
      | inr (metered, admitted) ↦
          let (hold, sound, stored, allowed, clean) =
            admit-reserve rc id now c v.name info s s' f.reservation_id m admitted in
          let (fits, held) = reserve-held rc id now c v.name info s m allowed clean in
          let kept = ap (λ t. t.reservations) (sym stored) ∙ held in
          inr (
            metered,
            hold,
            subst (λ w. IsBacked rc id now c s s' w f.info) (sym a.target)
                (subst (λ i. IsBacked rc id now c s s' v i) (sym a.info) (sound, fits, kept)),
          )
    ]

-- A request of a principal in enforce mode that a gateway with a recorder forwards either is not
-- metered, has changed nothing in the store, and goes to a route that costs nothing; or it is
-- metered, the strict check has no objection, the hold of the recorder's estimate exceeds no
-- budget of its chain and no ceiling of its lease, and that pending hold is the newest row of the
-- reservations under the id that the request is settled with.
pub handle_proxy-held :
    (g : Gateway) (id : Bytes) (now : ℕ) (c : Context) (q : Request) (s s' : Db) (rc : Recorder)
    (f : Forwarded)
    → g.recorder ≡ some rc
    → is_enforce c.principal.mode ≡ true
    → handle_proxy g id now c q s ≡ (s', forward f)
    → IsFree q s s' f ⊎ IsHeld rc id now c s s' f
handle_proxy-held g id now c q s s' rc f h m e = elim (handle_proxy_cases g id now c q s) [
  | inl (x, refused) ↦ absurd (ground arith)
  | inr (v, path, k, b, whole, _, good, same) ↦
      authorized_outcome g id now c q v path b whole s s' rc f m (ground arith) (
        authorize-IsAuthorized g id now c v path k (v.billing q.method path) q.payload b whole s s'
          rc f h m (sym same ∙ e))
]
