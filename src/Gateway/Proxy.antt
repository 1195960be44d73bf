-- ===== src/Gateway/Proxy.antt =====
-- proxy.go: the decision to forward a request, and what its end does to the hold.
pub mod Enforced
pub mod Steps
pub mod Budgets
pub mod Refused
use spendlease.Base.{
  ℕ, zero, suc, leb, ◌+◌, ◌*◌, ◌≡◌, refl, Bool, true, false, not, ◌&&◌, ◌||◌, List, [], ◌∷◌, ◌++◌,
  Option, none, some, Bytes, codes, str_eq, starts_with, to_lower, ltb, ◌==◌, if◌then◌else◌, length,
  is_some, ◌⊎◌, inl, inr,
}
use spendlease.Ledger.{Platform}
use spendlease.Money.{trim_space}
use spendlease.Providers.{
  Provider, BillingCapability, BillingClass, token, no_spend, unsupported, RequestInfo,
  no_request_info, Usage, resolve, Registry,
}
use spendlease.Store.{Principal, Lease, allows_provider, is_empty, BudgetDecision, StoreError}
use spendlease.Sqlite.Tables.{Db}
use spendlease.Gateway.{
  Gateway, Recorder, Context, Headers, header, VaultResult, key, missing, undecryptable, failed,
  ErrorType, unknown_route, lease_scope_denied, spend_not_enforceable, no_credential, internal,
  budget_exceeded,
}
use spendlease.Gateway.Record.{
  is_enforce, strictly_unenforceable, reserve, release, record_spend, Observation,
}

-- The body of a request: none, one that fails while it is read, or its bytes.
pub data Body : Type 0 where
  no_body unreadable : Body
  body : Bytes → Body

pub record Request : Type 0 where
  pub method : Bytes
  pub path : Bytes
  pub headers : Headers
  pub payload : Body

-- 8 MiB
abbrev pub max_request_body : ℕ
max_request_body = 8388608

-- `readRequestBody`: the bytes to inspect, and whether they are the whole body.
unfoldable pub read_request_body : Body → Option (Bytes × Bool)
read_request_body no_body = some ([], true)
read_request_body unreadable = none
read_request_body (body b) =
    if ltb max_request_body (length b) then some ([], false) else some (b, true)

-- `vendorKeyFor`
unfoldable pub vendor_key_for : Gateway → Bytes → ErrorType ⊎ Bytes
vendor_key_for g name = elim (g.credentials name) [
  | key k ↦ inr k
  | missing ↦ inl no_credential
  | undecryptable ↦ inl no_credential
  | failed ↦ inl internal
]

abbrev pub is_token : BillingClass → Bool
is_token token = true
is_token no_spend = false
is_token unsupported = false

abbrev pub is_unsupported : BillingClass → Bool
is_unsupported unsupported = true
is_unsupported token = false
is_unsupported no_spend = false

unfoldable pub is_metered : BillingCapability → Bool → RequestInfo → Bool
is_metered billing inspectable info =
    is_token billing.class
    && inspectable
    && not (is_empty info.model)
    && is_empty info.unsupported_billing

unfoldable pub unmetered_reason : BillingCapability → Bool → RequestInfo → Bytes
unmetered_reason billing inspectable info =
    if is_unsupported billing.class
    then billing.reason
    else if is_token billing.class && not inspectable
    then codes "the request body is larger than the inspection limit"
    else if is_token billing.class && is_empty info.model
    then codes "the request body is not valid, inspectable JSON with a model"
    else info.unsupported_billing

unfoldable pub request_info : Provider → BillingCapability → Bytes → Bool → RequestInfo
request_info provider billing b inspectable =
    let parsed = if inspectable then provider.parse_request b else no_request_info in
    record parsed { no_output = billing.no_output }

-- The strict check and the reservation: the id of the hold, empty where observe mode goes on
-- without one.
unfoldable pub admit :
    Recorder → Bytes → ℕ → Context → Bytes → RequestInfo → Db → Db × (ErrorType ⊎ Bytes)
unfolding reserve strictly_unenforceable
admit rc id now c provider info s =
    let (s', d, error) = reserve rc id now c provider info s in
    if strictly_unenforceable rc now c.principal provider info
    then (s, inl spend_not_enforceable)
    else elim error [
      | some _ ↦ (s', if is_enforce c.principal.mode then inl internal else inr [])
      | none ↦ (s', if d.allowed then inr id else inl budget_exceeded)
    ]

pub record Forwarded : Type 0 where
  pub provider : Provider
  pub path : Bytes
  pub vendor_key : Bytes
  pub info : RequestInfo
  pub payload : Body
  pub injected : Bool
  pub reservation_id : Bytes
  pub metered : Bool
  pub reason : Bytes

pub data Answer : Type 0 where
  refuse : ErrorType → Answer
  forward : Forwarded → Answer

-- The body that is sent, and whether usage reporting was added to it.
unfoldable pub inject_usage : Provider → Bool → RequestInfo → Bytes → Body → Body × Bool
inject_usage provider metered info b original =
    if metered && info.stream && not info.wants_usage && not (length b == 0)
    then elim (provider.enable_stream_usage b) [
      | none ↦ (original, false)
      | some modified ↦ (body modified, true)
    ]
    else (original, false)

-- From the measured body on: refuse what cannot be enforced, reserve, and forward.
unfoldable pub authorize :
    Gateway
    → Bytes
    → ℕ
    → Context
    → Provider
    → Bytes
    → Bytes
    → BillingCapability
    → Body
    → Bytes
    → Bool
    → Db
    → Db × Answer
unfolding is_metered unmetered_reason request_info admit inject_usage
authorize g id now c provider path vendor_key billing original b inspectable s =
    let info = request_info provider billing b inspectable in
    let metered = is_metered billing inspectable info in
    let reason = unmetered_reason billing inspectable info in
    let (sent, injected) = inject_usage provider metered info b original in
    let forwarded : Bytes → Answer = λ hold. forward (record {
      provider = provider;
      path = path;
      vendor_key = vendor_key;
      info = info;
      payload = sent;
      injected = injected;
      reservation_id = hold;
      metered = metered;
      reason = reason;
    }) in
    if not (is_empty reason) && is_enforce c.principal.mode
    then (s, refuse spend_not_enforceable)
    else elim g.recorder [
      | none ↦ (s, forwarded [])
      | some rc ↦
          if not metered
          then (s, forwarded [])
          else let (s', admitted) = admit rc id now c provider.name info s in
            (s', elim admitted [ inl e ↦ refuse e | inr hold ↦ forwarded hold ])
    ]

-- A lease that is scoped to other providers.
abbrev pub out_of_scope : Context → Bytes → Bool
out_of_scope c name = elim c.lease [ none ↦ false | some l ↦ not (allows_provider l name) ]

-- `handleProxy`, up to the call of the vendor. `id` is the fresh identifier of a hold.
unfoldable pub handle_proxy : Gateway → Bytes → ℕ → Context → Request → Db → Db × Answer
unfolding read_request_body vendor_key_for authorize
handle_proxy g id now c r s =
    elim (resolve g.registry r.path (header (codes "Anthropic-Version") r.headers)) [
      | none ↦ (s, refuse unknown_route)
      | some (provider, path) ↦
          let billing = provider.billing r.method path in
          if out_of_scope c provider.name
          then (s, refuse lease_scope_denied)
          else if is_unsupported billing.class && is_enforce c.principal.mode
          then (s, refuse spend_not_enforceable)
          else elim (vendor_key_for g provider.name) [
            | inl e ↦ (s, refuse e)
            | inr k ↦ elim (read_request_body r.payload) [
              | none ↦ (s, refuse internal)
              | some (b, inspectable) ↦
                  authorize g id now c provider path k billing r.payload b inspectable s
            ]
          ]
    ]

-- How the call of the vendor ends: without a response, with one that is no success, or with one
-- whose body is then observed.
pub data VendorResult : Type 0 where
  unreachable failure : VendorResult
  success : Usage → Bool → Bool → Bytes → VendorResult

-- What `onDone` hands to the recorder.
abbrev pub observation : Context → Forwarded → Usage → Bool → Bool → Bytes → Observation
observation c f usage reported complete external = record {
  context = c;
  provider = f.provider.name;
  request = f.info;
  usage = usage;
  usage_reported = reported;
  complete = complete;
  upstream_ok = true;
  reservation_id = f.reservation_id;
  external_id = external;
}

-- ErrorHandler, and the hook of `observeResponse` with its `onDone`.
unfoldable pub finish : Platform → Gateway → ℕ → ℕ → Context → Forwarded → VendorResult → Db → Db
unfolding release record_spend
finish p g now at c f result s = elim g.recorder [
  | none ↦ s
  | some rc ↦ elim result [
    | unreachable ↦ release now f.reservation_id s
    | failure ↦ if f.metered then release now f.reservation_id s else s
    | success usage reported complete external ↦
        if f.metered
        then record_spend p rc now at (observation c f usage reported complete external) s
        else s
  ]
]

abbrev pub take_bytes : ℕ → Bytes → Bytes
take_bytes zero s = []
take_bytes (suc n) [] = []
take_bytes (suc n) (c ∷ s) = c ∷ take_bytes n s

unfoldable pub is_event_stream : Bytes → Bool
is_event_stream content_type =
    starts_with (codes "text/event-stream") (trim_space (to_lower content_type))

-- The request identifiers that vendors send, in the order in which they are looked for.
abbrev request_id_headers : List Bytes
request_id_headers =
    codes "X-Request-Id"
    ∷ codes "Request-Id"
    ∷ codes "X-Goog-Request-Id"
    ∷ codes "X-Amzn-Requestid"
    ∷ []

unfoldable pub first_header : List Bytes → Headers → Bytes
unfolding header
first_header [] h = []
first_header (n ∷ ns) h =
    let later = first_header ns h in
    if is_empty (trim_space (header n h)) then later else trim_space (header n h)

unfoldable pub upstream_request_id : Headers → Bytes
unfolding first_header
upstream_request_id h = take_bytes 256 (first_header request_id_headers h)
