-- ===== src/Gateway/Record.antt =====
-- record.go: the budget decision before a request, the charge after it, and the run of a principal.
pub mod Covered
use spendlease.Pricing as Prices
use spendlease.Base.{
  ℕ, ◌+◌, Bool, true, false, not, ◌&&◌, ◌||◌, [], ◌∷◌, ◌++◌, Option, none, some, Bytes, codes,
  str_eq, starts_with, ◌==◌, if◌then◌else◌, is_some, ◌⊎◌, inl, inr,
}
use spendlease.Base.Int.{ℤ, pos, leb_ℤ}
use spendlease.Billing.{token_usage}
use spendlease.Ledger.{Platform, Entry}
use spendlease.Pricing.{
  Price, cost, reservation_input_tokens, reservation_tokens, estimate_from_chars, div_toward_zero,
}
use spendlease.Pricing.Book.{Book, lookup, lookup_known}
use spendlease.Pricing.Book.Load.{metadata}
use spendlease.Providers.{RequestInfo, Usage, no_usage, total_input_tokens}
use spendlease.Store.{
  Principal, Run, Reservation, BudgetDecision, BudgetEvent, StoreError, not_found, conflict, Mode,
  enforce, observe, other_mode, active, pending, released, Result, ok, err, is_active, is_empty,
}
use spendlease.Sqlite.Tables.{Db, get_run}
use spendlease.Sqlite.Runs.{create_run}
use spendlease.Sqlite.Reserve.{try_reserve, record_budget_event}
use spendlease.Sqlite.Reservations.{resolve_reservation}
use spendlease.Sqlite.Settle.{settle_reservation}
use spendlease.Sqlite.Append.{append_ledger}
use spendlease.Gateway.{
  Recorder, EnforcementPolicy, strict, best_effort, other_policy, Context, lease_id_from,
}

-- 15 minutes, in nanoseconds.
abbrev pub default_reservation_ttl : ℕ
default_reservation_ttl = 900000000000

abbrev pub is_strict : EnforcementPolicy → Bool
is_strict strict = true
is_strict best_effort = false
is_strict (other_policy _) = false

abbrev pub policy_valid : EnforcementPolicy → Bool
policy_valid strict = true
policy_valid best_effort = true
policy_valid (other_policy _) = false

-- `NewRecorderWithOptions`: what is not valid is replaced by the strict default.
unfoldable pub new_recorder_with_options : Book → ℤ → ℕ → EnforcementPolicy → Recorder
new_recorder_with_options book budget ttl policy = record {
  book = book;
  policy = if policy_valid policy then policy else strict;
  default_run_budget = budget;
  reservation_ttl = if ttl == 0 then default_reservation_ttl else ttl;
}

abbrev pub is_enforce : Mode → Bool
is_enforce enforce = true
is_enforce observe = false
is_enforce (other_mode _) = false

-- Whether `StrictUnenforceableReason` gives a reason.
unfoldable pub strictly_unenforceable : Recorder → ℕ → Principal → Bytes → RequestInfo → Bool
strictly_unenforceable rc now p provider request =
    is_enforce p.mode
    && is_strict rc.policy
    && (not (is_some (lookup_known rc.book provider request.model now))
        || (not request.no_output && leb_ℤ request.max_tokens (pos 0)))

-- The usage that `Reserve` prices: all input at the input rate, and the output ceiling.
abbrev pub hold_usage : RequestInfo → Price → Prices.Usage
hold_usage request price = record {
  input_tokens = reservation_input_tokens request.request_bytes;
  cached_input_tokens = pos 0;
  cache_write_5m_tokens = pos 0;
  cache_write_1h_tokens = pos 0;
  output_tokens = if request.no_output then pos 0 else reservation_tokens request.max_tokens price;
}

-- The upper bound that `Reserve` holds for a request.
unfoldable pub estimate_hold : Recorder → ℕ → Bytes → RequestInfo → ℤ
unfolding lookup
estimate_hold rc now provider request =
    let price = (lookup rc.book provider request.model now).0 in
    cost price (hold_usage request price)

unfoldable pub new_reservation : Recorder → Bytes → ℕ → Context → Bytes → RequestInfo → Reservation
unfolding estimate_hold lease_id_from
new_reservation rc id now c provider request = record {
  id = id;
  run_id = c.run_id;
  lease_id = lease_id_from c;
  amount = estimate_hold rc now provider request;
  status = pending;
  expires_at = now + rc.reservation_ttl;
  created_at = now;
  resolved_at = none;
}

unfoldable pub budget_event : ℕ → Context → Bytes → RequestInfo → BudgetDecision → BudgetEvent
unfolding lease_id_from
budget_event now c provider request d = record {
  principal_id = c.principal.id;
  run_id = d.run_id;
  lease_id = lease_id_from c;
  provider = provider;
  model = request.model;
  enforced = not d.allowed;
  requested = d.requested;
  remaining = d.remaining;
  shortfall = d.shortfall;
  created_at = now;
}

-- A failure to write the event is only logged.
unfoldable pub note_event : BudgetEvent → Db → Db
unfolding record_budget_event
note_event e s = elim (record_budget_event e s) [ err _ ↦ s | ok s' ↦ s' ]

-- `Reserve`: the store after it, the decision and the error. `id` is the fresh identifier.
unfoldable pub reserve :
    Recorder
    → Bytes
    → ℕ
    → Context
    → Bytes
    → RequestInfo
    → Db
    → Db × BudgetDecision × Option StoreError
unfolding new_reservation budget_event note_event
reserve rc id now c provider request s =
    let (s', d, failed) =
      try_reserve (new_reservation rc id now c provider request) (is_enforce c.principal.mode) s in
    elim failed [
      | some e ↦ (s', d, some e)
      | none ↦
          if d.would_block
          then (note_event (budget_event now c provider request d) s', d, none)
          else (s', d, none)
    ]

-- `Release`; every error is only logged.
unfoldable pub release : ℕ → Bytes → Db → Db
release now i s =
    if is_empty i then s else elim (resolve_reservation i released now s) [ err _ ↦ s | ok s' ↦ s' ]

pub record Observation : Type 0 where
  pub context : Context
  pub provider : Bytes
  pub request : RequestInfo
  pub usage : Usage
  pub usage_reported : Bool
  pub complete : Bool
  pub upstream_ok : Bool
  pub reservation_id : Bytes
  pub external_id : Bytes

-- `estimate`: half of the output for a stream that was cut short.
unfoldable pub estimate_usage : Observation → Price → Usage
unfolding estimate_from_chars div_toward_zero
estimate_usage obs price =
    let out = reservation_tokens obs.request.max_tokens price in
    record no_usage {
      input_tokens = estimate_from_chars obs.request.prompt_chars;
      output_tokens = if obs.complete then out else div_toward_zero out 2;
    }

-- The usage that is priced: the vendor's, or the estimate.
unfoldable pub priced_usage : Observation → Price → Usage
unfolding estimate_usage
priced_usage obs price = if obs.usage_reported then obs.usage else estimate_usage obs price

-- The counts in the form that prices take.
abbrev pub priced_counts : Usage → Prices.Usage
priced_counts u = record {
  input_tokens = u.input_tokens;
  cached_input_tokens = u.cached_input_tokens;
  cache_write_5m_tokens = u.cache_write_5m_tokens;
  cache_write_1h_tokens = u.cache_write_1h_tokens;
  output_tokens = u.output_tokens;
}

unfoldable pub cost_of : Price → Usage → ℤ
cost_of price u = cost price (priced_counts u)

-- The entry that is charged. The store fills in its place in the chain.
unfoldable pub charge_entry : Platform → Recorder → ℕ → Observation → Entry
unfolding priced_usage cost_of lookup metadata
charge_entry p rc now obs =
    let (price, known) = lookup rc.book obs.provider obs.request.model now in
    let u = priced_usage obs price in
    record {
      hash_version = 0;
      seq = 0;
      run_id = obs.context.run_id;
      principal_id = obs.context.principal.id;
      provider = obs.provider;
      model = obs.request.model;
      input_tokens = total_input_tokens u;
      output_tokens = u.output_tokens;
      usage =
          token_usage u.input_tokens u.cached_input_tokens u.cache_write_5m_tokens
            u.cache_write_1h_tokens u.output_tokens;
      external_id = obs.external_id;
      pricing_revision = (metadata p.digest rc.book now).revision;
      price_effective = price.effective;
      cost = cost_of price u;
      estimated = not known || not obs.usage_reported || not obs.complete;
      created_at = now;
      prev_hash = [];
      hash = [];
    }

-- The call of the store, settling a hold or appending without one. `at` is the store's own clock.
unfoldable pub store_charge : Platform → ℕ → Bytes → Entry → Db → Result (Entry × Db)
store_charge p at i e s =
    if is_empty i then append_ledger p at e s else settle_reservation p at i e s

-- `Record`, with the check of the gateway's `record` that a run was resolved.
unfoldable pub record_spend : Platform → Recorder → ℕ → ℕ → Observation → Db → Db
unfolding charge_entry store_charge release
record_spend p rc now at obs s =
    if is_empty obs.context.run_id || not obs.upstream_ok
    then s
    else if is_empty obs.request.model
    then release now obs.reservation_id s
    else elim (store_charge p at obs.reservation_id (charge_entry p rc now obs) s) [
      | err e ↦ s
      | ok (sealed, s') ↦ s'
    ]

-- Why a run cannot be charged.
pub data RunError : Type 0 where
  run_store : StoreError → RunError
  other_principal run_closed implicit_run_closed : RunError

abbrev pub run_prefix : Bytes
run_prefix = codes "run_"

abbrev pub principal_prefix : Bytes
principal_prefix = codes "prn_"

-- What is behind the first bytes of `s`, one for each byte of the prefix.
unfoldable pub drop_bytes : Bytes → Bytes → Bytes
drop_bytes [] s = s
drop_bytes (x ∷ xs) [] = []
drop_bytes (x ∷ xs) (c ∷ s) = drop_bytes xs s

-- `strings.TrimPrefix`, the prefix first.
unfoldable pub trim_prefix : Bytes → Bytes → Bytes
unfolding drop_bytes
trim_prefix prefix s = let rest = drop_bytes prefix s in if starts_with prefix s then rest else s

unfoldable pub implicit_run_id : Bytes → Bytes
unfolding trim_prefix
implicit_run_id principal_id = run_prefix ++ trim_prefix principal_prefix principal_id

-- The run that a principal's first request creates.
abbrev pub new_implicit_run : Recorder → ℕ → Principal → Run
new_implicit_run rc now p = record {
  id = implicit_run_id p.id;
  principal_id = p.id;
  parent_run_id = [];
  budget = rc.default_run_budget;
  status = active;
  created_at = now;
  closed_at = none;
}

unfoldable pub implicit_run : Recorder → ℕ → Principal → Db → Db × (RunError ⊎ Bytes)
implicit_run rc now p s =
    let i = implicit_run_id p.id in
    let created = create_run (new_implicit_run rc now p) s in
    elim (get_run i s) [
      | ok r ↦ if is_active r.status then (s, inr i) else (s, inl implicit_run_closed)
      | err not_found ↦ elim created [
        | ok s' ↦ (s', inr i)
        | err conflict ↦ (s, inr i)
        | err e ↦ (s, inl (run_store e))
      ]
      | err e ↦ (s, inl (run_store e))
    ]

unfoldable pub resolve_run : Recorder → ℕ → Principal → Bytes → Db → Db × (RunError ⊎ Bytes)
unfolding implicit_run
resolve_run rc now p requested s = if is_empty requested then implicit_run rc now p s else (
  s,
  elim (get_run requested s) [
    | err e ↦ inl (run_store e)
    | ok r ↦
        if not (str_eq r.principal_id p.id)
        then inl other_principal
        else if not (is_active r.status)
        then inl run_closed
        else inr r.id
  ],
)
