-- ===== src/Witnesses/Gateway.antt =====
-- The theorems on the gateway, at one agent with a lease, one vendor and one model.
use spendlease.Base.{
  ◌≡◌, ◌⊎◌, refl, inl, inr, true, false, [], ◌∷◌, some, none, Bytes, codes, str_eq, starts_with,
  entry_of,
}
use spendlease.Base.Int.{pos, ◌+ℤ◌, ◌≤ℤ◌, ◌-ℤ◌, ◌*ℤ◌, wrap64}
use spendlease.Money.{trim_space, trim_left, trim_end}
use spendlease.Pricing.{
  cost, cost_at, is_long, total_input, rate, rounded, div_toward_zero, mod_toward_zero,
  reservation_input_tokens, reservation_tokens,
}
use spendlease.Pricing.Book.{
  lookup, lookup_known, newest_price, file_price, by_alias, price_of, rate_or,
}
use spendlease.Providers.{
  Provider, token, no_request_info, RequestInfo, resolve, explicit_prefix, cut_slash,
  provider_named, matching, claims_path, trim_slash, pick,
}
use spendlease.Store.{Run, Lease, Reservation, ok, lease_active, allows_provider, pending}
use spendlease.Sqlite.Tables.{
  Db, empty_db, find_run, find_lease, find_principal, find_reservation, get_run, get_principal,
  get_lease_by_token_hash,
}
use spendlease.Sqlite.Principals.{create_principal, insert_principal}
use spendlease.Sqlite.Runs.{create_run, insert_run}
use spendlease.Sqlite.Leases.{runs_as}
use spendlease.Sqlite.Tree.{subtree, descendants, children, ancestors, ancestors_upto}
use spendlease.Sqlite.Reservations.{create_reservation}
use spendlease.Sqlite.Reserve.{
  try_reserve, check_budgets, check_chain, check_run, check_lease, note_shortfall, remaining_of,
  take_off, new_decision,
}
use spendlease.Sqlite.Usage.{
  spent_under, held_under, sum_costs, sum_amounts, fit_int64, subtree_usage, lease_usage,
  lease_spent, lease_held,
}
use spendlease.Sqlite.Budget.Reach.{new_principal, new_run}
use spendlease.Gateway.{
  Gateway, Recorder, Context, State, Headers, key, strict, header, lease_id_from, unauthenticated,
  spend_not_enforceable,
}
use spendlease.Gateway.Record.{
  reserve, new_reservation, estimate_hold, note_event, strictly_unenforceable,
}
use spendlease.Gateway.Auth.{
  authenticate, authenticate_lease, lease_context, credential_from, bearer_token, bare_token,
  cut_prefix, revoked, revoke_principal, strip_client_credentials, authorization,
}
use spendlease.Gateway.Auth.Killed.{revoke_principal-authenticate}
use spendlease.Gateway.Auth.Sound.{authenticate-IsLeased, IsLeased}
use spendlease.Gateway.Auth.Stripped.{strip_client_credentials-credential_from, is_credential}
use spendlease.Gateway.Proxy.{
  Request, body, handle_proxy, read_request_body, vendor_key_for, authorize, is_metered,
  unmetered_reason, request_info, admit, inject_usage, Forwarded, forward, refuse,
}
use spendlease.Gateway.Proxy.Enforced.{handle_proxy-held, IsFree, IsHeld}
use spendlease.Gateway.Proxy.Refused.{handle_proxy_refused, IsNoted}
use spendlease.Gateway.Proxy.Budgets.{
  GatewayReach, started, runs_on, administers, decides, served_within, fresh_state,
}
use spendlease.Witnesses.{plain, alice, parent_run, with_alice}
use spendlease.Witnesses.Book.{book}

-- A body is the name of its model.
abbrev openai : Provider
openai = record {
  name = codes "openai";
  paths = codes "/v1" ∷ [];
  billing = λ _ _. record { class = token; no_output = false; reason = [] };
  parse_request =
      λ b. record no_request_info { model = b; max_tokens = pos 10; request_bytes = pos 100 };
  usage_from_response = λ _. none;
  usage_from_stream_event = λ _. none;
  enable_stream_usage = λ _. none;
  is_usage_only_event = λ _. false;
}

abbrev pub recorder : Recorder
recorder = record {
  book = book;
  policy = strict;
  default_run_budget = pos 1000000;
  reservation_ttl = 10;
}

abbrev pub gateway : Gateway
gateway = record {
  registry = record { order = openai ∷ []; fallback = openai };
  has_leases = true;
  recorder = some recorder;
  credentials = λ _. key (codes "sk");
}

abbrev run : Run
run = record parent_run { budget = pos 5000000 }

abbrev lease : Lease
lease = record {
  id = codes "l1";
  run_id = codes "r1";
  token_hash = codes "xsll_1";
  providers = [];
  ceiling = pos 0;
  expires_at = 50;
  revoked_at = none;
  created_at = 1;
}

abbrev db : Db
db = record with_alice { runs = run ∷ []; leases = lease ∷ [] }

abbrev pub context : Context
context = record { principal = alice; run_id = codes "r1"; lease = some lease }

abbrev request : Bytes → Request
request model = record {
  method = codes "POST";
  path = codes "/v1/chat";
  headers = [];
  payload = body model;
}

abbrev pub gpt_info : RequestInfo
gpt_info = record no_request_info {
  model = codes "gpt";
  max_tokens = pos 10;
  request_bytes = pos 100;
}

abbrev forwarded : Forwarded
forwarded = record {
  provider = openai;
  path = codes "/v1/chat";
  vendor_key = codes "sk";
  info = gpt_info;
  payload = body (codes "gpt");
  injected = false;
  reservation_id = codes "h7";
  metered = true;
  reason = [];
}

abbrev held : Reservation
held = record {
  id = codes "h7";
  run_id = codes "r1";
  lease_id = codes "l1";
  amount = pos 1144000;
  status = pending;
  expires_at = 18;
  created_at = 8;
  resolved_at = none;
}

abbrev db_held : Db
db_held = record db { reservations = held ∷ [] }

forwards_gpt :
    handle_proxy gateway (codes "h7") 8 context (request (codes "gpt")) db
    ≡ (db_held, forward forwarded)
unfolding handle_proxy resolve explicit_prefix cut_slash provider_named matching claims_path
    trim_slash pick read_request_body vendor_key_for authorize is_metered unmetered_reason
    request_info admit inject_usage reserve new_reservation estimate_hold note_event
    strictly_unenforceable lease_id_from header entry_of str_eq starts_with allows_provider lookup
    lookup_known newest_price file_price by_alias price_of rate_or cost cost_at is_long total_input
    rate rounded div_toward_zero mod_toward_zero reservation_input_tokens reservation_tokens
    try_reserve check_budgets check_chain check_run check_lease note_shortfall remaining_of take_off
    new_decision create_reservation ancestors ancestors_upto find_run find_lease find_principal
    find_reservation subtree_usage lease_usage subtree descendants children sum_costs sum_amounts
    fit_int64 spent_under held_under lease_spent lease_held wrap64 ◌+ℤ◌ ◌-ℤ◌ ◌*ℤ◌
forwards_gpt = refl

refuses_unknown :
    handle_proxy gateway (codes "h7") 8 context (request (codes "zzz")) db
    ≡ (db, refuse spend_not_enforceable)
unfolding handle_proxy resolve explicit_prefix cut_slash provider_named matching claims_path
    trim_slash pick read_request_body vendor_key_for authorize is_metered unmetered_reason
    request_info admit strictly_unenforceable inject_usage header entry_of str_eq starts_with
    allows_provider lookup lookup_known newest_price file_price by_alias
refuses_unknown = refl

handle_proxy-held_example :
    IsFree (request (codes "gpt")) db db_held forwarded
    ⊎ IsHeld recorder (codes "h7") 8 context db db_held forwarded
handle_proxy-held_example =
    handle_proxy-held gateway (codes "h7") 8 context (request (codes "gpt")) db db_held recorder
      forwarded refl refl forwards_gpt

handle_proxy_refused_example : IsNoted db db
handle_proxy_refused_example =
    handle_proxy_refused gateway (codes "h7") 8 context (request (codes "zzz")) db db
      spend_not_enforceable refuses_unknown

creates_alice : create_principal alice empty_db ≡ ok with_alice
unfolding create_principal insert_principal find_principal str_eq
creates_alice = refl

abbrev db_run : Db
db_run = record with_alice { runs = run ∷ [] }

creates_run : create_run run with_alice ≡ ok db_run
unfolding create_run insert_run find_run find_principal str_eq
creates_run = refl

abbrev keyed : Context
keyed = record { principal = alice; run_id = codes "r1"; lease = none }

abbrev state : Db → State
state s = record { db = s; hashes = [] }

abbrev db_decided : Db
db_decided = (handle_proxy gateway (codes "h7") 8 keyed (request (codes "gpt")) db_run).0

served : GatewayReach plain gateway (state db_decided)
served =
    runs_on
      (runs_on
        (runs_on started (administers fresh_state with_alice (new_principal alice creates_alice)))
        (administers (state with_alice) db_run (new_run run creates_run)))
      (decides (state db_run) (codes "h7") 8 keyed (request (codes "gpt")) refl)

served_run : find_run (codes "r1") db_decided.runs ≡ some run
unfolding handle_proxy resolve explicit_prefix cut_slash provider_named matching claims_path
    trim_slash pick read_request_body vendor_key_for authorize is_metered unmetered_reason
    request_info admit inject_usage reserve new_reservation estimate_hold note_event
    strictly_unenforceable lease_id_from header entry_of str_eq starts_with allows_provider lookup
    lookup_known newest_price file_price by_alias price_of rate_or cost cost_at is_long total_input
    rate rounded div_toward_zero mod_toward_zero reservation_input_tokens reservation_tokens
    try_reserve check_budgets check_chain check_run check_lease note_shortfall remaining_of take_off
    new_decision create_reservation ancestors ancestors_upto find_run find_lease find_principal
    find_reservation subtree_usage lease_usage subtree descendants children sum_costs sum_amounts
    fit_int64 spent_under held_under wrap64 ◌+ℤ◌ ◌-ℤ◌ ◌*ℤ◌
served_run = refl

served_within_example :
    (run.budget ≡ pos 0)
    ⊎ (spent_under db_decided (codes "r1") +ℤ held_under db_decided (codes "r1") ≤ℤ run.budget)
served_within_example =
    served_within plain gateway (state db_decided) (codes "r1") run served served_run

abbrev headers : Headers
headers =
    (authorization, codes "Bearer sll_1")
    ∷ (codes "X-Api-Key", codes "mine")
    ∷ (codes "Accept", codes "any")
    ∷ []

presents : credential_from headers ≡ some (codes "sll_1")
unfolding credential_from header entry_of bearer_token bare_token cut_prefix str_eq trim_space
    trim_left trim_end
presents = refl

is_lease_token : starts_with (codes "sll_") (codes "sll_1") ≡ true
unfolding starts_with
is_lease_token = refl

leased : get_lease_by_token_hash (plain.digest (codes "sll_1")) db ≡ ok lease
unfolding get_lease_by_token_hash str_eq
leased = refl

accepted : authenticate plain.digest gateway 8 headers (state db) ≡ (state db, inr context)
unfolding authenticate authenticate_lease lease_context revoked credential_from header entry_of
    bearer_token bare_token cut_prefix str_eq trim_space trim_left trim_end starts_with
    get_lease_by_token_hash get_run get_principal find_run find_principal lease_active
accepted = refl

authenticate-IsLeased_example :
    (state db ≡ state db)
    × (revoked (plain.digest (codes "sll_1")) (state db) ≡ false)
    × IsLeased 8 (plain.digest (codes "sll_1")) db context
authenticate-IsLeased_example =
    authenticate-IsLeased plain.digest gateway 8 headers (codes "sll_1") (state db) (state db)
      context presents is_lease_token accepted

owns_run : runs_as (codes "p1") db.runs (codes "r1") ≡ true
unfolding runs_as str_eq
owns_run = refl

abbrev killed : State
killed = (revoke_principal plain.format_time 8 (codes "p1") (state db)).1

revoke_principal-authenticate_example :
    authenticate plain.digest gateway 9 headers killed ≡ (killed, inl unauthenticated)
revoke_principal-authenticate_example =
    revoke_principal-authenticate plain.digest plain.format_time gateway 8 9 (codes "p1")
      (codes "sll_1") lease headers (state db) leased owns_run presents is_lease_token

not_credential : is_credential (codes "Accept") ≡ false
unfolding str_eq
not_credential = refl

strip_client_credentials-credential_from_example :
    (credential_from (strip_client_credentials headers) ≡ none)
    × (header (codes "Accept") (strip_client_credentials headers) ≡ header (codes "Accept") headers)
strip_client_credentials-credential_from_example =
    strip_client_credentials-credential_from headers (codes "Accept") not_credential
