-- ===== src/Controlplane/Handlers.antt =====
-- controlplane.go: one function for each endpoint, the routes with their roles, and a request from its
-- guard to its response. What is drawn at random and the clock are part of a call.
use spendlease.Base.{
  ℕ, suc, ◌*◌, ◌+◌, not, ◌||◌, List, [], ◌∷◌, Option, none, some, Bytes, codes, str_eq, to_lower,
  map, length, inl, inr, if◌then◌else◌,
}
use spendlease.Base.Int.{ℤ, pos, pos_part, ltb_ℤ}
use spendlease.Money.{trim_space}
use spendlease.Operator.{Role, viewer, operator, admin, Identity, AuditRecord}
use spendlease.Ledger.{Platform, Entry, verify_chain, genesis_hash}
use spendlease.Store.{Run, Lease, Result, ok, err, ◌>>=◌, is_empty, is_active, active}
use spendlease.Sqlite.Tables.{Db, get_principal, get_run}
use spendlease.Sqlite.Runs.{create_run, close_run}
use spendlease.Sqlite.Leases.{create_lease}
use spendlease.Sqlite.Reserve.{budget_status}
use spendlease.Sqlite.Append.{LedgerFilter, ledger_entries}
use spendlease.Sqlite.Operators.{
  OperatorDb, get_operator_by_token_hash, has_active_operators, append_operator_audit,
  list_operator_audit,
}
use spendlease.Sqlite.Queries.{list_runs_by_principal, list_leases_by_run}
use spendlease.Gateway.{State}
use spendlease.Gateway.Auth.{kill_lease}
use spendlease.Dashboard.{Net, AdminRequest, Fresh, OperatorSource, Guard, Response, protect_role}
use spendlease.Controlplane.{
  ControlState, ApiResponse, failure, success, response_status, store_error, invalid_request, Body,
  decode_json, parse_nonnegative_usd, normalize_providers, default_string, lease_ttl,
  CreateRunRequest, IssueLeaseRequest, run_response, lease_response, budget_response, run_view,
  run_views, budget_view, lease_view, lease_views, ledger_ok, ledger_json, ledger_csv,
  audit_records,
}

-- The query parameters of the audit trail, and those of an export.
pub record AuditQuery : Type 0 where
  pub actor_id : Bytes
  pub action : Bytes
  pub limit : Bytes
  pub since : Bytes

pub record LedgerQuery : Type 0 where
  pub run_id : Bytes
  pub principal_id : Bytes
  pub since : Bytes
  pub format : Bytes

-- `strconv.Atoi`, and `time.Parse` of an RFC 3339 text.
pub record Texts : Type 0 where
  pub atoi : Bytes → Option ℤ
  pub parse_time : Bytes → Option ℕ

pub data ApiCall : Type 0 where
  list_runs : Bytes → ApiCall
  new_run : Bytes → Body CreateRunRequest → Bytes → ℕ → ApiCall
  show_run : Bytes → ApiCall
  end_run : Bytes → ℕ → ApiCall
  show_budget : Bytes → ApiCall
  list_leases : Bytes → ℕ → ApiCall
  new_lease : Bytes → Body IssueLeaseRequest → Bytes → Bytes → Bytes → ℕ → ApiCall
  end_lease : Bytes → ℕ → ApiCall
  verify : ApiCall
  export : LedgerQuery → ApiCall
  audit_trail : AuditQuery → ApiCall

-- The roles of `Routes`.
unfoldable pub required_role : ApiCall → Role
required_role (list_runs p) = viewer
required_role (new_run p b i now) = operator
required_role (show_run i) = viewer
required_role (end_run i now) = operator
required_role (show_budget i) = viewer
required_role (list_leases i now) = viewer
required_role (new_lease i b l t h now) = operator
required_role (end_lease i now) = operator
required_role verify = viewer
required_role (export q) = viewer
required_role (audit_trail q) = admin

-- A query parameter that may be left out.
abbrev pub optional_time : Texts → Bytes → Option ℕ
optional_time t raw = if is_empty (trim_space raw) then some 0 else t.parse_time (trim_space raw)

abbrev pub in_limits : ℤ → Option ℕ
in_limits n = if ltb_ℤ n (pos 1) || ltb_ℤ (pos 1000) n then none else some (pos_part n)

abbrev pub audit_limit : Texts → Bytes → Option ℕ
audit_limit t raw =
    if is_empty (trim_space raw)
    then some 100
    else elim (t.atoi (trim_space raw)) [ none ↦ none | some n ↦ in_limits n ]

-- The run of a request to create one.
abbrev pub requested_run : Bytes → CreateRunRequest → ℤ → Bytes → ℕ → Run
requested_run p input budget i now = record {
  id = i;
  principal_id = p;
  parent_run_id = trim_space input.parent_run_id;
  budget = budget;
  status = active;
  created_at = now;
  closed_at = none;
}

unfoldable pub handle_create_run : Bytes → Body CreateRunRequest → Bytes → ℕ → Db → Db × ApiResponse
unfolding decode_json parse_nonnegative_usd store_error run_response
handle_create_run p body i now s = elim (get_principal p s) [
  | err e ↦ (s, store_error e)
  | ok _ ↦ elim (decode_json body) [
    | inl refusal ↦ (s, refusal)
    | inr input ↦ elim (parse_nonnegative_usd input.budget_usd) [
      | none ↦ (s, invalid_request)
      | some budget ↦ elim (create_run (requested_run p input budget i now) s) [
        | err e ↦ (s, store_error e)
        | ok s' ↦ (s', success 201 (run_view (run_response (requested_run p input budget i now))))
      ]
    ]
  ]
]

unfoldable pub handle_close_run : Bytes → ℕ → Db → Db × ApiResponse
unfolding store_error run_response
handle_close_run i now s = elim (close_run now i s) [
  | err e ↦ (s, store_error e)
  | ok s' ↦ elim (get_run i s') [
    | err e ↦ (s', store_error e)
    | ok r ↦ (s', success 200 (run_view (run_response r)))
  ]
]

-- The lease of a request to issue one.
abbrev pub requested_lease : Run → List Bytes → ℤ → ℕ → Bytes → Bytes → ℕ → Lease
requested_lease r scope ceiling ttl l hash now = record {
  id = l;
  run_id = r.id;
  token_hash = hash;
  providers = scope;
  ceiling = ceiling;
  expires_at = now + ttl * 1000000000;
  revoked_at = none;
  created_at = now;
}

-- What a decoded request asks for: the lifetime, the ceiling and the scope, checked in this order.
unfoldable pub lease_terms : IssueLeaseRequest → Option (ℕ × ℤ × List Bytes)
unfolding lease_ttl parse_nonnegative_usd normalize_providers default_string
lease_terms input = elim (lease_ttl input.ttl_seconds) [
  | none ↦ none
  | some ttl ↦ elim (parse_nonnegative_usd (default_string input.ceiling_usd (codes "0"))) [
    | none ↦ none
    | some ceiling ↦ elim (normalize_providers input.providers) [
      | none ↦ none
      | some scope ↦ some (ttl, ceiling, scope)
    ]
  ]
]

unfoldable pub handle_issue_lease :
    Bytes → Body IssueLeaseRequest → Bytes → Bytes → Bytes → ℕ → Db → Db × ApiResponse
unfolding decode_json lease_terms store_error lease_response
handle_issue_lease i body l token hash now s = elim (get_run i s) [
  | err e ↦ (s, store_error e)
  | ok r ↦
      if not (is_active r.status)
      then (s, failure 409 (codes "run_closed"))
      else elim (decode_json body) [
        | inl refusal ↦ (s, refusal)
        | inr input ↦ elim (lease_terms input) [
          | none ↦ (s, invalid_request)
          | some (ttl, ceiling, scope) ↦
              let lease = requested_lease r scope ceiling ttl l hash now in
              elim (create_lease lease s) [
                | err e ↦ (s, store_error e)
                | ok s' ↦ (
                  s',
                  success 201 (lease_view (record (lease_response lease now) { token = token })),
                )
              ]
        ]
      ]
]

unfoldable pub handle_revoke_lease : Bytes → ℕ → State → State × ApiResponse
unfolding store_error lease_response
handle_revoke_lease i now st =
    let (st', revoked) = kill_lease now i st in
    (
      st',
      elim revoked [
        | err e ↦ store_error e
        | ok l ↦ success 200 (lease_view (lease_response l now))
      ],
    )

unfoldable pub handle_list_runs : (ℕ → Bytes) → Bytes → Db → ApiResponse
unfolding store_error run_response
handle_list_runs format_time p s = elim (get_principal p s) [
  | err e ↦ store_error e
  | ok _ ↦ success 200 (run_views (map run_response (list_runs_by_principal format_time p s)))
]

unfoldable pub handle_get_run : Bytes → Db → ApiResponse
unfolding store_error run_response
handle_get_run i s = elim (get_run i s) [
  | err e ↦ store_error e
  | ok r ↦ success 200 (run_view (run_response r))
]

unfoldable pub handle_get_budget : Bytes → Db → ApiResponse
unfolding store_error budget_response
handle_get_budget i s = elim (budget_status i s) [
  | err e ↦ store_error e
  | ok b ↦ success 200 (budget_view (budget_response b))
]

unfoldable pub handle_list_leases : (ℕ → Bytes) → Bytes → ℕ → Db → ApiResponse
unfolding store_error lease_response
handle_list_leases format_time i now s = elim (get_run i s) [
  | err e ↦ store_error e
  | ok _ ↦
      success 200
        (lease_views (map (λ l. lease_response l now) (list_leases_by_run format_time i s)))
]

-- The entry at the end.
unfoldable pub last_entry : Entry → List Entry → Entry
last_entry e [] = e
last_entry e (f ∷ es) = last_entry f es

abbrev pub head_response : List Entry → ApiResponse
head_response [] = success 200 (ledger_ok 0 genesis_hash none)
head_response (e ∷ es) =
    let last = last_entry e es in
    success 200 (ledger_ok (suc (length es)) last.hash (some last.seq))

abbrev pub whole_ledger : LedgerFilter
whole_ledger = record { run_id = []; principal_id = []; since = 0; limit = 0 }

unfoldable pub handle_verify_ledger : Platform → Db → ApiResponse
unfolding last_entry
handle_verify_ledger p s =
    let entries = ledger_entries p.format_time whole_ledger s in
    elim (verify_chain p entries) [
      | some broken ↦ failure 409 (codes "ledger_invalid")
      | none ↦ head_response entries
    ]

unfoldable pub handle_export_ledger : Platform → Texts → LedgerQuery → Db → ApiResponse
handle_export_ledger p t q s = elim (optional_time t q.since) [
  | none ↦ invalid_request
  | some since ↦
      let entries =
        ledger_entries p.format_time
          (record {
            run_id = trim_space q.run_id;
            principal_id = trim_space q.principal_id;
            since = since;
            limit = 0;
          })
          s in
      let format = to_lower (trim_space q.format) in
      if is_empty format || str_eq format (codes "json")
      then success 200 (ledger_json entries)
      else if str_eq format (codes "csv")
      then success 200 (ledger_csv entries)
      else invalid_request
]

unfoldable pub handle_list_audit : Platform → Texts → AuditQuery → OperatorDb → ApiResponse
handle_list_audit p t q o = elim (audit_limit t q.limit) [
  | none ↦ invalid_request
  | some limit ↦ elim (optional_time t q.since) [
    | none ↦ invalid_request
    | some since ↦ success 200 (
        audit_records (
          list_operator_audit p.format_time
            (record {
              actor_id = trim_space q.actor_id;
              action = trim_space q.action;
              since = since;
              limit = limit;
            })
            o))
  ]
]

abbrev pub with_db : State → Db × ApiResponse → State × ApiResponse
with_db st (s, response) = (record st { db = s }, response)

-- The handler of a route.
unfoldable pub respond : Platform → Texts → ApiCall → OperatorDb → State → State × ApiResponse
respond p t (list_runs i) o st = (st, handle_list_runs p.format_time i st.db)
respond p t (new_run i b r now) o st = with_db st (handle_create_run i b r now st.db)
respond p t (show_run i) o st = (st, handle_get_run i st.db)
respond p t (end_run i now) o st = with_db st (handle_close_run i now st.db)
respond p t (show_budget i) o st = (st, handle_get_budget i st.db)
respond p t (list_leases i now) o st = (st, handle_list_leases p.format_time i now st.db)
respond p t (new_lease i b l token hash now) o st =
    with_db st (handle_issue_lease i b l token hash now st.db)
respond p t (end_lease i now) o st = handle_revoke_lease i now st
respond p t verify o st = (st, handle_verify_ledger p st.db)
respond p t (export q) o st = (st, handle_export_ledger p t q st.db)
respond p t (audit_trail q) o st = (st, handle_list_audit p t q o)

abbrev pub operator_source : OperatorSource ControlState
operator_source = record {
  get_operator_by_token_hash = λ h s. get_operator_by_token_hash h s.operators;
  has_active_operators = λ s. ok (has_active_operators s.operators);
}

abbrev pub append_audit : AuditRecord → ControlState → Result ControlState
append_audit a s = append_operator_audit a s.operators >>= λ o. ok (record s { operators = o })

-- The guard that the server is started with: operators and audit trail are those of the store.
abbrev pub api_guard : Bytes → Guard ControlState
api_guard token = record {
  token = token;
  operators = some operator_source;
  auditor = some append_audit;
}

abbrev pub api_handler : Platform → Texts → ApiCall → Identity → ControlState → ControlState × ℕ
api_handler p t call i s =
    let (st, response) = respond p t call s.operators s.gateway in
    (record s { gateway = st }, response_status response)

-- A request of the API.
unfoldable pub serve_api :
    Platform
    → Texts
    → Net
    → Bytes
    → ApiCall
    → Fresh
    → AdminRequest
    → ControlState
    → ControlState × Response
serve_api p t net token call f r s =
    protect_role net (api_guard token) (required_role call) f r (api_handler p t call) s

-- The method in the pattern of the route.
unfoldable pub route_method : ApiCall → Bytes
route_method (list_runs i) = codes "GET"
route_method (new_run i b r now) = codes "POST"
route_method (show_run i) = codes "GET"
route_method (end_run i now) = codes "POST"
route_method (show_budget i) = codes "GET"
route_method (list_leases i now) = codes "GET"
route_method (new_lease i b l token hash now) = codes "POST"
route_method (end_lease i now) = codes "POST"
route_method verify = codes "GET"
route_method (export q) = codes "GET"
route_method (audit_trail q) = codes "GET"
