-- ===== src/Dashboard/Management/Forms.antt =====
-- management.go: the handlers of the forms.
use spendlease.Base.{ℕ, ◌+◌, ◌*◌, not, ◌||◌, List, [], Option, none, some, Bytes, if◌then◌else◌}
use spendlease.Base.Int.{ℤ, pos}
use spendlease.Money.{trim_space}
use spendlease.Store.{
  Principal, Run, Lease, mode_valid, Result, ok, err, StoreError, not_found, conflict, immutable,
  other, is_active, active, Mode,
}
use spendlease.Sqlite.Tables.{Db, get_principal, get_run}
use spendlease.Sqlite.Principals.{create_principal_run_lease, set_principal_mode}
use spendlease.Sqlite.Runs.{create_run, close_run}
use spendlease.Sqlite.Leases.{create_lease}
use spendlease.Gateway.{State}
use spendlease.Gateway.Auth.{kill_lease, revoke_principal}
use spendlease.Dashboard.Management.{
  View, AgentAccess, created_agent, issued_lease, Page, page, Desk, Form, mode_of, valid_agent_name,
  positive_usd, nonnegative_usd, parse_ttl, selected_providers, management_error, build_access,
  render_access,
}

abbrev pub unprocessable : Page
unprocessable = page 422 View.rejected

-- The three rows of an agent.
pub record Agent : Type 0 where
  pub principal : Principal
  pub run : Run
  pub lease : Lease

abbrev pub new_run_of : Desk → Bytes → ℤ → Run
new_run_of d principal budget = record {
  id = d.run_id;
  principal_id = principal;
  parent_run_id = [];
  budget = budget;
  status = active;
  created_at = d.now;
  closed_at = none;
}

abbrev pub new_lease_of : Desk → Bytes → List Bytes → ℤ → ℕ → Lease
new_lease_of d run scope ceiling ttl = record {
  id = d.lease_id;
  run_id = run;
  token_hash = d.token_hash;
  providers = scope;
  ceiling = ceiling;
  expires_at = d.now + ttl * 1000000000;
  revoked_at = none;
  created_at = d.now;
}

abbrev pub agent_of : Desk → Bytes → Mode → ℤ → ℕ → List Bytes → Agent
agent_of d name mode budget ttl scope = record {
  principal = record {
    id = d.principal_id;
    name = name;
    key_hash = d.key_hash;
    mode = mode;
    created_at = d.now;
  };
  run = new_run_of d d.principal_id budget;
  lease = new_lease_of d d.run_id scope (pos 0) ttl;
}

-- The checks of `handleCreateAgent`.
unfoldable pub requested_agent : Desk → Form → Option Agent
unfolding valid_agent_name mode_of positive_usd parse_ttl selected_providers
requested_agent d f =
    let name = trim_space f.name in
    let mode = mode_of (trim_space f.mode) in
    if not (valid_agent_name name) || not (mode_valid mode)
    then none
    else elim (positive_usd f.budget_usd) [
      | none ↦ none
      | some budget ↦ elim (parse_ttl d f.ttl_seconds) [
        | none ↦ none
        | some ttl ↦ elim (selected_providers d f.providers) [
          | none ↦ none
          | some scope ↦ some (agent_of d name mode budget ttl scope)
        ]
      ]
    ]

abbrev pub creation_error : StoreError → Page
creation_error conflict = page 409 View.rejected
creation_error not_found = page 500 View.rejected
creation_error immutable = page 500 View.rejected
creation_error other = page 500 View.rejected

-- A form that cannot be read is `none`.
unfoldable pub handle_create_agent : Desk → Option Form → Db → Db × Page
unfolding requested_agent
handle_create_agent d none s = (s, unprocessable)
handle_create_agent d (some f) s = elim (requested_agent d f) [
  | none ↦ (s, unprocessable)
  | some a ↦ elim (create_principal_run_lease a.principal a.run a.lease s) [
    | err e ↦ (s, creation_error e)
    | ok s' ↦ (s', page 201 (created_agent a.principal.id a.run.id d.token a.lease.expires_at))
  ]
]

unfoldable pub handle_desk_run : (ℕ → Bytes) → Desk → Bytes → Option Form → Db → Db × Page
unfolding positive_usd management_error render_access
handle_desk_run format_time d i none s = (s, render_access format_time d.now i 422 s)
handle_desk_run format_time d i (some f) s = elim (positive_usd f.budget_usd) [
  | none ↦ (s, render_access format_time d.now i 422 s)
  | some budget ↦ elim (get_principal i s) [
    | err e ↦ (s, management_error e)
    | ok _ ↦ elim (create_run (new_run_of d i budget) s) [
      | err e ↦ (s, render_access format_time d.now i 500 s)
      | ok s' ↦ (s', render_access format_time d.now i 200 s')
    ]
  ]
]

-- The checks of `handleIssueLease` after that of the run: lifetime, scope and ceiling.
unfoldable pub desk_lease : Desk → Bytes → Form → Option Lease
unfolding parse_ttl selected_providers nonnegative_usd
desk_lease d run f = elim (parse_ttl d f.ttl_seconds) [
  | none ↦ none
  | some ttl ↦ elim (selected_providers d f.providers) [
    | none ↦ none
    | some scope ↦ elim (nonnegative_usd f.ceiling_usd) [
      | none ↦ none
      | some ceiling ↦ some (new_lease_of d run scope ceiling ttl)
    ]
  ]
]

abbrev pub show_issued : Desk → Lease → Result AgentAccess → Page
show_issued d l (err e) = management_error e
show_issued d l (ok v) = page 201 (issued_lease v d.token l.expires_at)

-- A form that can be read, for a run that was found.
unfoldable pub issue_desk_lease : (ℕ → Bytes) → Desk → Run → Form → Db → Db × Page
unfolding desk_lease render_access build_access management_error
issue_desk_lease format_time d r f s =
    if not (is_active r.status)
    then (s, render_access format_time d.now r.principal_id 409 s)
    else elim (desk_lease d r.id f) [
      | none ↦ (s, render_access format_time d.now r.principal_id 422 s)
      | some l ↦ elim (create_lease l s) [
        | err e ↦ (s, render_access format_time d.now r.principal_id 500 s)
        | ok s' ↦ (s', show_issued d l (build_access format_time d.now r.principal_id s'))
      ]
    ]

unfoldable pub handle_desk_lease : (ℕ → Bytes) → Desk → Bytes → Option Form → Db → Db × Page
unfolding issue_desk_lease render_access management_error
handle_desk_lease format_time d i form s = elim (get_run i s) [
  | err e ↦ (s, management_error e)
  | ok r ↦ elim form [
    | none ↦ (s, render_access format_time d.now r.principal_id 422 s)
    | some f ↦ issue_desk_lease format_time d r f s
  ]
]

unfoldable pub handle_desk_close : (ℕ → Bytes) → Desk → Bytes → Db → Db × Page
unfolding render_access management_error
handle_desk_close format_time d i s = elim (get_run i s) [
  | err e ↦ (s, management_error e)
  | ok r ↦ elim (close_run d.now r.id s) [
    | err e ↦ (s, render_access format_time d.now r.principal_id 500 s)
    | ok s' ↦ (s', render_access format_time d.now r.principal_id 200 s')
  ]
]

abbrev pub show_revoked : (ℕ → Bytes) → Desk → Db → Result Lease → Page
show_revoked format_time d s (err e) = management_error e
show_revoked format_time d s (ok l) = elim (get_run l.run_id s) [
  | err e ↦ management_error e
  | ok r ↦ render_access format_time d.now r.principal_id 200 s
]

unfoldable pub handle_desk_revoke : (ℕ → Bytes) → Desk → Bytes → State → State × Page
unfolding render_access management_error
handle_desk_revoke format_time d i st =
    let (st', revoked) = kill_lease d.now i st in (st', show_revoked format_time d st'.db revoked)

-- `handleSetMode`
unfoldable pub handle_set_mode : Bytes → Form → Db → Db × Page
unfolding mode_of
handle_set_mode i f s =
    let mode = mode_of (trim_space f.mode) in
    if not (mode_valid mode)
    then (s, page 400 View.rejected)
    else elim (set_principal_mode i mode s) [
      | err e ↦ (s, page 500 View.rejected)
      | ok s' ↦ (s', page 200 View.table)
    ]

-- `handleRevoke`
unfoldable pub handle_kill : (ℕ → Bytes) → Desk → Bytes → State → State × Page
handle_kill format_time d i st =
    let (n, st') = revoke_principal format_time d.now i st in (st', page 200 View.table)
