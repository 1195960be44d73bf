-- ===== src/Dashboard.antt =====
-- internal/dashboard/auth.go: the guard in front of the dashboard and of the control plane. The state
-- that operators, audit trail and handlers share is a type `S`; the guard's interfaces are records of
-- functions on it, and a handler returns the new state and the status of its response.
pub mod Guarded
pub mod Management
use spendlease.Base.{
  ℕ, ◌≡◌, Bool, true, false, not, ◌&&◌, ◌||◌, List, [], ◌∷◌, ◌++◌, Option, none, some, Bytes, codes,
  str_eq, ltb, ◌==◌, if◌then◌else◌, length, to_lower, ◌⊎◌, inl, inr,
}
use spendlease.Money.{trim_space, trim_end}
use spendlease.Operator.{
  Role, viewer, admin, allows, Identity, Operator, is_enabled, AuditRecord, looks_like_token,
}
use spendlease.Store.{Result, ok, err, not_found, is_empty, StoreError, conflict, immutable, other}
use spendlease.Gateway.{Headers, header}
use spendlease.Gateway.Auth.{authorization, cut_prefix}

-- Functions of the standard library: SplitHostPort (the host), ParseIP with IsLoopback, url.Parse
-- (the host), BasicAuth, and SHA-256 in hexadecimal.
pub record Net : Type 0 where
  pub split_host_port : Bytes → Option Bytes
  pub is_loopback_ip : Bytes → Bool
  pub url_host : Bytes → Option Bytes
  pub basic_auth : Headers → Option (Bytes × Bytes)
  pub hash_token : Bytes → Bytes

pub record AdminRequest : Type 0 where
  pub method : Bytes
  pub pattern : Bytes
  pub path : Bytes
  pub request_uri : Bytes
  pub host : Bytes
  pub remote_addr : Bytes
  pub headers : Headers

-- The identifiers and instants that one audited mutation draws.
pub record Fresh : Type 0 where
  pub request_id : Bytes
  pub attempt_id : Bytes
  pub result_id : Bytes
  pub attempt_at : ℕ
  pub result_at : ℕ

pub record OperatorSource (S : Type 0) : Type 0 where
  pub get_operator_by_token_hash : Bytes → S → Result Operator
  pub has_active_operators : S → Result Bool

-- The token, and the interfaces that may be nil.
pub record Guard (S : Type 0) : Type 0 where
  pub token : Bytes
  pub operators : Option (OperatorSource S)
  pub auditor : Option (AuditRecord → S → Result S)

abbrev pub Handler : Type 0 → Type 0
Handler S = Identity → S → S × ℕ

-- A response of the guard itself, or one of the handler.
pub data Response : Type 0 where
  refused : ℕ → Response
  served : Identity → ℕ → Response

abbrev pub local_identity : Identity
local_identity = record { id = codes "local"; name = codes "local"; role = admin }

abbrev pub legacy_identity : Identity
legacy_identity = record { id = codes "legacy-admin"; name = codes "legacy-admin"; role = admin }

-- `strings.EqualFold` for ASCII texts.
unfoldable pub equal_fold : Bytes → Bytes → Bool
equal_fold a b = str_eq (to_lower a) (to_lower b)

abbrev is_bracket : ℕ → Bool
is_bracket c = c == b'[' || c == b']'

abbrev pub trim_brackets_left : Bytes → Bytes
trim_brackets_left [] = []
trim_brackets_left (c ∷ s) = if is_bracket c then trim_brackets_left s else c ∷ s

-- `strings.Trim(s, "[]")`
unfoldable pub trim_brackets : Bytes → Bytes
trim_brackets s = trim_end is_bracket (trim_brackets_left s)

abbrev pub host_of : Net → Bytes → Bytes
host_of net hostport = elim (net.split_host_port hostport) [ some host ↦ host | none ↦ hostport ]

unfoldable pub is_loopback : Net → Bytes → Bool
unfolding trim_brackets
is_loopback net addr = net.is_loopback_ip (trim_brackets (host_of net addr))

unfoldable pub is_loopback_host : Net → Bytes → Bool
unfolding trim_brackets equal_fold
is_loopback_host net hostport =
    let host = trim_brackets (host_of net hostport) in
    equal_fold host (codes "localhost") || net.is_loopback_ip host

unfoldable pub safe_method : Bytes → Bool
safe_method m = str_eq m (codes "GET") || str_eq m (codes "HEAD") || str_eq m (codes "OPTIONS")

abbrev pub admin_request_header : Bytes
admin_request_header = codes "X-Spendlease-Admin"

-- A page of another origin can set neither header.
unfoldable pub trusted_mutation : Net → AdminRequest → Bool
unfolding equal_fold header
trusted_mutation net r =
    let origin = trim_space (header (codes "Origin") r.headers) in
    if not (str_eq (header admin_request_header r.headers) (codes "1"))
    then false
    else if equal_fold (header (codes "Sec-Fetch-Site") r.headers) (codes "cross-site")
    then false
    else if is_empty origin
    then true
    else elim (net.url_host origin) [
      | none ↦ false
      | some host ↦ not (is_empty host) && equal_fold host r.host
    ]

unfoldable pub presented_token : Net → AdminRequest → Bytes
unfolding cut_prefix header
presented_token net r = elim (net.basic_auth r.headers) [
  | some (_, token) ↦ token
  | none ↦ elim (cut_prefix (codes "Bearer ") (header authorization r.headers)) [
    | some after ↦ trim_space after
    | none ↦ []
  ]
]

unfoldable pub token_matches : Bytes → Bytes → Bool
token_matches presented want =
    not (is_empty presented) && not (is_empty want) && str_eq presented want

abbrev pub identity_of : Operator → Identity
identity_of o = record { id = o.id; name = o.name; role = o.role }

-- With basic authentication a user name that is given has to be the operator's.
abbrev pub name_matches : Option (Bytes × Bytes) → Operator → Bool
name_matches none o = true
name_matches (some (username, _)) o = is_empty username || str_eq username o.name

abbrev pub is_not_found : StoreError → Bool
is_not_found not_found = true
is_not_found conflict = false
is_not_found immutable = false
is_not_found other = false

module _ {S : Type 0} (net : Net) (g : Guard S) where
  unfoldable pub remote_access_configured : S → Result Bool
  remote_access_configured s =
      if not (is_empty g.token)
      then ok true
      else elim g.operators [ none ↦ ok false | some source ↦ source.has_active_operators s ]

  -- The token of the guard, from before there were named operators.
  abbrev pub legacy : Bytes → Result (Option Identity)
  legacy token = if token_matches token g.token then ok (some legacy_identity) else ok none

  unfoldable pub authorized_identity : AdminRequest → S → Result (Option Identity)
  unfolding presented_token token_matches looks_like_token
  authorized_identity r s =
      let token = presented_token net r in
      if is_empty token then ok none else elim g.operators [
        | none ↦ legacy token
        | some source ↦
            if not (looks_like_token token)
            then legacy token
            else elim (source.get_operator_by_token_hash (net.hash_token token) s) [
              | err e ↦ if is_not_found e then legacy token else err e
              | ok o ↦
                  if is_enabled o && name_matches (net.basic_auth r.headers) o
                  then ok (some (identity_of o))
                  else legacy token
            ]
      ]

  -- The identity of a request, or the status of the refusal.
  unfoldable pub identify : AdminRequest → S → ℕ ⊎ Identity
  unfolding is_loopback is_loopback_host remote_access_configured authorized_identity
  identify r s =
      if is_loopback net r.remote_addr && is_loopback_host net r.host
      then inr local_identity
      else elim (if is_empty (presented_token net r) then remote_access_configured s else ok true) [
        | err e ↦ inl 503
        | ok false ↦ inl 403
        | ok true ↦ elim (authorized_identity r s) [
          | err e ↦ inl 503
          | ok none ↦ inl 401
          | ok (some i) ↦ inr i
        ]
      ]

  abbrev pub audit_request_id : Fresh → AdminRequest → Bytes
  audit_request_id f r =
      let given = trim_space (header (codes "X-Request-Id") r.headers) in
      if is_empty given || ltb 200 (length given) then f.request_id else given

  abbrev pub audit_action : AdminRequest → Bytes
  audit_action r =
      if is_empty (trim_space r.pattern)
      then r.method ++ codes " " ++ r.path
      else trim_space r.pattern

  -- What the two records of a mutation share with the request, with a phase, an id, a status and an instant.
  unfoldable pub audit_record :
      Fresh → AdminRequest → Identity → Bytes → Bytes → ℕ → ℕ → AuditRecord
  audit_record f r i phase id status at = record {
    id = id;
    request_id = audit_request_id f r;
    actor_id = i.id;
    actor_name = i.name;
    role = i.role;
    phase = phase;
    action = audit_action r;
    resource = r.request_uri;
    remote_addr = r.remote_addr;
    status_code = status;
    created_at = at;
  }

  abbrev pub attempt_record : Fresh → AdminRequest → Identity → AuditRecord
  attempt_record f r i = audit_record f r i (codes "attempt") f.attempt_id 0 f.attempt_at

  abbrev pub result_record : Fresh → AdminRequest → Identity → ℕ → AuditRecord
  result_record f r i status = audit_record f r i (codes "result") f.result_id status f.result_at

  -- A result record that cannot be written is only reported.
  abbrev pub or_keep : S → Result S → S
  or_keep s (ok s') = s'
  or_keep s (err e) = s

  unfoldable pub audit_mutation :
      (AuditRecord → S → Result S) → Fresh → AdminRequest → Identity → Handler S → S → S × Response
  audit_mutation append f r i handler s = elim (append (attempt_record f r i) s) [
    | err e ↦ (s, refused 503)
    | ok s' ↦
        let (s'', status) = handler i s' in
        (or_keep s'' (append (result_record f r i status) s''), served i status)
  ]

  abbrev pub answered : Identity → S × ℕ → S × Response
  answered i (s, status) = (s, served i status)

  unfoldable pub protect_role : Role → Fresh → AdminRequest → Handler S → S → S × Response
  unfolding identify allows safe_method trusted_mutation audit_mutation
  protect_role required f r handler s = elim (identify r s) [
    | inl status ↦ (s, refused status)
    | inr i ↦
        if not (allows i.role required)
        then (s, refused 403)
        else if not (safe_method r.method) && not (trusted_mutation net r)
        then (s, refused 403)
        else if safe_method r.method
        then answered i (handler i s)
        else elim g.auditor [
          | none ↦ answered i (handler i s)
          | some append ↦ audit_mutation append f r i handler s
        ]
  ]

  -- `Protect`
  abbrev pub protect : Fresh → AdminRequest → Handler S → S → S × Response
  protect f r handler s = protect_role viewer f r handler s
