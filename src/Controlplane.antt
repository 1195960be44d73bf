-- ===== src/Controlplane.antt =====
-- internal/controlplane/controlplane.go: the JSON API of operators, behind the guard. A response is its
-- status with the kind of an error or with a value; the texts of errors are left out.
pub mod Handlers
pub mod Steps
pub mod Roles
use spendlease.Base.{
  ℕ, ◌*◌, ◌+◌, Bool, true, false, not, ◌&&◌, ◌||◌, List, [], ◌∷◌, Option, none, some, Bytes, codes,
  str_eq, to_lower, starts_with, any, map, ltb, ◌⊎◌, inl, inr, if◌then◌else◌,
}
use spendlease.Base.Int.{ℤ, pos, pos_part, ltb_ℤ, eq_ℤ}
use spendlease.Money.{parse_usd, to_string, trim_space}
use spendlease.Operator.{AuditRecord}
use spendlease.Ledger.{Entry}
use spendlease.Store.{
  Run, RunStatus, Lease, BudgetLevel, RunBudgetStatus, StoreError, not_found, conflict, immutable,
  other, is_empty,
}
use spendlease.Sqlite.Operators.{OperatorDb}
use spendlease.Gateway.{State}

-- What the API shares with the gateway and with the operators' commands.
pub record ControlState : Type 0 where
  pub operators : OperatorDb
  pub gateway : State

pub record RunDto : Type 0 where
  pub id : Bytes
  pub principal_id : Bytes
  pub parent_run_id : Bytes
  pub budget_usd : Bytes
  pub status : RunStatus
  pub created_at : ℕ
  pub closed_at : Option ℕ

unfoldable pub run_response : Run → RunDto
run_response r = record {
  id = r.id;
  principal_id = r.principal_id;
  parent_run_id = r.parent_run_id;
  budget_usd = to_string r.budget;
  status = r.status;
  created_at = r.created_at;
  closed_at = r.closed_at;
}

pub record LeaseDto : Type 0 where
  pub id : Bytes
  pub run_id : Bytes
  pub providers : List Bytes
  pub ceiling_usd : Bytes
  pub expires_at : ℕ
  pub revoked_at : Option ℕ
  pub created_at : ℕ
  pub status : Bytes
  pub token : Bytes

abbrev pub lease_status : Lease → ℕ → Bytes
lease_status l now = elim l.revoked_at [
  | some at ↦ codes "revoked"
  | none ↦ if ltb now l.expires_at then codes "active" else codes "expired"
]

unfoldable pub lease_response : Lease → ℕ → LeaseDto
lease_response l now = record {
  id = l.id;
  run_id = l.run_id;
  providers = l.providers;
  ceiling_usd = to_string l.ceiling;
  expires_at = l.expires_at;
  revoked_at = l.revoked_at;
  created_at = l.created_at;
  status = lease_status l now;
  token = [];
}

pub record BudgetLevelDto : Type 0 where
  pub run_id : Bytes
  pub status : RunStatus
  pub budget_usd : Bytes
  pub spent_usd : Bytes
  pub held_usd : Bytes
  pub remaining_usd : Bytes
  pub unlimited : Bool

pub record BudgetDto : Type 0 where
  pub run_id : Bytes
  pub status : RunStatus
  pub spend_allowed : Bool
  pub blocking_run_id : Bytes
  pub unlimited : Bool
  pub effective_remaining_usd : Bytes
  pub limiting_run_id : Bytes
  pub levels : List BudgetLevelDto

abbrev pub level_response : BudgetLevel → BudgetLevelDto
level_response l = record {
  run_id = l.run_id;
  status = l.status;
  budget_usd = to_string l.budget;
  spent_usd = to_string l.spent;
  held_usd = to_string l.held;
  remaining_usd = to_string l.remaining;
  unlimited = l.unlimited;
}

unfoldable pub budget_response : RunBudgetStatus → BudgetDto
budget_response b = record {
  run_id = b.run_id;
  status = b.status;
  spend_allowed = b.spend_allowed;
  blocking_run_id = b.blocking_run_id;
  unlimited = b.unlimited;
  effective_remaining_usd = to_string b.effective_remaining;
  limiting_run_id = b.limiting_run_id;
  levels = map level_response b.levels;
}

-- The values that are encoded as JSON or CSV.
pub data Payload : Type 0 where
  run_view : RunDto → Payload
  run_views : List RunDto → Payload
  budget_view : BudgetDto → Payload
  lease_view : LeaseDto → Payload
  lease_views : List LeaseDto → Payload
  ledger_ok : ℕ → Bytes → Option ℕ → Payload
  ledger_json ledger_csv : List Entry → Payload
  audit_records : List AuditRecord → Payload

pub data ApiResponse : Type 0 where
  failure : ℕ → Bytes → ApiResponse
  success : ℕ → Payload → ApiResponse

abbrev pub response_status : ApiResponse → ℕ
response_status (failure status kind) = status
response_status (success status payload) = status

unfoldable pub store_error : StoreError → ApiResponse
store_error not_found = failure 404 (codes "not_found")
store_error conflict = failure 409 (codes "conflict")
store_error immutable = failure 500 (codes "internal")
store_error other = failure 500 (codes "internal")

abbrev pub invalid_request : ApiResponse
invalid_request = failure 400 (codes "invalid_request")

-- A request body: its Content-Type, and what encoding/json makes of it: `none` unless it is one object
-- with known fields.
pub record Body (A : Type 0) : Type 0 where
  pub content_type : Bytes
  pub decoded : Option A

unfoldable pub decode_json : {A : Type 0} → Body A → ApiResponse ⊎ A
decode_json b =
    if not (starts_with (codes "application/json") (to_lower b.content_type))
    then inl (failure 415 (codes "invalid_request"))
    else elim b.decoded [ none ↦ inl invalid_request | some a ↦ inr a ]

unfoldable pub parse_nonnegative_usd : Bytes → Option ℤ
parse_nonnegative_usd raw = elim (parse_usd raw) [
  | none ↦ none
  | some v ↦ if ltb_ℤ v (pos 0) then none else some v
]

-- The loop over the names, with those that were seen.
unfoldable pub normalize_from : List Bytes → List Bytes → Option (List Bytes)
normalize_from seen [] = some []
normalize_from seen (name ∷ names) =
    let item = to_lower (trim_space name) in
    let rest = normalize_from (item ∷ seen) names in
    if is_empty item || any (λ p. str_eq p item) seen
    then none
    else elim rest [ none ↦ none | some out ↦ some (item ∷ out) ]

unfoldable pub normalize_providers : List Bytes → Option (List Bytes)
unfolding normalize_from
normalize_providers raw = normalize_from [] raw

unfoldable pub default_string : Bytes → Bytes → Bytes
default_string value fallback = if is_empty (trim_space value) then fallback else value

pub record CreateRunRequest : Type 0 where
  pub budget_usd : Bytes
  pub parent_run_id : Bytes

pub record IssueLeaseRequest : Type 0 where
  pub ttl_seconds : ℤ
  pub providers : List Bytes
  pub ceiling_usd : Bytes

-- The lifetime in seconds, if it is one.
unfoldable pub lease_ttl : ℤ → Option ℕ
lease_ttl given =
    let ttl = if eq_ℤ given (pos 0) then pos 900 else given in
    if ltb_ℤ ttl (pos 1) || ltb_ℤ (pos 2592000) ttl then none else some (pos_part ttl)
