-- ===== src/Operator.antt =====
-- internal/operator/operator.go: the identities of the control plane and their roles.
use spendlease.Base.{ℕ, Bool, true, false, not, Option, Bytes, codes, starts_with, leb, is_some}

-- A `Role` is a Go string: `other_role` is any text but the three that are recognised.
pub data Role : Type 0 where
  viewer operator admin : Role
  other_role : Bytes → Role

abbrev pub role_valid : Role → Bool
role_valid viewer = true
role_valid operator = true
role_valid admin = true
role_valid (other_role _) = false

abbrev pub role_rank : Role → ℕ
role_rank viewer = 1
role_rank operator = 2
role_rank admin = 3
role_rank (other_role _) = 0

unfoldable pub allows : Role → Role → Bool
allows r required = leb (role_rank required) (role_rank r)

abbrev pub is_admin : Role → Bool
is_admin admin = true
is_admin viewer = false
is_admin operator = false
is_admin (other_role _) = false

pub record Operator : Type 0 where
  pub id : Bytes
  pub name : Bytes
  pub token_hash : Bytes
  pub role : Role
  pub disabled_at : Option ℕ
  pub created_at : ℕ
  pub updated_at : ℕ

abbrev pub is_enabled : Operator → Bool
is_enabled o = not (is_some o.disabled_at)

pub record AuditRecord : Type 0 where
  pub id : Bytes
  pub request_id : Bytes
  pub actor_id : Bytes
  pub actor_name : Bytes
  pub role : Role
  pub phase : Bytes
  pub action : Bytes
  pub resource : Bytes
  pub remote_addr : Bytes
  pub status_code : ℕ
  pub created_at : ℕ

pub record AuditFilter : Type 0 where
  pub actor_id : Bytes
  pub action : Bytes
  pub since : ℕ
  pub limit : ℕ

-- The authenticated subset that is attached to a request.
pub record Identity : Type 0 where
  pub id : Bytes
  pub name : Bytes
  pub role : Role

abbrev pub token_prefix : Bytes
token_prefix = codes "slo_"

unfoldable pub looks_like_token : Bytes → Bool
looks_like_token token = starts_with token_prefix token
