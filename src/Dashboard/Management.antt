-- ===== src/Dashboard/Management.antt =====
-- internal/dashboard/management.go, with the mode switch and the kill switch of dashboard.go: one function
-- for each form. Texts of messages, endpoints and code examples are left out of the views.
pub mod Forms
pub mod Serve
pub mod Steps
pub mod Changes
use spendlease.Base.{
  ℕ, ◌+◌, ◌*◌, Bool, true, false, not, ◌&&◌, ◌||◌, List, [], ◌∷◌, Option, none, some, Bytes, codes,
  str_eq, str_leb, to_lower, map, any, all, leb, ltb, ◌==◌, length, if◌then◌else◌, ◌⊎◌, inl, inr,
  sort_rows,
}
use spendlease.Base.Int.{ℤ, pos, pos_part, ltb_ℤ, leb_ℤ}
use spendlease.Money.{parse_usd, trim_space}
use spendlease.Operator.{Role, viewer, operator, admin, Identity, AuditRecord}
use spendlease.Store.{
  Principal, Run, RunStatus, Lease, Mode, observe, enforce, other_mode, mode_valid, Result, ok, err,
  ◌>>=◌, StoreError, not_found, conflict, immutable, other, is_empty, is_active, active,
}
use spendlease.Ledger.{Platform}
use spendlease.Sqlite.Tables.{Db, get_principal, get_run}
use spendlease.Sqlite.Principals.{create_principal_run_lease, set_principal_mode}
use spendlease.Sqlite.Runs.{create_run, close_run}
use spendlease.Sqlite.Leases.{create_lease}
use spendlease.Sqlite.Queries.{list_runs_by_principal, list_leases_by_run}
use spendlease.Sqlite.Credentials.{CredentialDb, list_credential_providers}
use spendlease.Gateway.{State}
use spendlease.Gateway.Auth.{kill_lease, revoke_principal}
use spendlease.Vault.{Aead, Vault, VaultError}
use spendlease.Vault.Keyring.{put_key, delete_key}
use spendlease.Controlplane.{lease_status}

-- A view, as far as it tells of the store.
pub record AccessLease : Type 0 where
  pub id : Bytes
  pub providers : List Bytes
  pub ceiling : ℤ
  pub expires_at : ℕ
  pub status : Bytes

pub record AccessRun : Type 0 where
  pub id : Bytes
  pub budget : ℤ
  pub status : RunStatus
  pub leases : List AccessLease

pub record AgentAccess : Type 0 where
  pub principal_id : Bytes
  pub principal_name : Bytes
  pub runs : List AccessRun

pub data View : Type 0 where
  created_agent : Bytes → Bytes → Bytes → ℕ → View
  agent_access : AgentAccess → View
  issued_lease : AgentAccess → Bytes → ℕ → View
  provider_settings : List (Bytes × Bool) → View
  table : View
  rejected : View

-- What a page shows, and its status.
pub record Page : Type 0 where
  pub status : ℕ
  pub shown : View

abbrev pub page : ℕ → View → Page
page status shown = record { status = status; shown = shown }

-- The providers of the gateway, the reader of numbers, the clock, and what is drawn at random.
pub record Desk : Type 0 where
  pub providers : List Bytes
  pub parse_int : Bytes → Option ℤ
  pub now : ℕ
  pub principal_id : Bytes
  pub run_id : Bytes
  pub lease_id : Bytes
  pub key_hash : Bytes
  pub token : Bytes
  pub token_hash : Bytes

-- The fields of the forms; a field that is not sent is empty.
pub record Form : Type 0 where
  pub name : Bytes
  pub mode : Bytes
  pub budget_usd : Bytes
  pub ceiling_usd : Bytes
  pub ttl_seconds : Bytes
  pub providers : List Bytes
  pub api_key : Bytes

unfoldable pub mode_of : Bytes → Mode
mode_of s =
    if str_eq s (codes "observe")
    then observe
    else if str_eq s (codes "enforce")
    then enforce
    else other_mode s

-- `unicode.IsControl` somewhere in a UTF-8 text.
unfoldable pub has_control : Bytes → Bool
has_control [] = false
has_control (c ∷ []) = ltb c 32 || c == 127
has_control (c ∷ d ∷ s) =
    let rest = has_control (d ∷ s) in
    ltb c 32 || c == 127 || (c == 194 && leb 128 d && ltb d 160) || rest

unfoldable pub valid_agent_name : Bytes → Bool
unfolding has_control
valid_agent_name name = not (is_empty name) && leb (length name) 100 && not (has_control name)

unfoldable pub positive_usd : Bytes → Option ℤ
positive_usd raw = elim (parse_usd raw) [
  | none ↦ none
  | some v ↦ if leb_ℤ v (pos 0) then none else some v
]

unfoldable pub nonnegative_usd : Bytes → Option ℤ
nonnegative_usd raw =
    if is_empty (trim_space raw)
    then some (pos 0)
    else elim (parse_usd raw) [ none ↦ none | some v ↦ if ltb_ℤ v (pos 0) then none else some v ]

-- The lifetime in seconds.
unfoldable pub parse_ttl : Desk → Bytes → Option ℕ
parse_ttl d raw = elim (d.parse_int (trim_space raw)) [
  | none ↦ none
  | some n ↦ if ltb_ℤ n (pos 60) || ltb_ℤ (pos 2592000) n then none else some (pos_part n)
]

-- The loop over the names; an empty one, or one that was seen, is passed over.
unfoldable pub distinct_names : List Bytes → List Bytes → List Bytes
distinct_names seen [] = []
distinct_names seen (raw ∷ names) =
    let name = to_lower (trim_space raw) in
    let skipped = distinct_names seen names in
    let taken = name ∷ distinct_names (name ∷ seen) names in
    if is_empty name || any (λ s. str_eq s name) seen then skipped else taken

unfoldable pub normalize_provider_names : List Bytes → List Bytes
unfolding distinct_names
normalize_provider_names names = sort_rows str_leb (distinct_names [] names)

unfoldable pub selected_providers : Desk → List Bytes → Option (List Bytes)
unfolding normalize_provider_names
selected_providers d names =
    let selected = normalize_provider_names names in
    if length selected == 0 || not (all (λ n. any (λ p. str_eq p n) d.providers) selected)
    then none
    else some selected

unfoldable pub management_error : StoreError → Page
management_error not_found = page 404 View.rejected
management_error conflict = page 500 View.rejected
management_error immutable = page 500 View.rejected
management_error other = page 500 View.rejected

abbrev pub access_lease : ℕ → Lease → AccessLease
access_lease now l = record {
  id = l.id;
  providers = l.providers;
  ceiling = l.ceiling;
  expires_at = l.expires_at;
  status = lease_status l now;
}

abbrev pub access_run : (ℕ → Bytes) → ℕ → Db → Run → AccessRun
access_run format_time now s r = record {
  id = r.id;
  budget = r.budget;
  status = r.status;
  leases = map (access_lease now) (list_leases_by_run format_time r.id s);
}

unfoldable pub build_access : (ℕ → Bytes) → ℕ → Bytes → Db → Result AgentAccess
build_access format_time now i s = elim (get_principal i s) [
  | err e ↦ err e
  | ok a ↦ ok (record {
    principal_id = a.id;
    principal_name = a.name;
    runs = map (access_run format_time now s) (list_runs_by_principal format_time i s);
  })
]

-- `renderAccessError` and `renderAccessNotice`
unfoldable pub render_access : (ℕ → Bytes) → ℕ → Bytes → ℕ → Db → Page
unfolding build_access management_error
render_access format_time now i status s = elim (build_access format_time now i s) [
  | err e ↦ management_error e
  | ok v ↦ page status (agent_access v)
]

abbrev pub is_configured : CredentialDb → Bytes → Bytes × Bool
is_configured cs name = (name, any (λ p. str_eq p name) (list_credential_providers cs))

-- `providerStatuses`
unfoldable pub provider_statuses : Desk → CredentialDb → List (Bytes × Bool)
provider_statuses d cs = map (is_configured cs) d.providers
