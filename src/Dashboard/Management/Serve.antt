-- ===== src/Dashboard/Management/Serve.antt =====
-- The forms for the vendor keys, and a request of the dashboard from its guard to its page.
use spendlease.Base.{ℕ, Option, none, some, Bytes, str_eq, to_lower, any, if◌then◌else◌, inl, inr}
use spendlease.Money.{trim_space}
use spendlease.Operator.{Role, operator, admin, AuditRecord}
use spendlease.Store.{Result, ok, err, ◌>>=◌, is_empty}
use spendlease.Sqlite.Tables.{Db}
use spendlease.Sqlite.Credentials.{CredentialDb}
use spendlease.Gateway.{State}
use spendlease.Vault.{Aead, Vault}
use spendlease.Vault.Keyring.{put_key, delete_key}
use spendlease.Sqlite.Operators.{
  OperatorDb, get_operator_by_token_hash, has_active_operators, append_operator_audit,
}
use spendlease.Dashboard.{
  Net, AdminRequest, Fresh, OperatorSource, Guard, Handler, Response, protect_role,
}
use spendlease.Dashboard.Management.{
  AgentAccess, agent_access, provider_settings, Page, page, Desk, Form, management_error,
  build_access, provider_statuses,
}
use spendlease.Dashboard.Management.Forms.{
  handle_create_agent, handle_desk_run, handle_desk_lease, handle_desk_close, handle_desk_revoke,
  handle_set_mode, handle_kill,
}

-- What the forms change: the gateway's state and the vendor keys.
pub record DeskState : Type 0 where
  pub gateway : State
  pub credentials : CredentialDb

abbrev pub settings_page : Desk → ℕ → CredentialDb → Page
settings_page d status cs = page status (provider_settings (provider_statuses d cs))

-- The provider that a path names, if the gateway has it.
unfoldable pub known_provider : Desk → Bytes → Option Bytes
known_provider d raw =
    let name = to_lower (trim_space raw) in
    if any (λ p. str_eq p name) d.providers then some name else none

module _ (a : Aead) (v : Vault) (nonce : Bytes) where
  unfoldable pub handle_set_provider :
      Desk → Bytes → Option Form → CredentialDb → CredentialDb × Page
  unfolding known_provider
  handle_set_provider d raw form cs = elim (known_provider d raw) [
    | none ↦ (cs, settings_page d 404 cs)
    | some name ↦ elim form [
      | none ↦ (cs, settings_page d 422 cs)
      | some f ↦
          if is_empty (trim_space f.api_key)
          then (cs, settings_page d 422 cs)
          else elim (put_key a v nonce d.now name (trim_space f.api_key) cs) [
            | inl e ↦ (cs, settings_page d 500 cs)
            | inr cs' ↦ (cs', settings_page d 200 cs')
          ]
    ]
  ]

  unfoldable pub handle_delete_provider : Desk → Bytes → CredentialDb → CredentialDb × Page
  unfolding known_provider
  handle_delete_provider d raw cs = elim (known_provider d raw) [
    | none ↦ (cs, settings_page d 404 cs)
    | some name ↦ elim (delete_key a name cs) [
      | inl e ↦ (cs, settings_page d 500 cs)
      | inr cs' ↦ (cs', settings_page d 200 cs')
    ]
  ]

pub data DeskCall : Type 0 where
  create_agent : Option Form → DeskCall
  agent_access_of : Bytes → DeskCall
  desk_run : Bytes → Option Form → DeskCall
  issue_lease : Bytes → Option Form → DeskCall
  end_desk_run : Bytes → DeskCall
  revoke_desk_lease : Bytes → DeskCall
  set_mode : Bytes → Form → DeskCall
  kill_switch : Bytes → DeskCall
  set_provider : Bytes → Option Form → DeskCall
  delete_provider : Bytes → DeskCall

-- The roles of `managementRoutes` and `Routes`.
unfoldable pub desk_role : DeskCall → Role
desk_role (create_agent f) = admin
desk_role (agent_access_of i) = operator
desk_role (desk_run i f) = operator
desk_role (issue_lease i f) = operator
desk_role (end_desk_run i) = operator
desk_role (revoke_desk_lease i) = operator
desk_role (set_mode i f) = admin
desk_role (kill_switch i) = admin
desk_role (set_provider p f) = admin
desk_role (delete_provider p) = admin

abbrev pub in_store : State → Db × Page → State × Page
in_store st (s, shown) = (record st { db = s }, shown)

abbrev pub in_desk : DeskState → State × Page → DeskState × Page
in_desk k (st, shown) = (record k { gateway = st }, shown)

abbrev pub in_keys : DeskState → CredentialDb × Page → DeskState × Page
in_keys k (cs, shown) = (record k { credentials = cs }, shown)

abbrev pub access_page : Result AgentAccess → Page
access_page (err e) = management_error e
access_page (ok v) = page 200 (agent_access v)

module _ (a : Aead) (v : Vault) (nonce : Bytes) (format_time : ℕ → Bytes) (d : Desk) where
  -- The handler of a route.
  unfoldable pub respond_desk : DeskCall → DeskState → DeskState × Page
  unfolding handle_create_agent handle_desk_run handle_desk_lease handle_desk_close
      handle_desk_revoke handle_set_mode handle_kill handle_set_provider handle_delete_provider
      build_access management_error
  respond_desk (create_agent f) k =
      in_desk k (in_store k.gateway (handle_create_agent d f k.gateway.db))
  respond_desk (agent_access_of i) k =
      (k, access_page (build_access format_time d.now i k.gateway.db))
  respond_desk (desk_run i f) k =
      in_desk k (in_store k.gateway (handle_desk_run format_time d i f k.gateway.db))
  respond_desk (issue_lease i f) k =
      in_desk k (in_store k.gateway (handle_desk_lease format_time d i f k.gateway.db))
  respond_desk (end_desk_run i) k =
      in_desk k (in_store k.gateway (handle_desk_close format_time d i k.gateway.db))
  respond_desk (revoke_desk_lease i) k = in_desk k (handle_desk_revoke format_time d i k.gateway)
  respond_desk (set_mode i f) k = in_desk k (in_store k.gateway (handle_set_mode i f k.gateway.db))
  respond_desk (kill_switch i) k = in_desk k (handle_kill format_time d i k.gateway)
  respond_desk (set_provider p f) k = in_keys k (handle_set_provider a v nonce d p f k.credentials)
  respond_desk (delete_provider p) k =
      in_keys k (handle_delete_provider a v nonce d p k.credentials)

-- What the dashboard shares with the rest of the server.
pub record DashState : Type 0 where
  pub operators : OperatorDb
  pub desk : DeskState

abbrev pub desk_source : OperatorSource DashState
desk_source = record {
  get_operator_by_token_hash = λ h s. get_operator_by_token_hash h s.operators;
  has_active_operators = λ s. ok (has_active_operators s.operators);
}

abbrev pub append_desk_audit : AuditRecord → DashState → Result DashState
append_desk_audit r s = append_operator_audit r s.operators >>= λ o. ok (record s { operators = o })

abbrev pub desk_guard : Bytes → Guard DashState
desk_guard token = record {
  token = token;
  operators = some desk_source;
  auditor = some append_desk_audit;
}

-- A request of the dashboard, from the guard to the page.
module _ (a : Aead) (v : Vault) (nonce : Bytes) (format_time : ℕ → Bytes) (d : Desk) where
  abbrev pub desk_handler : DeskCall → Handler DashState
  desk_handler call i s =
      let (k, shown) = respond_desk a v nonce format_time d call s.desk in
      (record s { desk = k }, shown.status)

  unfoldable pub serve_desk :
      Net → Bytes → DeskCall → Fresh → AdminRequest → DashState → DashState × Response
  serve_desk net token call f r s =
      protect_role net (desk_guard token) (desk_role call) f r (desk_handler call) s
