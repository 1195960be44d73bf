-- ===== src/Dashboard/Management/Changes.antt =====
-- management.go: what a form can change, and who may send it.
use mathlib.Core.Path.{subst}
use spendlease.Base.{◌≡◌, refl, sym, ap, ◌∙◌, ◌⊎◌, inl, inr, true, some, Bytes, arith}
use mathlib.Core.Option.{some-injective}
use spendlease.Operator.{admin, allows, Identity, AuditRecord}
use spendlease.Sqlite.Operators.{append_operator_audit}
use spendlease.Dashboard.{Net, AdminRequest, Fresh}
use spendlease.Dashboard.Guarded.{
  IsLocal, IsOperator, IsLegacy, protect_role-served, protect_role-view,
}
use spendlease.Ledger.{Platform}
use spendlease.Store.{Result, ok, Result-cases}
use spendlease.Sqlite.Tables.{Db}
use spendlease.Sqlite.Budget.Reach.{IsStep}
use spendlease.Gateway.{Gateway}
use spendlease.Gateway.Proxy.Budgets.{GatewayStep}
use spendlease.Vault.{Aead, Vault}
use spendlease.Dashboard.Management.{Page, Desk}
use spendlease.Dashboard.Management.Forms.{
  handle_create_agent, handle_desk_run, handle_desk_lease, handle_desk_close, handle_desk_revoke,
  handle_set_mode, handle_kill,
}
use spendlease.Dashboard.Management.Serve.{
  DeskState, DeskCall, respond_desk, desk_role, in_store, in_desk, DashState, desk_guard,
  append_desk_audit, desk_handler, serve_desk,
}
use spendlease.Dashboard.Management.Steps.{
  handle_create_agent-IsStep, handle_desk_run-IsStep, handle_desk_lease-IsStep,
  handle_desk_close-IsStep, handle_set_mode-IsStep,
}

module _ (a : Aead) (v : Vault) (nonce : Bytes) (p : Platform) (g : Gateway) (d : Desk) where
  -- An event of the gateway, with the vendor keys as they were; or a change of the keys alone, by a
  -- form that only an admin may send.
  abbrev pub IsDeskChange : DeskCall → DeskState → DeskState → Type 0
  IsDeskChange call k k' =
      ((k'.credentials ≡ k.credentials) × GatewayStep p g k.gateway k'.gateway)
      ⊎ ((k'.gateway ≡ k.gateway) × (desk_role call ≡ admin))

  stored :
      (k : DeskState) (call : DeskCall) (out : Db × Page)
      → IsStep p k.gateway.db out.0
      → ((in_desk k (in_store k.gateway out)).0 ≡ k)
        ⊎ IsDeskChange call k (in_desk k (in_store k.gateway out)).0
  stored k call (s, shown) (inl same) = inl (ground arith)
  stored k call (s, shown) (inr step) = inr (inl (refl, GatewayStep.administers k.gateway s step))

  respond_desk-IsDeskChange :
      (call : DeskCall) (k : DeskState)
      → ((respond_desk a v nonce p.format_time d call k).0 ≡ k)
        ⊎ IsDeskChange call k (respond_desk a v nonce p.format_time d call k).0
  unfolding respond_desk desk_role handle_desk_revoke handle_kill
  respond_desk-IsDeskChange (DeskCall.create_agent f) k =
      stored k (DeskCall.create_agent f) (handle_create_agent d f k.gateway.db)
        (handle_create_agent-IsStep p d f k.gateway.db)
  respond_desk-IsDeskChange (DeskCall.agent_access_of i) k = inl refl
  respond_desk-IsDeskChange (DeskCall.desk_run i f) k =
      stored k (DeskCall.desk_run i f) (handle_desk_run p.format_time d i f k.gateway.db)
        (handle_desk_run-IsStep p d i f k.gateway.db)
  respond_desk-IsDeskChange (DeskCall.issue_lease i f) k =
      stored k (DeskCall.issue_lease i f) (handle_desk_lease p.format_time d i f k.gateway.db)
        (handle_desk_lease-IsStep p d i f k.gateway.db)
  respond_desk-IsDeskChange (DeskCall.end_desk_run i) k =
      stored k (DeskCall.end_desk_run i) (handle_desk_close p.format_time d i k.gateway.db)
        (handle_desk_close-IsStep p d i k.gateway.db)
  respond_desk-IsDeskChange (DeskCall.revoke_desk_lease i) k =
      inr (inl (refl, GatewayStep.kills_lease k.gateway d.now i))
  respond_desk-IsDeskChange (DeskCall.set_mode i f) k =
      stored k (DeskCall.set_mode i f) (handle_set_mode i f k.gateway.db)
        (handle_set_mode-IsStep p d i f k.gateway.db)
  respond_desk-IsDeskChange (DeskCall.kill_switch i) k =
      inr (inl (refl, GatewayStep.kills k.gateway d.now i))
  respond_desk-IsDeskChange (DeskCall.set_provider q f) k = inr (inr (refl, refl))
  respond_desk-IsDeskChange (DeskCall.delete_provider q) k = inr (inr (refl, refl))

  append_desk_audit-desk :
      (token : Bytes) (append : AuditRecord → DashState → Result DashState) (r : AuditRecord)
      (t t' : DashState)
      → (desk_guard token).auditor ≡ some append
      → append r t ≡ ok t'
      → t'.desk ≡ t.desk
  append_desk_audit-desk token append r t t' e h =
      let same : append r t ≡ append_desk_audit r t =
        ap (λ f. f r t) (sym (some-injective _ _ e)) in
      elim (Result-cases (append_operator_audit r t.operators)) [
        | inl (x, k) ↦ absurd (ground arith)
        | inr (o, k) ↦ ground arith
      ]

  -- After a request of one of the dashboard's forms, the gateway's state and the vendor keys are
  -- as they were before; or the request was from the local machine, with the token of an enabled
  -- operator, or with the legacy token, the role of that identity allows the role of the form,
  -- and the change is one event of the gateway (a call of a store method, or the revocation of a
  -- lease) with the keys as before, or a change of the keys alone by a form that requires an
  -- admin.
  pub serve_desk_changes :
      (net : Net) (token : Bytes) (call : DeskCall) (f : Fresh) (r : AdminRequest) (s : DashState)
      → ((serve_desk a v nonce p.format_time d net token call f r s).0.desk ≡ s.desk)
        ⊎ ((i : Identity) × (IsLocal net (desk_guard token) r i
              ⊎ (IsOperator net (desk_guard token) r s i ⊎ IsLegacy net (desk_guard token) r i))
            × (allows i.role (desk_role call) ≡ true)
            × IsDeskChange call s.desk
                (serve_desk a v nonce p.format_time d net token call f r s).0.desk)
  unfolding serve_desk
  serve_desk_changes net token call f r s =
      let change = λ (k : DeskState). (respond_desk a v nonce p.format_time d call k).0 in
      elim (protect_role-view net (desk_guard token) (λ x. x.desk) change (desk_role call) f r
        (desk_handler a v nonce p.format_time d call) s (λ i t. refl)
        (append_desk_audit-desk token)) [
          | inl same ↦ inl same
          | inr (i, status, answered, moved) ↦
              let (someone, allowed, trusted) =
                protect_role-served net (desk_guard token) (desk_role call) f r
                  (desk_handler a v nonce p.format_time d call) s
                  (serve_desk a v nonce p.format_time d net token call f r s).0 i status
                  (ap (λ x. ((serve_desk a v nonce p.format_time d net token call f r s).0, x))
                    answered) in
              elim (respond_desk-IsDeskChange call s.desk) [
                | inl still ↦ inl (moved ∙ still)
                | inr changed ↦
                    inr (i, someone, allowed, subst (IsDeskChange call s.desk) (sym moved) changed)
              ]
        ]
