-- ===== src/Controlplane/Roles.antt =====
-- controlplane.go: who can change what, and what a change can be.
use mathlib.Core.Path.{subst}
use spendlease.Base.{
  ◌≡◌, refl, sym, ap, ◌∙◌, ◌⊎◌, inl, inr, Bool, true, false, List, ◌∷◌, Bytes, str_eq, str_eq_refl,
  any, arith, Bool-cases,
}
use spendlease.Operator.{operator, allows, Identity, AuditRecord}
use spendlease.Ledger.{Platform}
use spendlease.Store.{ok, Result-cases}
use spendlease.Sqlite.Operators.{append_operator_audit}
use spendlease.Gateway.{Gateway}
use spendlease.Gateway.Proxy.Budgets.{GatewayStep}
use spendlease.Dashboard.{
  Net, AdminRequest, Fresh, served, safe_method, attempt_record, result_record, or_keep,
  audit_record,
}
use spendlease.Dashboard.Guarded.{
  IsLocal, IsOperator, IsLegacy, protect_role-served, protect_role-IsAudited, protect_role_safe,
}
use spendlease.Controlplane.{ControlState}
use spendlease.Controlplane.Steps.{respond-read, required_role-write, respond-GatewayStep}
use spendlease.Controlplane.Handlers.{
  Texts, ApiCall, required_role, respond, api_guard, api_handler, append_audit, serve_api,
  route_method,
}

abbrev pub has_record : Bytes → List AuditRecord → Bool
has_record i rs = any (λ a. str_eq a.id i) rs

append_audit_inv :
    (a : AuditRecord) (s s' : ControlState)
    → append_audit a s ≡ ok s'
    → (s'.gateway ≡ s.gateway) × (s'.operators.audit ≡ a ∷ s.operators.audit)
unfolding append_operator_audit
append_audit_inv a s s' h = (ground arith, ground arith)

has_record-attempt :
    (net : Net) (token : Bytes) (f : Fresh) (r : AdminRequest) (i : Identity)
    (rs : List AuditRecord)
    → has_record f.attempt_id (attempt_record net (api_guard token) f r i ∷ rs) ≡ true
unfolding audit_record
has_record-attempt net token f r i rs = ground (arith, str_eq_refl f.attempt_id)

has_record-or_keep :
    (i : Bytes) (a : AuditRecord) (s : ControlState) (token : Bytes) (net : Net)
    → has_record i s.operators.audit ≡ true
    → (has_record i (or_keep net (api_guard token) s (append_audit a s)).operators.audit ≡ true)
      × ((or_keep net (api_guard token) s (append_audit a s)).gateway ≡ s.gateway)
has_record-or_keep i a s token net h = elim (Result-cases (append_audit a s)) [
  | inl (e, k) ↦ (ground arith, ground arith)
  | inr (s', k) ↦ let (same, more) = append_audit_inv a s s' k in (ground arith, ground arith)
]

module _ (p : Platform) (t : Texts) (g : Gateway) (net : Net) (token : Bytes) (call : ApiCall)
    (f : Fresh) (r : AdminRequest) where
  -- An operator or an admin made the change, by an event of the gateway, and the attempt is on record.
  abbrev pub IsAuthorizedChange : ControlState → ControlState → Type 0
  IsAuthorizedChange s s' =
      (i : Identity) × (IsLocal net (api_guard token) r i
        ⊎ (IsOperator net (api_guard token) r s i ⊎ IsLegacy net (api_guard token) r i))
      × (allows i.role operator ≡ true)
      × GatewayStep p g s.gateway s'.gateway
      × (has_record f.attempt_id s'.operators.audit ≡ true)

  changed_by :
      (s s1 : ControlState) (i : Identity)
      → append_audit (attempt_record net (api_guard token) f r i) s ≡ ok s1
      → safe_method r.method ≡ false
      → (serve_api p t net token call f r s).1 ≡ served i (api_handler p t call i s1).1
      → required_role call ≡ operator
      → (serve_api p t net token call f r s).0
        ≡ or_keep net (api_guard token) (api_handler p t call i s1).0 (
            append_audit
              (result_record net (api_guard token) f r i (api_handler p t call i s1).1)
              (api_handler p t call i s1).0)
      → ((serve_api p t net token call f r s).0.gateway ≡ s.gateway)
        ⊎ IsAuthorizedChange s (serve_api p t net token call f r s).0
  unfolding serve_api
  changed_by s s1 i appended unsafe answered needed left =
      let (same, more) =
        append_audit_inv (attempt_record net (api_guard token) f r i) s s1 appended in
      let h = (api_handler p t call i s1).0 in
      let on_record : has_record f.attempt_id h.operators.audit ≡ true =
        ap (has_record f.attempt_id) more ∙ has_record-attempt net token f r i s.operators.audit in
      let (kept, unchanged) =
        has_record-or_keep f.attempt_id
          (result_record net (api_guard token) f r i (api_handler p t call i s1).1) h token net
          on_record in
      let (someone, allowed, trusted) =
        protect_role-served net (api_guard token) (required_role call) f r (api_handler p t call) s
          (serve_api p t net token call f r s).0 i (api_handler p t call i s1).1
          (ap (λ x. ((serve_api p t net token call f r s).0, x)) answered) in
      let moved : (serve_api p t net token call f r s).0.gateway
          ≡ (respond p t call s1.operators s.gateway).0 =
        ap (λ x. x.gateway) left
        ∙ (unchanged ∙ ap (λ st. (respond p t call s1.operators st).0) same) in
      elim (respond-GatewayStep p t g call s1.operators s.gateway) [
        | inl still ↦ inl (moved ∙ still)
        | inr step ↦ inr (
          i,
          someone,
          subst (λ role. allows i.role role ≡ true) needed allowed,
          subst (GatewayStep p g s.gateway) (sym moved) step,
          ap (λ x. has_record f.attempt_id x.operators.audit) left ∙ kept,
        )
      ]

  -- For a request whose method is that of its route, the store and the set of revoked hashes are
  -- after it as they were before, or they changed by one event of the gateway (a call of a store
  -- method, or the revocation of a lease), and then the request was from the local machine, with
  -- the token of an enabled operator, or with the legacy token, the role of that identity allows
  -- what an operator may do, and the audit trail has a record with the id of the attempt.
  pub serve_api_changes :
      (s : ControlState)
      → r.method ≡ route_method call
      → ((serve_api p t net token call f r s).0.gateway ≡ s.gateway)
        ⊎ IsAuthorizedChange s (serve_api p t net token call f r s).0
  unfolding serve_api
  serve_api_changes s routed = elim (Bool-cases (safe_method (route_method call))) [
    | inl reads ↦
        elim (protect_role_safe net (api_guard token) (required_role call) f r
          (api_handler p t call) s (ap safe_method routed ∙ reads)) [
            | inl same ↦ inl (ap (λ x. x.gateway) same)
            | inr (i, same) ↦
                inl (ap (λ x. x.gateway) same ∙ respond-read p t call s.operators s.gateway reads)
          ]
    | inr changes ↦
        elim (protect_role-IsAudited net (api_guard token) append_audit (required_role call) f r
          (api_handler p t call) s refl (ap safe_method routed ∙ changes)) [
            | inl (same, refusal) ↦ inl (ap (λ x. x.gateway) same)
            | inr (i, s1, appended, answered, left) ↦
                changed_by s s1 i appended (ap safe_method routed ∙ changes) answered
                  (required_role-write p t call changes) left
          ]
  ]
