-- ===== src/Controlplane/Steps.antt =====
-- controlplane.go: what a handler does to the store is one call of a method, or nothing.
use mathlib.Core.Path.{subst}
use spendlease.Base.{
  ℕ, ◌≡◌, refl, ◌⊎◌, inl, inr, true, false, Bytes, str_eq, arith, Bool-cases, Option-cases,
  sum_cases,
}
use spendlease.Operator.{operator}
use spendlease.Ledger.{Platform}
use spendlease.Store.{Result-cases, is_active}
use spendlease.Sqlite.Tables.{Db, get_principal, get_run}
use spendlease.Sqlite.Runs.{create_run, close_run}
use spendlease.Sqlite.Leases.{create_lease}
use spendlease.Sqlite.Operators.{OperatorDb}
use spendlease.Sqlite.Budget.Reach.{Step, IsStep}
use spendlease.Gateway.{Gateway, State}
use spendlease.Gateway.Proxy.Budgets.{GatewayStep}
use spendlease.Dashboard.{safe_method}
use spendlease.Controlplane.{
  ApiResponse, Body, decode_json, parse_nonnegative_usd, CreateRunRequest, IssueLeaseRequest,
}
use spendlease.Controlplane.Handlers.{
  Texts, ApiCall, required_role, handle_create_run, handle_close_run, handle_issue_lease,
  handle_revoke_lease, lease_terms, requested_run, requested_lease, with_db, respond, route_method,
}

handle_create_run-IsStep :
    (p : Platform) (i : Bytes) (b : Body CreateRunRequest) (r : Bytes) (now : ℕ) (s : Db)
    → IsStep p s (handle_create_run i b r now s).0
unfolding handle_create_run
handle_create_run-IsStep p i b r now s = elim (Result-cases (get_principal i s)) [
  | inl (e, k) ↦ inl (ground arith)
  | inr (a, k) ↦ elim (sum_cases (decode_json b)) [
    | inl (e, d) ↦ inl (ground arith)
    | inr (input, d) ↦ elim (Option-cases (parse_nonnegative_usd input.budget_usd)) [
      | inl n ↦ inl (ground arith)
      | inr (v, n) ↦ elim (Result-cases (create_run (requested_run i input v r now) s)) [
        | inl (e, c) ↦ inl (ground arith)
        | inr (s', c) ↦
            let same : s' ≡ (handle_create_run i b r now s).0 = ground arith in
            inr (subst (Step p s) same (Step.new_run (requested_run i input v r now) c))
      ]
    ]
  ]
]

handle_close_run-IsStep :
    (p : Platform) (i : Bytes) (now : ℕ) (s : Db) → IsStep p s (handle_close_run i now s).0
unfolding handle_close_run
handle_close_run-IsStep p i now s = elim (Result-cases (close_run now i s)) [
  | inl (e, k) ↦ inl (ground arith)
  | inr (s', k) ↦ elim (Result-cases (get_run i s')) [
    | inl (e, n) ↦
        let same : s' ≡ (handle_close_run i now s).0 = ground arith in
        inr (subst (Step p s) same (Step.close now i k))
    | inr (r, n) ↦
        let same : s' ≡ (handle_close_run i now s).0 = ground arith in
        inr (subst (Step p s) same (Step.close now i k))
  ]
]

handle_issue_lease-IsStep :
    (p : Platform) (i : Bytes) (b : Body IssueLeaseRequest) (l token hash : Bytes) (now : ℕ)
    (s : Db)
    → IsStep p s (handle_issue_lease i b l token hash now s).0
unfolding handle_issue_lease
handle_issue_lease-IsStep p i b l token hash now s = elim (Result-cases (get_run i s)) [
  | inl (e, k) ↦ inl (ground arith)
  | inr (r, k) ↦ elim (Bool-cases (is_active r.status)) [
    | inr closed ↦ inl (ground arith)
    | inl open_run ↦ elim (sum_cases (decode_json b)) [
      | inl (e, d) ↦ inl (ground arith)
      | inr (input, d) ↦ elim (Option-cases (lease_terms input)) [
        | inl n ↦ inl (ground arith)
        | inr ((ttl, ceiling, scope), n) ↦
            elim (Result-cases (create_lease (requested_lease r scope ceiling ttl l hash now) s)) [
              | inl (e, c) ↦ inl (ground arith)
              | inr (s', c) ↦
                  let same : s' ≡ (handle_issue_lease i b l token hash now s).0 = ground arith in
                  inr (
                    subst (Step p s) same
                      (Step.new_lease (requested_lease r scope ceiling ttl l hash now) c))
            ]
      ]
    ]
  ]
]

module _ (p : Platform) (t : Texts) where
  pub respond-read :
      (call : ApiCall) (o : OperatorDb) (st : State)
      → safe_method (route_method call) ≡ true
      → (respond p t call o st).0 ≡ st
  unfolding respond route_method safe_method str_eq
  respond-read (ApiCall.list_runs i) o st h = refl
  respond-read (ApiCall.new_run i b r now) o st h = absurd (cc h)
  respond-read (ApiCall.show_run i) o st h = refl
  respond-read (ApiCall.end_run i now) o st h = absurd (cc h)
  respond-read (ApiCall.show_budget i) o st h = refl
  respond-read (ApiCall.list_leases i now) o st h = refl
  respond-read (ApiCall.new_lease i b l token hash now) o st h = absurd (cc h)
  respond-read (ApiCall.end_lease i now) o st h = absurd (cc h)
  respond-read ApiCall.verify o st h = refl
  respond-read (ApiCall.export q) o st h = refl
  respond-read (ApiCall.audit_trail q) o st h = refl

  pub required_role-write :
      (call : ApiCall) → safe_method (route_method call) ≡ false → required_role call ≡ operator
  unfolding required_role route_method safe_method str_eq
  required_role-write (ApiCall.list_runs i) h = absurd (cc h)
  required_role-write (ApiCall.new_run i b r now) h = refl
  required_role-write (ApiCall.show_run i) h = absurd (cc h)
  required_role-write (ApiCall.end_run i now) h = refl
  required_role-write (ApiCall.show_budget i) h = absurd (cc h)
  required_role-write (ApiCall.list_leases i now) h = absurd (cc h)
  required_role-write (ApiCall.new_lease i b l token hash now) h = refl
  required_role-write (ApiCall.end_lease i now) h = refl
  required_role-write ApiCall.verify h = absurd (cc h)
  required_role-write (ApiCall.export q) h = absurd (cc h)
  required_role-write (ApiCall.audit_trail q) h = absurd (cc h)

  -- A change of the store by one of its methods is an event of the gateway.
  administered :
      (g : Gateway) (st : State) (out : Db × ApiResponse)
      → IsStep p st.db out.0
      → ((with_db st out).0 ≡ st) ⊎ GatewayStep p g st (with_db st out).0
  administered g st (s, response) (inl same) = inl (ground arith)
  administered g st (s, response) (inr step) = inr (GatewayStep.administers st s step)

  pub respond-GatewayStep :
      (g : Gateway) (call : ApiCall) (o : OperatorDb) (st : State)
      → ((respond p t call o st).0 ≡ st) ⊎ GatewayStep p g st (respond p t call o st).0
  unfolding respond handle_revoke_lease
  respond-GatewayStep g (ApiCall.list_runs i) o st = inl refl
  respond-GatewayStep g (ApiCall.new_run i b r now) o st =
      administered g st (handle_create_run i b r now st.db)
        (handle_create_run-IsStep p i b r now st.db)
  respond-GatewayStep g (ApiCall.show_run i) o st = inl refl
  respond-GatewayStep g (ApiCall.end_run i now) o st =
      administered g st (handle_close_run i now st.db) (handle_close_run-IsStep p i now st.db)
  respond-GatewayStep g (ApiCall.show_budget i) o st = inl refl
  respond-GatewayStep g (ApiCall.list_leases i now) o st = inl refl
  respond-GatewayStep g (ApiCall.new_lease i b l token hash now) o st =
      administered g st (handle_issue_lease i b l token hash now st.db)
        (handle_issue_lease-IsStep p i b l token hash now st.db)
  respond-GatewayStep g (ApiCall.end_lease i now) o st = inr (GatewayStep.kills_lease st now i)
  respond-GatewayStep g ApiCall.verify o st = inl refl
  respond-GatewayStep g (ApiCall.export q) o st = inl refl
  respond-GatewayStep g (ApiCall.audit_trail q) o st = inl refl
