-- ===== src/Dashboard/Guarded.antt =====
-- auth.go: what holds of a request that the guard lets through, and what a refusal leaves.
use spendlease.Base.{
  ℕ, ◌≡◌, ◌⊎◌, inl, inr, true, false, ◌&&◌, ◌||◌, some, str_eq_iff, arith, Bool-cases, Option-cases,
  sum_cases,
}
use spendlease.Operator.{
  Role, allows, Identity, Operator, is_enabled, AuditRecord, looks_like_token,
}
use spendlease.Store.{Result, ok, is_empty, Result-cases}
use spendlease.Dashboard.{
  Net, AdminRequest, Fresh, OperatorSource, Guard, Handler, Response, refused, served,
  local_identity, legacy_identity, is_loopback, is_loopback_host, safe_method, trusted_mutation,
  presented_token, token_matches, identity_of, authorized_identity, identify, attempt_record,
  result_record, or_keep, audit_mutation, protect_role, name_matches, legacy,
}

module _ {S : Type 0} (net : Net) (g : Guard S) where
  -- An active operator of the presented token.
  abbrev pub IsOperator : AdminRequest → S → Identity → Type 0
  IsOperator r s i =
      (source : OperatorSource S) × (o : Operator) × (g.operators ≡ some source)
      × (source.get_operator_by_token_hash (net.hash_token (presented_token net r)) s ≡ ok o)
      × (is_enabled o ≡ true)
      × (i ≡ identity_of o)

  abbrev pub IsLocal : AdminRequest → Identity → Type 0
  IsLocal r i =
      (is_loopback net r.remote_addr ≡ true)
      × (is_loopback_host net r.host ≡ true)
      × (i ≡ local_identity)

  abbrev pub IsLegacy : AdminRequest → Identity → Type 0
  IsLegacy r i =
      (is_empty g.token ≡ false) × (presented_token net r ≡ g.token) × (i ≡ legacy_identity)

  legacy-IsLegacy :
      (r : AdminRequest) (i : Identity)
      → legacy net g (presented_token net r) ≡ ok (some i)
      → IsLegacy r i
  unfolding token_matches
  legacy-IsLegacy r i h = ground (arith, str_eq_iff (presented_token net r) g.token)

  authorized_identity_sound :
      (r : AdminRequest) (s : S) (i : Identity)
      → authorized_identity net g r s ≡ ok (some i)
      → IsOperator r s i ⊎ IsLegacy r i
  unfolding authorized_identity
  authorized_identity_sound r s i h = elim (Option-cases g.operators) [
    | inl n ↦ inr (legacy-IsLegacy r i (ground arith))
    | inr (source, sourced) ↦
        elim (Result-cases
          (source.get_operator_by_token_hash (net.hash_token (presented_token net r)) s)) [
            | inl (e, failed) ↦ inr (legacy-IsLegacy r i (ground arith))
            | inr (o, found) ↦
                elim (Bool-cases (
                  looks_like_token (presented_token net r)
                  && (is_enabled o && name_matches (net.basic_auth r.headers) o))) [
                    | inl good ↦ inl (source, o, sourced, found, ground arith, ground arith)
                    | inr bad ↦ inr (legacy-IsLegacy r i (ground arith))
                  ]
          ]
  ]

  identify_sound :
      (r : AdminRequest) (s : S) (i : Identity)
      → identify net g r s ≡ inr i
      → IsLocal r i ⊎ (IsOperator r s i ⊎ IsLegacy r i)
  unfolding identify
  identify_sound r s i h =
      elim (Bool-cases (is_loopback net r.remote_addr && is_loopback_host net r.host)) [
        | inl here ↦ inl (ground arith, ground arith, ground arith)
        | inr away ↦ inr (authorized_identity_sound r s i (ground arith))
      ]

  -- A request that is served, branch by branch.
  protect_role_inv :
      (required : Role) (f : Fresh) (r : AdminRequest) (handler : Handler S) (s s' : S)
      (i : Identity) (status : ℕ)
      → protect_role net g required f r handler s ≡ (s', served i status)
      → (identify net g r s ≡ inr i)
        × (allows i.role required ≡ true)
        × ((safe_method r.method || trusted_mutation net r) ≡ true)
  unfolding protect_role audit_mutation
  protect_role_inv required f r handler s s' i status h = elim (sum_cases (identify net g r s)) [
    | inl (refusal, no_one) ↦ absurd (ground arith)
    | inr (j, someone) ↦ elim (Option-cases g.auditor) [
      | inl n ↦ (ground arith, ground arith, ground arith)
      | inr (append, audited) ↦ elim (Result-cases (append (attempt_record net g f r j) s)) [
        | inl (e, failed) ↦ (ground arith, ground arith, ground arith)
        | inr (s1, done) ↦ (ground arith, ground arith, ground arith)
      ]
    ]
  ]

  -- A handler behind the guard is served only for the local identity, at a loopback peer and a
  -- loopback host, for an enabled operator whom the store has under the hash of the presented
  -- token, or for the legacy identity, if a legacy token is configured and presented; the role of
  -- the identity allows the required one, and the method is safe or the request has the marks of
  -- a trusted mutation.
  pub protect_role-served :
      (required : Role) (f : Fresh) (r : AdminRequest) (handler : Handler S) (s s' : S)
      (i : Identity) (status : ℕ)
      → protect_role net g required f r handler s ≡ (s', served i status)
      → (IsLocal r i ⊎ (IsOperator r s i ⊎ IsLegacy r i))
        × (allows i.role required ≡ true)
        × ((safe_method r.method || trusted_mutation net r) ≡ true)
  protect_role-served required f r handler s s' i status h =
      let (someone, allowed, trusted) = protect_role_inv required f r handler s s' i status h in
      (identify_sound r s i someone, allowed, trusted)

  -- The two records around a handler.
  abbrev pub IsAudited :
      (AuditRecord → S → Result S) → Fresh → AdminRequest → Handler S → S → S × Response → Type 0
  IsAudited append f r handler s out =
      (i : Identity) × (s1 : S) × (append (attempt_record net g f r i) s ≡ ok s1)
      × (out.1 ≡ served i (handler i s1).1)
      × (out.0
          ≡ or_keep net g (handler i s1).0
              (append (result_record net g f r i (handler i s1).1) (handler i s1).0))

  -- With an auditor, a request with an unsafe method is refused and leaves the state as it was,
  -- or its attempt record was written to the state before the handler ran, the response is the
  -- handler's for that identity, and the state is that of the handler with the result record, or
  -- without it if it cannot be written.
  pub protect_role-IsAudited :
      (append : AuditRecord → S → Result S) (required : Role) (f : Fresh) (r : AdminRequest)
      (handler : Handler S) (s : S)
      → g.auditor ≡ some append
      → safe_method r.method ≡ false
      → (((protect_role net g required f r handler s).0 ≡ s)
          × ((status : ℕ) × ((protect_role net g required f r handler s).1 ≡ refused status)))
        ⊎ IsAudited append f r handler s (protect_role net g required f r handler s)
  unfolding protect_role audit_mutation
  protect_role-IsAudited append required f r handler s audited unsafe =
      elim (sum_cases (identify net g r s)) [
        | inl (status, no_one) ↦ inl (ground arith, (status, ground arith))
        | inr (i, someone) ↦ elim (Bool-cases (allows i.role required && trusted_mutation net r)) [
          | inr no_right ↦ inl (ground arith, (403, ground arith))
          | inl right ↦ elim (Result-cases (append (attempt_record net g f r i) s)) [
            | inl (e, failed) ↦ inl (ground arith, (503, ground arith))
            | inr (s1, done) ↦ inr (i, s1, done, ground arith, ground arith)
          ]
        ]
      ]

  -- A request whose method is safe leaves what its handler leaves.
  pub protect_role_safe :
      (required : Role) (f : Fresh) (r : AdminRequest) (handler : Handler S) (s : S)
      → safe_method r.method ≡ true
      → ((protect_role net g required f r handler s).0 ≡ s)
        ⊎ ((i : Identity) × ((protect_role net g required f r handler s).0 ≡ (handler i s).0))
  unfolding protect_role
  protect_role_safe required f r handler s safe = elim (sum_cases (identify net g r s)) [
    | inl (status, no_one) ↦ inl (ground arith)
    | inr (i, someone) ↦ elim (Bool-cases (allows i.role required)) [
      | inr no_right ↦ inl (ground arith)
      | inl right ↦ inr (i, ground arith)
    ]
  ]

  -- A part of the state that the audit leaves alone is as it was, or as the handler made it.
  pub protect_role-view :
      {X : Type 0} (view : S → X) (change : X → X) (required : Role) (f : Fresh) (r : AdminRequest)
      (handler : Handler S) (s : S)
      → ((i : Identity) (t : S) → view (handler i t).0 ≡ change (view t))
      → ((append : AuditRecord → S → Result S) (a : AuditRecord) (t t' : S)
          → g.auditor ≡ some append
          → append a t ≡ ok t'
          → view t' ≡ view t)
      → (view (protect_role net g required f r handler s).0 ≡ view s)
        ⊎ ((i : Identity) × (status : ℕ) × ((protect_role net g required f r handler s).1
              ≡ served i status)
            × (view (protect_role net g required f r handler s).0 ≡ change (view s)))
  unfolding protect_role audit_mutation
  protect_role-view view change required f r handler s moves keeps =
      elim (sum_cases (identify net g r s)) [
        | inl (status, no_one) ↦ inl (ground arith)
        | inr (i, someone) ↦
            elim (Bool-cases
              (allows i.role required && (safe_method r.method || trusted_mutation net r))) [
                | inr no_right ↦ inl (ground arith)
                | inl right ↦ elim (Bool-cases (safe_method r.method)) [
                  | inl safe ↦ inr (i, (handler i s).1, ground arith, ground (arith, moves i s))
                  | inr unsafe ↦ elim (Option-cases g.auditor) [
                    | inl n ↦ inr (i, (handler i s).1, ground arith, ground (arith, moves i s))
                    | inr (append, audited) ↦
                        elim (Result-cases (append (attempt_record net g f r i) s)) [
                          | inl (e, failed) ↦ inl (ground arith)
                          | inr (s1, done) ↦
                              let before =
                                keeps append (attempt_record net g f r i) s s1 audited done in
                              let h = handler i s1 in
                              elim (Result-cases (append (result_record net g f r i h.1) h.0)) [
                                | inl (e, lost) ↦
                                    inr (i, h.1, ground arith, ground (arith, moves i s1))
                                | inr (s2, kept) ↦
                                    let after =
                                      keeps append (result_record net g f r i h.1) h.0 s2 audited
                                        kept in
                                    inr (i, h.1, ground arith, ground (arith, moves i s1))
                              ]
                        ]
                  ]
                ]
              ]
      ]
