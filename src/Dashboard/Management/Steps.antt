-- ===== src/Dashboard/Management/Steps.antt =====
-- management.go: what a form does to the store is one call of a method, or nothing.
use mathlib.Core.Path.{subst}
use spendlease.Base.{
  ◌≡◌, refl, inl, inr, Option, none, some, Bytes, arith, Bool-cases, Option-cases,
}
use spendlease.Ledger.{Platform}
use spendlease.Store.{Run, Result-cases, mode_valid, is_active}
use spendlease.Money.{trim_space}
use spendlease.Sqlite.Tables.{Db, get_principal, get_run}
use spendlease.Sqlite.Principals.{create_principal_run_lease, set_principal_mode}
use spendlease.Sqlite.Runs.{create_run, close_run}
use spendlease.Sqlite.Leases.{create_lease}
use spendlease.Sqlite.Budget.Reach.{Step, IsStep}
use spendlease.Dashboard.Management.{Desk, Form, positive_usd, mode_of}
use spendlease.Dashboard.Management.Forms.{
  requested_agent, handle_create_agent, new_run_of, handle_desk_run, desk_lease, issue_desk_lease,
  handle_desk_lease, handle_desk_close, handle_set_mode,
}

module _ (p : Platform) (d : Desk) where
  pub handle_create_agent-IsStep :
      (f : Option Form) (s : Db) → IsStep p s (handle_create_agent d f s).0
  unfolding handle_create_agent
  handle_create_agent-IsStep none s = inl refl
  handle_create_agent-IsStep (some f) s = elim (Option-cases (requested_agent d f)) [
    | inl n ↦ inl (ground arith)
    | inr (a, n) ↦ elim (Result-cases (create_principal_run_lease a.principal a.run a.lease s)) [
      | inl (e, c) ↦ inl (ground arith)
      | inr (s', c) ↦
          let same : s' ≡ (handle_create_agent d (some f) s).0 = ground arith in
          inr (subst (Step p s) same (Step.new_agent a.principal a.run a.lease c))
    ]
  ]

  pub handle_desk_run-IsStep :
      (i : Bytes) (f : Option Form) (s : Db) → IsStep p s (handle_desk_run p.format_time d i f s).0
  unfolding handle_desk_run
  handle_desk_run-IsStep i none s = inl refl
  handle_desk_run-IsStep i (some f) s = elim (Option-cases (positive_usd f.budget_usd)) [
    | inl n ↦ inl (ground arith)
    | inr (v, n) ↦ elim (Result-cases (get_principal i s)) [
      | inl (e, k) ↦ inl (ground arith)
      | inr (a, k) ↦ elim (Result-cases (create_run (new_run_of d i v) s)) [
        | inl (e, c) ↦ inl (ground arith)
        | inr (s', c) ↦
            let same : s' ≡ (handle_desk_run p.format_time d i (some f) s).0 = ground arith in
            inr (subst (Step p s) same (Step.new_run (new_run_of d i v) c))
      ]
    ]
  ]

  issue_desk_lease-IsStep :
      (r : Run) (f : Form) (s : Db) → IsStep p s (issue_desk_lease p.format_time d r f s).0
  unfolding issue_desk_lease
  issue_desk_lease-IsStep r f s = elim (Bool-cases (is_active r.status)) [
    | inr closed ↦ inl (ground arith)
    | inl open_run ↦ elim (Option-cases (desk_lease d r.id f)) [
      | inl n ↦ inl (ground arith)
      | inr (l, n) ↦ elim (Result-cases (create_lease l s)) [
        | inl (e, c) ↦ inl (ground arith)
        | inr (s', c) ↦
            let same : s' ≡ (issue_desk_lease p.format_time d r f s).0 = ground arith in
            inr (subst (Step p s) same (Step.new_lease l c))
      ]
    ]
  ]

  pub handle_desk_lease-IsStep :
      (i : Bytes) (f : Option Form) (s : Db)
      → IsStep p s (handle_desk_lease p.format_time d i f s).0
  unfolding handle_desk_lease
  handle_desk_lease-IsStep i f s = elim (Result-cases (get_run i s)) [
    | inl (e, k) ↦ inl (ground arith)
    | inr (r, k) ↦ elim (Option-cases f) [
      | inl n ↦ inl (ground arith)
      | inr (form, n) ↦
          let same : (issue_desk_lease p.format_time d r form s).0
              ≡ (handle_desk_lease p.format_time d i f s).0 =
            ground arith in
          subst (IsStep p s) same (issue_desk_lease-IsStep r form s)
    ]
  ]

  pub handle_desk_close-IsStep :
      (i : Bytes) (s : Db) → IsStep p s (handle_desk_close p.format_time d i s).0
  unfolding handle_desk_close
  handle_desk_close-IsStep i s = elim (Result-cases (get_run i s)) [
    | inl (e, k) ↦ inl (ground arith)
    | inr (r, k) ↦ elim (Result-cases (close_run d.now r.id s)) [
      | inl (e, c) ↦ inl (ground arith)
      | inr (s', c) ↦
          let same : s' ≡ (handle_desk_close p.format_time d i s).0 = ground arith in
          inr (subst (Step p s) same (Step.close d.now r.id c))
    ]
  ]

  pub handle_set_mode-IsStep :
      (i : Bytes) (f : Form) (s : Db) → IsStep p s (handle_set_mode i f s).0
  unfolding handle_set_mode
  handle_set_mode-IsStep i f s = elim (Bool-cases (mode_valid (mode_of (trim_space f.mode)))) [
    | inr other ↦ inl (ground arith)
    | inl valid ↦ elim (Result-cases (set_principal_mode i (mode_of (trim_space f.mode)) s)) [
      | inl (e, c) ↦ inl (ground arith)
      | inr (s', c) ↦
          let same : s' ≡ (handle_set_mode i f s).0 = ground arith in
          inr (subst (Step p s) same (Step.mode i (mode_of (trim_space f.mode)) c))
    ]
  ]
