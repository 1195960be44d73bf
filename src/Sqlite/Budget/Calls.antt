-- ===== src/Sqlite/Budget/Calls.antt =====
-- The methods that touch neither budgets nor what counts against them, or that insert several rows.
use mathlib.Core.Path.{subst}
use spendlease.Base.{ℕ, ◌≡◌, sym, inl, inr, List, ◌∷◌, arith, Bytes, Option-cases}
use spendlease.Store.{Principal, Run, Lease, Mode, BudgetEvent, ok, Result-cases}
use spendlease.Sqlite.Tables.{Db, find_lease}
use spendlease.Sqlite.Principals.{
  insert_principal, create_principal, create_principal_run_lease, set_principal_mode,
}
use spendlease.Sqlite.Runs.{insert_run}
use spendlease.Sqlite.Leases.{insert_lease, create_lease, revoke_lease, revoke_leases_for_principal}
use spendlease.Sqlite.Reserve.{record_budget_event}
use spendlease.Sqlite.Usage.{spent_under, held_under}
use spendlease.Sqlite.Budget.Solvent.{IsSolvent}
use spendlease.Sqlite.Budget.Hierarchy.{insert_run-IsSolvent}

-- The tables that the invariant does not read.
module _ (s : Db) (v : IsSolvent s) where
  pub with_principals : (ps : List Principal) → IsSolvent (record s { principals = ps })
  unfolding spent_under held_under
  with_principals ps = (
    record { rooted = v.0.rooted; charged = v.0.charged; held = v.0.held; amounts = v.0.amounts },
    v.1,
  )

  pub with_leases : (ls : List Lease) → IsSolvent (record s { leases = ls })
  unfolding spent_under held_under
  with_leases ls = (
    record { rooted = v.0.rooted; charged = v.0.charged; held = v.0.held; amounts = v.0.amounts },
    v.1,
  )

  pub with_events : (es : List BudgetEvent) → IsSolvent (record s { budget_events = es })
  unfolding spent_under held_under
  with_events es = (
    record { rooted = v.0.rooted; charged = v.0.charged; held = v.0.held; amounts = v.0.amounts },
    v.1,
  )

pub insert_principal_inv :
    (p : Principal) (s s' : Db)
    → insert_principal p s ≡ ok s'
    → s' ≡ record s { principals = p ∷ s.principals }
unfolding insert_principal
insert_principal_inv p s s' h = ground arith

pub insert_lease_inv :
    (l : Lease) (s s' : Db) → insert_lease l s ≡ ok s' → s' ≡ record s { leases = l ∷ s.leases }
unfolding insert_lease
insert_lease_inv l s s' h = ground arith

pub create_principal_run_lease_inv :
    (p : Principal) (r : Run) (l : Lease) (s s' : Db)
    → create_principal_run_lease p r l s ≡ ok s'
    → (s1 : Db) × (s2 : Db) × (insert_principal p s ≡ ok s1)
      × (insert_run r s1 ≡ ok s2)
      × (insert_lease l s2 ≡ ok s')
unfolding create_principal_run_lease
create_principal_run_lease_inv p r l s s' h = elim (Result-cases (insert_principal p s)) [
  | inl (e, failed) ↦ absurd (ground arith)
  | inr (s1, one) ↦ elim (Result-cases (insert_run r s1)) [
    | inl (e, failed) ↦ absurd (ground arith)
    | inr (s2, two) ↦ (s1, s2, one, two, ground arith)
  ]
]

pub create_principal_inv :
    (p : Principal) (s s' : Db) → create_principal p s ≡ ok s' → insert_principal p s ≡ ok s'
unfolding create_principal
create_principal_inv p s s' h = ground arith

pub create_lease_inv : (l : Lease) (s s' : Db) → create_lease l s ≡ ok s' → insert_lease l s ≡ ok s'
unfolding create_lease
create_lease_inv l s s' h = ground arith

pub insert_principal-IsSolvent :
    (p : Principal) (s s' : Db) → insert_principal p s ≡ ok s' → IsSolvent s → IsSolvent s'
insert_principal-IsSolvent p s s' h v =
    subst IsSolvent (sym (insert_principal_inv p s s' h)) (with_principals s v (p ∷ s.principals))

pub insert_lease-IsSolvent :
    (l : Lease) (s s' : Db) → insert_lease l s ≡ ok s' → IsSolvent s → IsSolvent s'
insert_lease-IsSolvent l s s' h v =
    subst IsSolvent (sym (insert_lease_inv l s s' h)) (with_leases s v (l ∷ s.leases))

pub set_principal_mode_inv :
    (i : Bytes) (m : Mode) (s s' : Db)
    → set_principal_mode i m s ≡ ok s'
    → (ps : List Principal) × (s' ≡ record s { principals = ps })
unfolding set_principal_mode
set_principal_mode_inv i m s s' h = (s'.principals, ground arith)

pub revoke_lease_inv :
    (i : Bytes) (at : ℕ) (s s' : Db)
    → revoke_lease i at s ≡ ok s'
    → (ls : List Lease) × (s' ≡ record s { leases = ls })
unfolding revoke_lease
revoke_lease_inv i at s s' h = (
  s'.leases,
  elim (Option-cases (find_lease i s.leases)) [
    | inl missing ↦ ground arith
    | inr (l, found) ↦ ground arith
  ],
)

pub record_budget_event_inv :
    (e : BudgetEvent) (s s' : Db)
    → record_budget_event e s ≡ ok s'
    → (es : List BudgetEvent) × (s' ≡ record s { budget_events = es })
unfolding record_budget_event
record_budget_event_inv e s s' h = (s'.budget_events, ground arith)

pub new_agent-IsSolvent :
    (a : Principal) (r : Run) (l : Lease) (s s' : Db)
    → create_principal_run_lease a r l s ≡ ok s'
    → IsSolvent s
    → IsSolvent s'
new_agent-IsSolvent a r l s s' h v =
    let (s1, s2, one, two, three) = create_principal_run_lease_inv a r l s s' h in
    insert_lease-IsSolvent l s2 s' three
      (insert_run-IsSolvent r s1 s2 two (insert_principal-IsSolvent a s s1 one v))

pub kill-IsSolvent :
    (format_time : ℕ → Bytes) (i : Bytes) (at : ℕ) (s : Db)
    → IsSolvent s
    → IsSolvent (revoke_leases_for_principal format_time i at s).1
unfolding revoke_leases_for_principal
kill-IsSolvent format_time i at s v =
    with_leases s v (revoke_leases_for_principal format_time i at s).1.leases
