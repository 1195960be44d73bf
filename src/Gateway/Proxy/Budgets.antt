-- ===== src/Gateway/Proxy/Budgets.antt =====
-- Every interleaving of the gateway's handlers with the other calls of the store.
use mathlib.Core.Path.{subst}
use spendlease.Base.{
  ℕ, ◌≡◌, refl, sym, ap, ◌∙◌, ◌⊎◌, inl, inr, true, List, [], ◌∷◌, some, Bytes, arith, Option-cases,
  Bool-cases, starts_with, keep, str_eq,
}
use spendlease.Base.Int.{pos, ◌+ℤ◌, ◌≤ℤ◌}
use spendlease.Ledger.{Platform}
use spendlease.Store.{Principal, Run, Lease, ok, Result-cases, is_empty}
use spendlease.Sqlite.Tables.{Db, empty_db, find_run, get_run, get_lease, get_principal_by_key_hash}
use spendlease.Sqlite.Runs.{create_run}
use spendlease.Sqlite.Leases.{revoke_lease, revoke_leases_for_principal}
use spendlease.Sqlite.Reservations.{expire_pending_reservations}
use spendlease.Sqlite.Usage.{spent_under, held_under}
use spendlease.Sqlite.Budget.Reach.{Step, Reach, here, next, reachable_within}
use spendlease.Gateway.{Gateway, Recorder, Context, State, Headers, header}
use spendlease.Gateway.Record.{
  is_enforce, resolve_run, implicit_run, implicit_run_id, new_implicit_run,
}
use spendlease.Gateway.Auth.{
  authenticate, authenticate_key, credential_from, revoke_principal, revoke_runs, revoke_all,
  kill_lease, revoke, run_header, lease_token_prefix, principal_key_prefix,
}
use spendlease.Gateway.Proxy.{handle_proxy, finish, Request, Forwarded, VendorResult}
use spendlease.Gateway.Proxy.Steps.{handle_proxy-Reach, finish-Reach, IsPaid}

implicit_run_cases :
    (rc : Recorder) (now : ℕ) (a : Principal) (s : Db)
    → ((implicit_run rc now a s).0 ≡ s)
      ⊎ (create_run (new_implicit_run rc now a) s ≡ ok (implicit_run rc now a s).0)
unfolding implicit_run
implicit_run_cases rc now a s = elim (Result-cases (create_run (new_implicit_run rc now a) s)) [
  | inl (e, h) ↦ inl (ground arith)
  | inr (s', h) ↦ elim (Result-cases (get_run (implicit_run_id a.id) s)) [
    | inr (x, k) ↦ inl (ground arith)
    | inl (e, k) ↦ ground arith
  ]
]

resolve_run-Reach :
    (p : Platform) (o s : Db) (rc : Recorder) (now : ℕ) (a : Principal) (requested : Bytes)
    → Reach p o s
    → Reach p o (resolve_run rc now a requested s).0
unfolding resolve_run
resolve_run-Reach p o s rc now a requested r = elim (Bool-cases (is_empty requested)) [
  | inr named ↦ subst (Reach p o) (ground arith) r
  | inl unnamed ↦
      let same : (resolve_run rc now a requested s).0 ≡ (implicit_run rc now a s).0 =
        ground arith in
      subst (Reach p o) (sym same) (elim (implicit_run_cases rc now a s) [
        | inl unchanged ↦ subst (Reach p o) (sym unchanged) r
        | inr created ↦ next r (Step.new_run (new_implicit_run rc now a) created)
      ])
]

authenticate_key_cases :
    (g : Gateway) (now : ℕ) (hash : Bytes) (h : Headers) (st : State)
    → ((authenticate_key g now hash h st).0.db ≡ st.db)
      ⊎ ((rc : Recorder) × (a : Principal) × ((authenticate_key g now hash h st).0.db
            ≡ (resolve_run rc now a (header run_header h) st.db).0))
unfolding authenticate_key
authenticate_key_cases g now hash h st =
    elim (Result-cases (get_principal_by_key_hash hash st.db)) [
      | inl (e, k) ↦ inl (ground arith)
      | inr (a, k) ↦ elim (Option-cases g.recorder) [
        | inl n ↦ inl (ground arith)
        | inr (rc, n) ↦ inr (rc, a, ground arith)
      ]
    ]

authenticate_cases :
    (digest : Bytes → Bytes) (g : Gateway) (now : ℕ) (h : Headers) (st : State)
    → ((authenticate digest g now h st).0.db ≡ st.db)
      ⊎ ((hash : Bytes) × ((authenticate digest g now h st).0.db
            ≡ (authenticate_key g now hash h st).0.db))
unfolding authenticate
authenticate_cases digest g now h st = elim (Option-cases (credential_from h)) [
  | inl n ↦ inl (ground arith)
  | inr (x, n) ↦ elim (Bool-cases (starts_with lease_token_prefix x)) [
    | inl l ↦ inl (ground arith)
    | inr l ↦ elim (Bool-cases (starts_with principal_key_prefix x)) [
      | inl k ↦ inr (digest x, ground arith)
      | inr k ↦ inl (ground arith)
    ]
  ]
]

authenticate-Reach :
    (p : Platform) (o : Db) (g : Gateway) (now : ℕ) (h : Headers) (st : State)
    → Reach p o st.db
    → Reach p o (authenticate p.digest g now h st).0.db
authenticate-Reach p o g now h st r = elim (authenticate_cases p.digest g now h st) [
  | inl same ↦ subst (Reach p o) (sym same) r
  | inr (hash, keyed) ↦ elim (authenticate_key_cases g now hash h st) [
    | inl same ↦ subst (Reach p o) (sym (keyed ∙ same)) r
    | inr (rc, a, resolved) ↦
        subst (Reach p o) (sym (keyed ∙ resolved))
          (resolve_run-Reach p o st.db rc now a (header run_header h) r)
  ]
]

revoke_all-db : (ls : List Lease) (st : State) → (revoke_all ls st).db ≡ st.db
unfolding revoke_all revoke
revoke_all-db [] st = refl
revoke_all-db (l ∷ ls) st = revoke_all-db ls (revoke l.token_hash st)

revoke_runs-db : (ls : List Lease) (rs : List Run) (st : State) → (revoke_runs ls rs st).db ≡ st.db
unfolding revoke_runs
revoke_runs-db ls [] st = refl
revoke_runs-db ls (r ∷ rs) st =
    let mine = keep (λ l. str_eq l.run_id r.id) ls in
    revoke_runs-db ls rs (revoke_all mine st) ∙ revoke_all-db mine st

revoke_principal-db :
    (format_time : ℕ → Bytes) (now : ℕ) (i : Bytes) (st : State)
    → (revoke_principal format_time now i st).1.db
      ≡ (revoke_leases_for_principal format_time i now st.db).1
unfolding revoke_principal
revoke_principal-db format_time now i st =
    ap (λ s. (revoke_leases_for_principal format_time i now s).1)
      (revoke_runs-db st.db.leases (keep (λ r. str_eq r.principal_id i) st.db.runs) st)

kill_lease_cases :
    (now : ℕ) (i : Bytes) (st : State)
    → ((kill_lease now i st).0.db ≡ st.db)
      ⊎ (revoke_lease i now st.db ≡ ok (kill_lease now i st).0.db)
unfolding kill_lease revoke
kill_lease_cases now i st = elim (Result-cases (get_lease i st.db)) [
  | inl (e, k) ↦ inl (ground arith)
  | inr (l, k) ↦ elim (Result-cases (revoke_lease i now st.db)) [
    | inl (e, n) ↦ inl (ground arith)
    | inr (s, n) ↦ inr (ground arith)
  ]
]

-- One event of the gateway: a request is authenticated, decided, or ended; a principal or a lease is
-- revoked; the sweeper runs; or the control plane calls a method of the store. Requests are those of
-- principals in enforce mode.
pub data GatewayStep (p : Platform) (g : Gateway) : State → State → Type 0 where
  authenticates :
      (st : State) (now : ℕ) (h : Headers) → GatewayStep p g st (authenticate p.digest g now h st).0
  decides :
      (st : State) (id : Bytes) (now : ℕ) (c : Context) (q : Request)
      → is_enforce c.principal.mode ≡ true
      → GatewayStep p g st (record st { db = (handle_proxy g id now c q st.db).0 })
  ends :
      (st : State) (now at : ℕ) (c : Context) (f : Forwarded) (result : VendorResult)
      → IsPaid p g now c f result st.db
      → GatewayStep p g st (record st { db = finish p g now at c f result st.db })
  kills :
      (st : State) (now : ℕ) (i : Bytes)
      → GatewayStep p g st (revoke_principal p.format_time now i st).1
  kills_lease : (st : State) (now : ℕ) (i : Bytes) → GatewayStep p g st (kill_lease now i st).0
  sweeps :
      (st : State) (now : ℕ)
      → GatewayStep p g st
          (record st { db = (expire_pending_reservations p.format_time now st.db).1 })
  administers : (st : State) (s : Db) → Step p st.db s → GatewayStep p g st (record st { db = s })

GatewayStep-Reach :
    (p : Platform) (g : Gateway) (o : Db) {st st' : State}
    → GatewayStep p g st st'
    → Reach p o st.db
    → Reach p o st'.db
GatewayStep-Reach p g o (authenticates st now h) r = authenticate-Reach p o g now h st r
GatewayStep-Reach p g o (decides st id now c q m) r = handle_proxy-Reach p o st.db g id now c q m r
GatewayStep-Reach p g o (ends st now at c f result paid) r =
    finish-Reach p o st.db g now at c f result paid r
GatewayStep-Reach p g o (kills st now i) r =
    subst (Reach p o) (sym (revoke_principal-db p.format_time now i st))
      (next r (Step.kill st.db i now))
GatewayStep-Reach p g o (kills_lease st now i) r = elim (kill_lease_cases now i st) [
  | inl same ↦ subst (Reach p o) (sym same) r
  | inr gone ↦ next r (Step.revoke i now gone)
]
GatewayStep-Reach p g o (sweeps st now) r = next r (Step.expire st.db now)
GatewayStep-Reach p g o (administers st s step) r = next r step

abbrev pub fresh_state : State
fresh_state = record { db = empty_db; hashes = [] }

pub data GatewayReach (p : Platform) (g : Gateway) : State → Type 0 where
  started : GatewayReach p g fresh_state
  runs_on : {st st' : State} → GatewayReach p g st → GatewayStep p g st st' → GatewayReach p g st'

pub GatewayReach-Reach :
    (p : Platform) (g : Gateway) {st : State} → GatewayReach p g st → Reach p empty_db st.db
GatewayReach-Reach p g started = here
GatewayReach-Reach p g (runs_on r step) =
    GatewayStep-Reach p g empty_db step (GatewayReach-Reach p g r)

-- For every state that the gateway reaches from the empty store by authenticating, deciding and
-- ending requests, revoking a principal or a lease, sweeping expired holds and calls of the
-- store's methods by the control plane, in any interleaving, every run of the table has the
-- budget zero (no limit), or what is settled and held in its subtree is at most its budget. The
-- requests are decided for principals in enforce mode, and a successful answer to a metered
-- request ends with a hold that was charged before or covers the charge; the control plane's
-- calls are those of reachable_within.
pub served_within :
    (p : Platform) (g : Gateway) (st : State) (i : Bytes) (n : Run)
    → GatewayReach p g st
    → find_run i st.db.runs ≡ some n
    → (n.budget ≡ pos 0) ⊎ (spent_under st.db n.id +ℤ held_under st.db n.id ≤ℤ n.budget)
served_within p g st i n r f = reachable_within p st.db i n (GatewayReach-Reach p g r) f
