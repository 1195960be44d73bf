-- ===== src/Gateway/Auth/Sound.antt =====
-- auth.go: what an accepted credential stands for.
use spendlease.Base.{
  ℕ, ◌≡◌, inl, inr, true, false, not, some, Bytes, arith, Option-cases, Bool-cases, starts_with,
  ◌||◌,
}
use spendlease.Store.{Run, Lease, ok, Result-cases, is_active, lease_active}
use spendlease.Sqlite.Tables.{Db, get_run, get_principal, get_lease_by_token_hash}
use spendlease.Gateway.{Gateway, State, Context, Headers}
use spendlease.Gateway.Auth.{
  authenticate, authenticate_lease, lease_context, credential_from, revoked, lease_token_prefix,
}

-- The lease has the hash and is active now, its run is active, and the principal is the run's.
pub record IsLeased (now : ℕ) (hash : Bytes) (s : Db) (c : Context) : Type 0 where
  pub lease : Lease
  pub run : Run
  pub carried : c.lease ≡ some lease
  pub charged : c.run_id ≡ run.id
  pub lease_found : get_lease_by_token_hash hash s ≡ ok lease
  pub lease_live : lease_active lease now ≡ true
  pub run_found : get_run lease.run_id s ≡ ok run
  pub run_live : is_active run.status ≡ true
  pub principal_found : get_principal run.principal_id s ≡ ok c.principal

lease_context-IsLeased :
    (now : ℕ) (hash : Bytes) (s : Db) (c : Context)
    → lease_context now hash s ≡ some c
    → IsLeased now hash s c
unfolding lease_context
lease_context-IsLeased now hash s c h = elim (Result-cases (get_lease_by_token_hash hash s)) [
  | inl (e, a) ↦ absurd (ground arith)
  | inr (l, a) ↦ elim (Bool-cases (lease_active l now)) [
    | inr b ↦ absurd (ground arith)
    | inl b ↦ elim (Result-cases (get_run l.run_id s)) [
      | inl (e, d) ↦ absurd (ground arith)
      | inr (r, d) ↦ elim (Bool-cases (is_active r.status)) [
        | inr f ↦ absurd (ground arith)
        | inl f ↦ elim (Result-cases (get_principal r.principal_id s)) [
          | inl (e, k) ↦ absurd (ground arith)
          | inr (p, k) ↦ record {
            lease = l;
            run = r;
            carried = ground arith;
            charged = ground arith;
            lease_found = a;
            lease_live = b;
            run_found = d;
            run_live = f;
            principal_found = ground arith;
          }
        ]
      ]
    ]
  ]
]

-- If authentication accepts a presented lease token, the state is unchanged, the token's hash is
-- not revoked in memory, and the store has a lease with that hash that is active now, whose run
-- is active and is the run that is charged, and whose run's principal is the one that is attached
-- to the request.
pub authenticate-IsLeased :
    (digest : Bytes → Bytes) (g : Gateway) (now : ℕ) (h : Headers) (t : Bytes) (st st' : State)
    (c : Context)
    → credential_from h ≡ some t
    → starts_with lease_token_prefix t ≡ true
    → authenticate digest g now h st ≡ (st', inr c)
    → (st' ≡ st) × (revoked (digest t) st ≡ false) × IsLeased now (digest t) st.db c
unfolding authenticate authenticate_lease
authenticate-IsLeased digest g now h t st st' c k l e =
    elim (Bool-cases (revoked (digest t) st || not g.has_leases)) [
      | inl x ↦ absurd (ground (arith, k, l, e))
      | inr x ↦ elim (Option-cases (lease_context now (digest t) st.db)) [
        | inl n ↦ absurd (ground (arith, k, l, e))
        | inr (d, n) ↦ (
          ground (arith, k, l, e),
          ground arith,
          lease_context-IsLeased now (digest t) st.db c (ground (arith, k, l, e)),
        )
      ]
    ]
