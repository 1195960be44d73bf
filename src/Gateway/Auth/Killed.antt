-- ===== src/Gateway/Auth/Killed.antt =====
-- revocation.go: the kill switch works in this process from the moment that it returns.
use spendlease.Base.{
  ℕ, ◌≡◌, ap, ◌∙◌, inl, inr, Bool, true, ◌&&◌, List, [], ◌∷◌, some, Bytes, str_eq, str_eq_iff,
  str_eq_refl, any, keep, find, arith, starts_with, Bool-cases,
}
use spendlease.Store.{Run, Lease, ok}
use spendlease.Sqlite.Tables.{get_lease_by_token_hash}
use spendlease.Sqlite.Leases.{runs_as}
use spendlease.Gateway.{Gateway, State, Headers, unauthenticated}
use spendlease.Gateway.Auth.{
  authenticate, authenticate_lease, credential_from, revoked, revoke, revoke_all, revoke_runs,
  revoke_principal, is_run_of, lease_token_prefix,
}

revoke-revoked :
    (hash other : Bytes) (st : State)
    → str_eq other hash ≡ true
    → revoked hash (revoke other st) ≡ true
unfolding revoke revoked
revoke-revoked hash other st h = ground arith

-- A hash stays in the set.
revoke_all-keeps :
    (hash : Bytes) (ls : List Lease) (st : State)
    → revoked hash st ≡ true
    → revoked hash (revoke_all ls st) ≡ true
unfolding revoke_all revoke revoked
revoke_all-keeps hash [] st h = h
revoke_all-keeps hash (l ∷ ls) st h =
    revoke_all-keeps hash ls (revoke l.token_hash st) (ground arith)

revoke_runs-keeps :
    (hash : Bytes) (ls : List Lease) (rs : List Run) (st : State)
    → revoked hash st ≡ true
    → revoked hash (revoke_runs ls rs st) ≡ true
unfolding revoke_runs
revoke_runs-keeps hash ls [] st h = h
revoke_runs-keeps hash ls (r ∷ rs) st h =
    let mine = keep (λ l. str_eq l.run_id r.id) ls in
    revoke_runs-keeps hash ls rs (revoke_all mine st) (revoke_all-keeps hash mine st h)

-- A lease of the run has the hash.
abbrev has_lease : Bytes → Bytes → List Lease → Bool
has_lease hash run ls = any (λ l. str_eq l.token_hash hash && str_eq l.run_id run) ls

revoke_all-revoked :
    (hash run : Bytes) (ls : List Lease) (st : State)
    → has_lease hash run ls ≡ true
    → revoked hash (revoke_all (keep (λ l. str_eq l.run_id run) ls) st) ≡ true
unfolding revoke_all
revoke_all-revoked hash run [] st h = absurd (cc h)
revoke_all-revoked hash run (l ∷ ls) st h = elim (Bool-cases (str_eq l.run_id run)) [
  | inr other ↦ rw other (revoke_all-revoked hash run ls st (ground arith))
  | inl mine ↦ elim (Bool-cases (str_eq l.token_hash hash)) [
    | inl same ↦ rw mine (
        revoke_all-keeps hash (keep (λ k. str_eq k.run_id run) ls) (revoke l.token_hash st)
          (revoke-revoked hash l.token_hash st same))
    | inr differs ↦ rw mine (revoke_all-revoked hash run ls (revoke l.token_hash st) (ground arith))
  ]
]

revoke_runs-revoked :
    (hash : Bytes) (ls : List Lease) (rs : List Run) (st : State)
    → any (λ r. has_lease hash r.id ls) rs ≡ true
    → revoked hash (revoke_runs ls rs st) ≡ true
unfolding revoke_runs
revoke_runs-revoked hash ls [] st h = absurd (cc h)
revoke_runs-revoked hash ls (r ∷ rs) st h =
    let mine = keep (λ l. str_eq l.run_id r.id) ls in
    elim (Bool-cases (has_lease hash r.id ls)) [
      | inl found ↦
          revoke_runs-keeps hash ls rs (revoke_all mine st)
            (revoke_all-revoked hash r.id ls st found)
      | inr not_here ↦ revoke_runs-revoked hash ls rs (revoke_all mine st) (ground arith)
    ]

found-has_lease :
    (hash : Bytes) (l : Lease) (ls : List Lease)
    → find (λ k. str_eq k.token_hash hash) ls ≡ some l
    → has_lease hash l.run_id ls ≡ true
found-has_lease hash l [] h = absurd (cc h)
found-has_lease hash l (k ∷ ls) h = elim (Bool-cases (str_eq k.token_hash hash)) [
  | inl same ↦ ground (arith, str_eq_refl l.run_id)
  | inr differs ↦ ground (arith, found-has_lease hash l ls (ground arith))
]

run-has_lease :
    (hash p i : Bytes) (ls : List Lease) (rs : List Run)
    → has_lease hash i ls ≡ true
    → runs_as p rs i ≡ true
    → any (λ r. has_lease hash r.id ls) (keep (is_run_of p) rs) ≡ true
unfolding runs_as
run-has_lease hash p i ls [] h k = absurd (cc k)
run-has_lease hash p i ls (r ∷ rs) h k =
    elim (Bool-cases (str_eq r.id i && str_eq r.principal_id p)) [
      | inl found ↦
          let same = (str_eq_iff r.id i).0 (ground arith) in
          let there : has_lease hash r.id ls ≡ true = ap (λ x. has_lease hash x ls) same ∙ h in
          ground arith
      | inr other ↦ let rest = run-has_lease hash p i ls rs h (ground arith) in ground arith
    ]

revoke_principal-revoked :
    (format_time : ℕ → Bytes) (at : ℕ) (p hash : Bytes) (l : Lease) (st : State)
    → get_lease_by_token_hash hash st.db ≡ ok l
    → runs_as p st.db.runs l.run_id ≡ true
    → revoked hash (revoke_principal format_time at p st).1 ≡ true
unfolding revoke_principal revoked get_lease_by_token_hash
revoke_principal-revoked format_time at p hash l st f r =
    revoke_runs-revoked hash st.db.leases (keep (is_run_of p) st.db.runs) st (
      run-has_lease hash p l.run_id st.db.leases st.db.runs
        (found-has_lease hash l st.db.leases (ground arith)) r)

revoked-authenticate :
    (digest : Bytes → Bytes) (g : Gateway) (now : ℕ) (h : Headers) (t : Bytes) (st : State)
    → credential_from h ≡ some t
    → starts_with lease_token_prefix t ≡ true
    → revoked (digest t) st ≡ true
    → authenticate digest g now h st ≡ (st, inl unauthenticated)
unfolding authenticate authenticate_lease
revoked-authenticate digest g now h t st c l r = ground (arith, c, l, r)

-- After RevokePrincipal, authentication refuses every request that presents a lease token whose
-- stored lease belongs to a run of that principal, at every instant and whatever the store says
-- of expiry, and changes nothing.
pub revoke_principal-authenticate :
    (digest : Bytes → Bytes) (format_time : ℕ → Bytes) (g : Gateway) (at now : ℕ) (p t : Bytes)
    (l : Lease) (h : Headers) (st : State)
    → get_lease_by_token_hash (digest t) st.db ≡ ok l
    → runs_as p st.db.runs l.run_id ≡ true
    → credential_from h ≡ some t
    → starts_with lease_token_prefix t ≡ true
    → let killed = (revoke_principal format_time at p st).1 in
      authenticate digest g now h killed ≡ (killed, inl unauthenticated)
revoke_principal-authenticate digest format_time g at now p t l h st f r c s =
    revoked-authenticate digest g now h t (revoke_principal format_time at p st).1 c s
      (revoke_principal-revoked format_time at p (digest t) l st f r)
