-- ===== src/Gateway/Auth.antt =====
-- auth.go and revocation.go: from a credential to a principal and a run, and the kill switch.
pub mod Stripped
pub mod Killed
pub mod Sound
use spendlease.Base.{
  ℕ, ◌≡◌, refl, Bool, true, false, not, ◌&&◌, ◌||◌, List, [], ◌∷◌, ◌++◌, Option, none, some, Bytes,
  codes, str_eq, starts_with, ◌==◌, if◌then◌else◌, length, any, keep, ◌⊎◌, inl, inr,
}
use spendlease.Money.{trim_space}
use spendlease.Store.{Principal, Run, Lease, Result, ok, err, ◌>>=◌, is_active, lease_active}
use spendlease.Sqlite.Tables.{
  Db, get_run, get_principal, get_principal_by_key_hash, get_lease_by_token_hash, get_lease,
}
use spendlease.Sqlite.Leases.{revoke_lease, revoke_leases_for_principal}
use spendlease.Gateway.{
  Gateway, State, Context, Headers, header, ErrorType, unauthenticated, unknown_run,
}
use spendlease.Gateway.Record.{resolve_run}

abbrev pub authorization : Bytes
authorization = codes "Authorization"

abbrev pub api_key : Bytes
api_key = codes "X-Api-Key"

-- `strings.CutPrefix`
unfoldable pub cut_prefix : Bytes → Bytes → Option Bytes
cut_prefix [] s = some s
cut_prefix (x ∷ xs) [] = none
cut_prefix (x ∷ xs) (y ∷ ys) = if x == y then cut_prefix xs ys else none

abbrev pub some_text : Bytes → Option Bytes
some_text [] = none
some_text (c ∷ s) = some (c ∷ s)

abbrev pub or_else {ℓ} : {A : Type ℓ} → Option A → Option A → Option A
or_else none other = other
or_else (some a) other = some a

-- The token behind the scheme.
unfoldable pub bearer_token : Bytes → Option Bytes
unfolding cut_prefix
bearer_token h = elim (cut_prefix (codes "Bearer ") h) [
  | none ↦ none
  | some after ↦ some_text (trim_space after)
]

-- A header without a scheme: one word.
unfoldable pub bare_token : Bytes → Option Bytes
bare_token h = if any (λ c. c == b' ') (trim_space h) then none else some_text (trim_space h)

unfoldable pub credential_from : Headers → Option Bytes
unfolding header bearer_token bare_token
credential_from h =
    let auth = header authorization h in
    or_else (or_else (bearer_token auth) (bare_token auth))
      (some_text (trim_space (header api_key h)))

-- `h.Del`
unfoldable pub del : Bytes → Headers → Headers
del name h = keep (λ (k, _). not (str_eq k name)) h

unfoldable pub strip_client_credentials : Headers → Headers
unfolding del
strip_client_credentials h = del (codes "Api-Key") (del api_key (del authorization h))

unfoldable pub revoked : Bytes → State → Bool
revoked hash st = any (λ h. str_eq h hash) st.hashes

unfoldable pub revoke : Bytes → State → State
revoke hash st = record st { hashes = hash ∷ st.hashes }

abbrev pub lease_token_prefix : Bytes
lease_token_prefix = codes "sll_"

abbrev pub principal_key_prefix : Bytes
principal_key_prefix = codes "slk_"

-- The lease of the hash, its run and its principal, if all three may be used.
unfoldable pub lease_context : ℕ → Bytes → Db → Option Context
unfolding lease_active
lease_context now hash s = elim (get_lease_by_token_hash hash s) [
  | err e ↦ none
  | ok l ↦ if not (lease_active l now) then none else elim (get_run l.run_id s) [
    | err e ↦ none
    | ok r ↦ if not (is_active r.status) then none else elim (get_principal r.principal_id s) [
      | err e ↦ none
      | ok p ↦ some (record { principal = p; run_id = r.id; lease = some l })
    ]
  ]
]

-- The branch of a lease token. Every command gives the gateway its set of revoked hashes, so there is one.
unfoldable pub authenticate_lease : Gateway → ℕ → Bytes → State → ErrorType ⊎ Context
unfolding revoked lease_context
authenticate_lease g now hash st =
    if revoked hash st || not g.has_leases
    then inl unauthenticated
    else elim (lease_context now hash st.db) [ none ↦ inl unauthenticated | some c ↦ inr c ]

abbrev pub run_header : Bytes
run_header = codes "X-Spendlease-Run"

-- The branch of a principal's key: the run is the one that the header names, or the implicit one.
unfoldable pub authenticate_key :
    Gateway → ℕ → Bytes → Headers → State → State × (ErrorType ⊎ Context)
unfolding header
authenticate_key g now hash h st = elim (get_principal_by_key_hash hash st.db) [
  | err e ↦ (st, inl unauthenticated)
  | ok p ↦ elim g.recorder [
    | none ↦ (st, inr (record { principal = p; run_id = []; lease = none }))
    | some rc ↦
        let (s, run) = resolve_run rc now p (header run_header h) st.db in
        (
          record st { db = s },
          elim run [
            | inl e ↦ inl unknown_run
            | inr i ↦ inr (record { principal = p; run_id = i; lease = none })
          ],
        )
  ]
]

-- `authenticate`; the digest is SHA-256 in hexadecimal.
unfoldable pub authenticate :
    (Bytes → Bytes) → Gateway → ℕ → Headers → State → State × (ErrorType ⊎ Context)
unfolding credential_from authenticate_lease authenticate_key
authenticate digest g now h st = elim (credential_from h) [
  | none ↦ (st, inl unauthenticated)
  | some presented ↦
      if starts_with lease_token_prefix presented
      then (st, authenticate_lease g now (digest presented) st)
      else if not (starts_with principal_key_prefix presented)
      then (st, inl unauthenticated)
      else authenticate_key g now (digest presented) h st
]

abbrev pub is_run_of : Bytes → Run → Bool
is_run_of p r = str_eq r.principal_id p

-- Every lease of the runs is put into the set.
unfoldable pub revoke_all : List Lease → State → State
unfolding revoke
revoke_all [] st = st
revoke_all (l ∷ ls) st = revoke_all ls (revoke l.token_hash st)

unfoldable pub revoke_runs : List Lease → List Run → State → State
unfolding revoke_all
revoke_runs ls [] st = st
revoke_runs ls (r ∷ rs) st = revoke_runs ls rs (revoke_all (keep (λ l. str_eq l.run_id r.id) ls) st)

-- `RevokePrincipal`: the memory first, then the store. The listings are those of one instant.
unfoldable pub revoke_principal : (ℕ → Bytes) → ℕ → Bytes → State → ℕ × State
unfolding revoke_runs
revoke_principal format_time now p st =
    let st' = revoke_runs st.db.leases (keep (is_run_of p) st.db.runs) st in
    let (n, s) = revoke_leases_for_principal format_time p now st'.db in (n, record st' { db = s })

-- `KillSwitch.RevokeLease`: a failure of the store leaves the hash in the set.
unfoldable pub kill_lease : ℕ → Bytes → State → State × Result Lease
unfolding revoke
kill_lease now i st = elim (get_lease i st.db) [
  | err e ↦ (st, err e)
  | ok l ↦
      let st' = revoke l.token_hash st in
      elim (revoke_lease i now st'.db) [
        | err e ↦ (st', err e)
        | ok s ↦ (record st' { db = s }, get_lease i s)
      ]
]
