-- ===== src/Vault/Rotation.antt =====
-- vault.go: what a rotation of the master key leaves.
use spendlease.Base.{
  ℕ, ◌≡◌, sym, ◌∙◌, ◌⊎◌, inl, inr, true, [], some, Bytes, str_eq, str_eq_refl, length, arith,
  Option-cases, sum_cases,
}
use spendlease.Sqlite.Credentials.{
  CredentialDb, find_credential, replaced, get_credential, sort_by_provider, rotate_rows,
  rotate_credentials,
}
use spendlease.Sqlite.Credentials.Rows.{
  distinct, find-sort, distinct-sort, rotate_rows_other, rotate_rows_found, rotate_rows_failed,
}
use spendlease.Vault.{Credential, VaultError, undecryptable, Aead, IsAead, Vault, new_keyring}
use spendlease.Vault.Keyring.{decrypt, encrypt, reencrypt, rotate, get_key}

module _ (a : Aead) (v : Vault) where
  reencrypt_provider :
      (nonces : Bytes → Bytes) (now : ℕ) (c r : Credential)
      → reencrypt a v nonces now c ≡ inr r
      → str_eq r.provider c.provider ≡ true
  unfolding reencrypt encrypt
  reencrypt_provider nonces now c r h = elim (Option-cases (decrypt a v.readers c)) [
    | inl n ↦ absurd (ground arith)
    | inr (m, d) ↦ ground (arith, str_eq_refl c.provider)
  ]

  -- The primary key opens what the transformation has made of a row.
  decrypt-reencrypt :
      (nonces : Bytes → Bytes) (now : ℕ) (c r : Credential)
      → IsAead a
      → reencrypt a v nonces now c ≡ inr r
      → decrypt a (new_keyring v.primary []).readers (replaced c r) ≡ decrypt a v.readers c
  unfolding reencrypt encrypt decrypt
  decrypt-reencrypt nonces now c r law h = elim (Option-cases (decrypt a v.readers c)) [
    | inl n ↦ absurd (ground arith)
    | inr (m, d) ↦ ground (arith, law v.primary (nonces c.provider) m c.provider)
  ]

  rotate_readable :
      (nonces : Bytes → Bytes) (now : ℕ) (db db' : CredentialDb) (p : Bytes)
      → IsAead a
      → distinct db ≡ true
      → rotate_rows (reencrypt a v nonces now) (sort_by_provider db) db ≡ inr db'
      → get_key a (new_keyring v.primary []) p db' ≡ get_key a v p db
  unfolding get_key get_credential
  rotate_readable nonces now db db' p law u h = elim (Option-cases (find_credential p db)) [
    | inl n ↦
        let other =
          rotate_rows_other (reencrypt a v nonces now) p (sort_by_provider db) db db'
            (find-sort p db u ∙ n) h in
        ground arith
    | inr (c, f) ↦
        let (r, done, found) =
          rotate_rows_found (reencrypt a v nonces now) p c c (sort_by_provider db) db db' f
            (find-sort p db u ∙ f) (distinct-sort db u) h in
        ground (arith, decrypt-reencrypt nonces now c r law done)
  ]

  rotate_refused :
      (nonces : Bytes → Bytes) (now : ℕ) (e : VaultError) (db : CredentialDb)
      → distinct db ≡ true
      → rotate_rows (reencrypt a v nonces now) (sort_by_provider db) db ≡ inl e
      → (c : Credential) × (find_credential c.provider db ≡ some c)
        × (get_key a v c.provider db ≡ inl undecryptable)
  unfolding get_key get_credential
  rotate_refused nonces now e db u h =
      let (c, found, failed) =
        rotate_rows_failed (reencrypt a v nonces now) e (sort_by_provider db) db
          (reencrypt_provider nonces now) (distinct-sort db u) h in
      let stored = sym (find-sort c.provider db u) ∙ found in
      elim (Option-cases (decrypt a v.readers c)) [
        | inl n ↦ (c, stored, ground arith)
        | inr (m, d) ↦ absurd (unfold reencrypt in ground arith)
      ]

  -- For an AEAD that opens what it has sealed and a table with one row for each provider, a
  -- rotation succeeds with the number of rows, and a vault with the primary key alone then
  -- answers for every provider as the whole keyring did before; or the table is left as it was,
  -- and the keyring cannot decrypt some row of it.
  pub rotate_outcome :
      (nonces : Bytes → Bytes) (now : ℕ) (db : CredentialDb) (p : Bytes)
      → IsAead a
      → distinct db ≡ true
      → (((rotate a v nonces now db).1 ≡ inr (length (sort_by_provider db)))
          × (get_key a (new_keyring v.primary []) p (rotate a v nonces now db).0
              ≡ get_key a v p db))
        ⊎ (((rotate a v nonces now db).0 ≡ db)
            × ((c : Credential) × (find_credential c.provider db ≡ some c)
                × (get_key a v c.provider db ≡ inl undecryptable)))
  unfolding rotate rotate_credentials
  rotate_outcome nonces now db p law u =
      elim (sum_cases (rotate_rows (reencrypt a v nonces now) (sort_by_provider db) db)) [
        | inr (db', h) ↦
            inl (ground arith, ground (arith, rotate_readable nonces now db db' p law u h))
        | inl (e, h) ↦ inr (ground arith, rotate_refused nonces now e db u h)
      ]
