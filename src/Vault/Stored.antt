-- ===== src/Vault/Stored.antt =====
-- vault.go: a vendor key that is put, and what Get gives then.
use spendlease.Base.{
  ℕ, ◌≡◌, refl, inl, inr, List, some, Bytes, str_eq, str_eq_iff, if◌then◌else◌, arith, Option-cases,
  Bool-cases,
}
use spendlease.Sqlite.Credentials.{
  CredentialDb, find_credential, replaced, put_credential, get_credential,
}
use spendlease.Sqlite.Credentials.Rows.{
  find-put, find-put_same, find-put_new, find_credential_provider,
}
use spendlease.Vault.{Credential, Aead, IsAead, new_keyring}
use spendlease.Vault.Keyring.{decrypt, encrypt, get_key, put_key}

module _ (a : Aead) (primary : Bytes) (previous : List Bytes) (law : IsAead a) where
  get_key-encrypt :
      (c r : Credential) (db : CredentialDb) (nonce key : Bytes)
      → find_credential r.provider db ≡ some c
      → c.provider ≡ r.provider
      → c.nonce ≡ nonce
      → c.ciphertext ≡ a.seal primary nonce key r.provider
      → get_key a (new_keyring primary previous) r.provider db ≡ inr key
  unfolding get_key get_credential decrypt
  get_key-encrypt c r db nonce key f e n s = ground (arith, law primary nonce key r.provider)

  get_key-find :
      (q : Bytes) (db db' : CredentialDb)
      → find_credential q db' ≡ find_credential q db
      → get_key a (new_keyring primary previous) q db'
        ≡ get_key a (new_keyring primary previous) q db
  unfolding get_key get_credential
  get_key-find q db db' h = ground arith

  -- The credential that `Put` stores is opened.
  get_key-put :
      (r : Credential) (db : CredentialDb) (nonce key : Bytes)
      → r.nonce ≡ nonce
      → r.ciphertext ≡ a.seal primary nonce key r.provider
      → get_key a (new_keyring primary previous) r.provider (put_credential r db) ≡ inr key
  get_key-put r db nonce key n s = elim (Option-cases (find_credential r.provider db)) [
    | inl f ↦ get_key-encrypt r r (put_credential r db) nonce key (find-put_new r db f) refl n s
    | inr (c, f) ↦
        get_key-encrypt (replaced c r) r (put_credential r db) nonce key (find-put_same r c db f)
          (find_credential_provider r.provider c db f) n s
  ]

  -- For an AEAD that opens what it has sealed, when Put of a key for a provider succeeds, Get
  -- answers that key for this provider and what it answered before for every other one.
  pub put_key-get_key :
      (nonce : Bytes) (now : ℕ) (provider key q : Bytes) (db db' : CredentialDb)
      → put_key a (new_keyring primary previous) nonce now provider key db ≡ inr db'
      → get_key a (new_keyring primary previous) q db'
        ≡ (if str_eq provider q then inr key else get_key a (new_keyring primary previous) q db)
  unfolding put_key encrypt
  put_key-get_key nonce now provider key q db db' h =
      let r = encrypt a (new_keyring primary previous) nonce provider key now now in
      let stored : put_credential r db ≡ db' = ground arith in
      elim (Bool-cases (str_eq provider q)) [
        | inl mine ↦ ground (arith, get_key-put r db nonce key refl refl, str_eq_iff provider q)
        | inr other ↦ ground (arith, get_key-find q db (put_credential r db), find-put q r db)
      ]
