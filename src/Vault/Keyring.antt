-- ===== src/Vault/Keyring.antt =====
-- vault.go: the operations of a vault over the table of credentials.
use spendlease.Base.{
  ℕ, ◌⊎◌, inl, inr, ◌||◌, List, [], ◌∷◌, Option, none, some, Bytes, if◌then◌else◌, length,
}
use spendlease.Store.{is_empty, ok, err}
use spendlease.Sqlite.Credentials.{
  CredentialDb, get_credential, put_credential, list_credential_providers, rotate_credentials,
  delete_credential,
}
use spendlease.Vault.{
  Credential, VaultError, undecryptable, empty_argument, store_failed, Aead, Vault,
}

module _ (a : Aead) where
  -- The first reader that opens the credential.
  unfoldable pub decrypt : List Bytes → Credential → Option Bytes
  decrypt [] c = none
  decrypt (k ∷ ks) c = elim (a.unseal k c.nonce c.ciphertext c.provider) [
    | some m ↦ some m
    | none ↦ decrypt ks c
  ]

  unfoldable pub encrypt : Vault → Bytes → Bytes → Bytes → ℕ → ℕ → Credential
  encrypt v nonce provider plaintext created updated = record {
    provider = provider;
    nonce = nonce;
    ciphertext = a.seal v.primary nonce plaintext provider;
    created_at = created;
    updated_at = updated;
  }

  -- `Put`, with the fresh nonce and the clock.
  unfoldable pub put_key :
      Vault → Bytes → ℕ → Bytes → Bytes → CredentialDb → VaultError ⊎ CredentialDb
  unfolding encrypt
  put_key v nonce now provider key db =
      if is_empty provider || is_empty key
      then inl empty_argument
      else inr (put_credential (encrypt v nonce provider key now now) db)

  -- `Get`
  unfoldable pub get_key : Vault → Bytes → CredentialDb → VaultError ⊎ Bytes
  unfolding decrypt
  get_key v provider db = elim (get_credential provider db) [
    | inl e ↦ inl e
    | inr c ↦ elim (decrypt v.readers c) [ none ↦ inl undecryptable | some m ↦ inr m ]
  ]

  -- The transformation of `Rotate`: each call reads a fresh nonce, here that of the provider.
  unfoldable pub reencrypt : Vault → (Bytes → Bytes) → ℕ → Credential → VaultError ⊎ Credential
  unfolding decrypt encrypt
  reencrypt v nonces now c = elim (decrypt v.readers c) [
    | none ↦ inl undecryptable
    | some m ↦ inr (encrypt v (nonces c.provider) c.provider m c.created_at now)
  ]

  unfoldable pub rotate :
      Vault → (Bytes → Bytes) → ℕ → CredentialDb → CredentialDb × (VaultError ⊎ ℕ)
  unfolding reencrypt
  rotate v nonces now db = rotate_credentials (reencrypt v nonces now) db

  -- The loop of `Verify`.
  unfoldable pub verify_all : Vault → List Bytes → CredentialDb → VaultError ⊎ Unit {0}
  unfolding decrypt
  verify_all v [] db = inr tt
  verify_all v (p ∷ ps) db =
      let rest = verify_all v ps db in
      elim (get_credential p db) [
        | inl e ↦ inl e
        | inr c ↦ elim (decrypt v.readers c) [ none ↦ inl undecryptable | some m ↦ rest ]
      ]

  unfoldable pub verify : Vault → CredentialDb → VaultError ⊎ ℕ
  unfolding verify_all
  verify v db = elim (verify_all v (list_credential_providers db) db) [
    | inl e ↦ inl e
    | inr _ ↦ inr (length (list_credential_providers db))
  ]

  -- `Delete`
  abbrev pub delete_key : Bytes → CredentialDb → VaultError ⊎ CredentialDb
  delete_key provider db = elim (delete_credential provider db) [
    | err e ↦ inl (store_failed e)
    | ok db' ↦ inr db'
  ]
