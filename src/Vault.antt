-- ===== src/Vault.antt =====
-- internal/vault/vault.go: vendor keys, encrypted at rest. AES-256-GCM is a parameter: sealing and
-- opening under a master key. Fresh nonces and the clock are arguments.
pub mod Keyring
pub mod Rotation
pub mod Stored
use spendlease.Base.{ℕ, List, ◌∷◌, Option, Bytes, ◌≡◌, some}
use spendlease.Store.{StoreError}

pub record Credential : Type 0 where
  pub provider : Bytes
  pub nonce : Bytes
  pub ciphertext : Bytes
  pub created_at : ℕ
  pub updated_at : ℕ

-- ErrNoCredential, ErrDecrypt, an argument that is empty, and an error of the store.
pub data VaultError : Type 0 where
  no_credential undecryptable empty_argument : VaultError
  store_failed : StoreError → VaultError

-- `cipher.AEAD` for each master key: Seal of a nonce, a plaintext and additional data, and Open.
pub record Aead : Type 0 where
  pub seal : Bytes → Bytes → Bytes → Bytes → Bytes
  pub unseal : Bytes → Bytes → Bytes → Bytes → Option Bytes

-- What a key has sealed it opens, with the same nonce and the same additional data.
abbrev pub IsAead : Aead → Type 0
IsAead a = (k n m d : Bytes) → a.unseal k n (a.seal k n m d) d ≡ some m

pub record Vault : Type 0 where
  pub primary : Bytes
  pub readers : List Bytes

-- `NewKeyring`: the primary key is the first reader.
abbrev pub new_keyring : Bytes → List Bytes → Vault
new_keyring primary previous = record { primary = primary; readers = primary ∷ previous }
