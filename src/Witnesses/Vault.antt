-- ===== src/Witnesses/Vault.antt =====
-- The theorems on the vault, with an AEAD that prefixes the key, the nonce and the additional data.
use spendlease.Base.{
  ◌≡◌, refl, ◌⊎◌, inl, inr, true, [], ◌∷◌, ◌++◌, some, Bytes, codes, str_eq, if◌then◌else◌, length,
  arith,
}
use spendlease.Gateway.Auth.{cut_prefix}
use spendlease.Sqlite.Credentials.{CredentialDb, find_credential, sort_by_provider, put_credential}
use spendlease.Sqlite.Credentials.Rows.{distinct}
use spendlease.Vault.{Credential, Aead, IsAead, Vault, new_keyring, undecryptable}
use spendlease.Vault.Keyring.{rotate, get_key, put_key, encrypt}
use spendlease.Vault.Rotation.{rotate_outcome}
use spendlease.Vault.Stored.{put_key-get_key}

abbrev pub sealed : Bytes → Bytes → Bytes → Bytes → Bytes
sealed k n m d = (k ++ n ++ d) ++ m

abbrev pub plain_aead : Aead
plain_aead = record { seal = sealed; unseal = λ k n c d. cut_prefix (k ++ n ++ d) c }

cut_prefix-append : (p m : Bytes) → cut_prefix p (p ++ m) ≡ some m
unfolding cut_prefix
cut_prefix-append [] m = refl
cut_prefix-append (x ∷ p) m = ground (arith, cut_prefix-append p m)

plain_aead-IsAead : IsAead plain_aead
plain_aead-IsAead k n m d = cut_prefix-append (k ++ n ++ d) m

abbrev stored : CredentialDb
stored =
    record {
      provider = codes "openai";
      nonce = codes "n";
      ciphertext = codes "oldnopenaisk-1";
      created_at = 1;
      updated_at = 1;
    }
    ∷ record {
      provider = codes "anthropic";
      nonce = codes "m";
      ciphertext = codes "oldmanthropicsk-2";
      created_at = 2;
      updated_at = 2;
    }
    ∷ []

abbrev pub keyring : Vault
keyring = new_keyring (codes "new") (codes "old" ∷ [])

stored-distinct : distinct stored ≡ true
unfolding distinct find_credential str_eq
stored-distinct = refl

rotate_outcome_example :
    (((rotate plain_aead keyring (λ p. codes "r") 9 stored).1
        ≡ inr (length (sort_by_provider stored)))
      × (get_key plain_aead
            (new_keyring (codes "new") [])
            (codes "openai")
            (rotate plain_aead keyring (λ p. codes "r") 9 stored).0
          ≡ get_key plain_aead keyring (codes "openai") stored))
    ⊎ (((rotate plain_aead keyring (λ p. codes "r") 9 stored).0 ≡ stored)
        × ((c : Credential) × (find_credential c.provider stored ≡ some c)
            × (get_key plain_aead keyring c.provider stored ≡ inl undecryptable)))
rotate_outcome_example =
    rotate_outcome plain_aead keyring (λ p. codes "r") 9 stored (codes "openai") plain_aead-IsAead
      stored-distinct

abbrev with_key : CredentialDb
with_key =
    put_credential (encrypt plain_aead keyring (codes "x") (codes "openai") (codes "sk-3") 9 9)
      stored

puts :
    put_key plain_aead keyring (codes "x") 9 (codes "openai") (codes "sk-3") stored ≡ inr with_key
unfolding put_key
puts = refl

put_key-get_key_example : get_key plain_aead keyring (codes "openai") with_key ≡ (
    if str_eq (codes "openai") (codes "openai")
    then inr (codes "sk-3")
    else get_key plain_aead keyring (codes "openai") stored)
put_key-get_key_example =
    put_key-get_key plain_aead (codes "new") (codes "old" ∷ []) plain_aead-IsAead (codes "x") 9
      (codes "openai") (codes "sk-3") (codes "openai") stored with_key puts
