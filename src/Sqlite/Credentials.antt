-- ===== src/Sqlite/Credentials.antt =====
-- internal/store/sqlite/credentials.go: the table of encrypted vendor keys, which no method of the other
-- tables reads. A method holds its lock and its transaction from start to end.
pub mod Rows
use spendlease.Base.{
  ℕ, ◌≡◌, refl, ◌⊎◌, inl, inr, Bool, true, false, not, ◌&&◌, List, [], ◌∷◌, Option, none, some,
  Bytes, str_eq, str_leb, ◌==◌, if◌then◌else◌, length, keep, map, is_some,
}
use spendlease.Store.{Result, ok, err, guard, ◌>>=◌, ◌>>◌, not_found, conflict}
use spendlease.Vault.{Credential, VaultError, no_credential, store_failed}

abbrev pub CredentialDb : Type 0
CredentialDb = List Credential

unfoldable pub find_credential : Bytes → CredentialDb → Option Credential
find_credential p [] = none
find_credential p (c ∷ cs) = if str_eq c.provider p then some c else find_credential p cs

-- ON CONFLICT(provider) DO UPDATE: the instant of creation stays.
abbrev pub replaced : Credential → Credential → Credential
replaced old new = record old {
  nonce = new.nonce;
  ciphertext = new.ciphertext;
  updated_at = new.updated_at;
}

unfoldable pub put_credential : Credential → CredentialDb → CredentialDb
put_credential new [] = new ∷ []
put_credential new (c ∷ cs) =
    if str_eq c.provider new.provider then replaced c new ∷ cs else c ∷ put_credential new cs

unfoldable pub get_credential : Bytes → CredentialDb → VaultError ⊎ Credential
unfolding find_credential
get_credential p db = elim (find_credential p db) [ none ↦ inl no_credential | some c ↦ inr c ]

-- ORDER BY provider
unfoldable pub insert_by_provider : Credential → CredentialDb → CredentialDb
insert_by_provider c [] = c ∷ []
insert_by_provider c (d ∷ ds) =
    if str_leb c.provider d.provider then c ∷ d ∷ ds else d ∷ insert_by_provider c ds

unfoldable pub sort_by_provider : CredentialDb → CredentialDb
unfolding insert_by_provider
sort_by_provider [] = []
sort_by_provider (c ∷ cs) = insert_by_provider c (sort_by_provider cs)

unfoldable pub list_credential_providers : CredentialDb → List Bytes
unfolding sort_by_provider
list_credential_providers db = map (λ c. c.provider) (sort_by_provider db)

unfoldable pub delete_credential : Bytes → CredentialDb → Result CredentialDb
unfolding find_credential
delete_credential p db = do
  guard (is_some (find_credential p db)) not_found
  ok (keep (λ c. not (str_eq c.provider p)) db)

-- The loop of the rotation, over the rows that the transaction has read.
unfoldable pub rotate_rows :
    (Credential → VaultError ⊎ Credential) → CredentialDb → CredentialDb → VaultError ⊎ CredentialDb
unfolding put_credential
rotate_rows transform [] db = inr db
rotate_rows transform (c ∷ cs) db = elim (transform c) [
  | inl e ↦ inl e
  | inr r ↦
      if not (str_eq r.provider c.provider)
      then inl (store_failed conflict)
      else rotate_rows transform cs (put_credential r db)
]

-- An error rolls the transaction back.
unfoldable pub rotate_credentials :
    (Credential → VaultError ⊎ Credential) → CredentialDb → CredentialDb × (VaultError ⊎ ℕ)
unfolding rotate_rows sort_by_provider
rotate_credentials transform db = elim (rotate_rows transform (sort_by_provider db) db) [
  | inl e ↦ (db, inl e)
  | inr db' ↦ (db', inr (length (sort_by_provider db)))
]
