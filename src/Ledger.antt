-- ===== src/Ledger.antt =====
-- internal/ledger/entry.go: the immutable spend record, its canonical bytes, and the hash chain.
pub mod Frames
pub mod Chain
use spendlease.Base.{
  ℕ, ◌≡◌, refl, Bool, true, false, not, ◌&&◌, ◌||◌, List, [], ◌∷◌, ◌++◌, Option, none, some, Bytes,
  codes, str_eq, leb, ◌==◌, if◌then◌else◌, length, replicate,
}
use spendlease.Base.Int.{ℤ, pos}
use spendlease.Base.Decimal.{format_nat, format_int}
use spendlease.Billing.{Usage, token_usage, normalized, validate, canonical_json}

-- What the entry code takes from outside the repository: SHA-256 in hexadecimal, RFC 3339 texts of
-- instants (a count of nanoseconds, zero for the zero time), and the text of a validation error,
-- which names a unit that Go's map order picks.
pub record Platform : Type 0 where
  pub digest : Bytes → Bytes
  pub format_time : ℕ → Bytes
  pub usage_error : Usage → Bytes

pub record Entry : Type 0 where
  pub hash_version : ℕ
  pub seq : ℕ
  pub run_id : Bytes
  pub principal_id : Bytes
  pub provider : Bytes
  pub model : Bytes
  pub input_tokens : ℤ
  pub output_tokens : ℤ
  pub usage : Usage
  pub external_id : Bytes
  pub pricing_revision : Bytes
  pub price_effective : ℕ
  pub cost : ℤ
  pub estimated : Bool
  pub created_at : ℕ
  pub prev_hash : Bytes
  pub hash : Bytes

unfoldable pub genesis_hash : Bytes
genesis_hash = replicate 64 b'0'

abbrev pub hash_version_legacy : ℕ
hash_version_legacy = 1

abbrev pub hash_version_usage : ℕ
hash_version_usage = 2

abbrev pub current_hash_version : ℕ
current_hash_version = hash_version_usage

-- `hashVersion()`: an entry without a version is a legacy one.
unfoldable pub version_of : Entry → ℕ
version_of e = if e.hash_version == 0 then hash_version_legacy else e.hash_version

unfoldable pub itemized_usage : Entry → Usage
itemized_usage e =
    if length e.usage == 0
    then token_usage e.input_tokens (pos 0) (pos 0) (pos 0) e.output_tokens
    else normalized e.usage

-- `write`: the length, a colon, and the text.
unfoldable pub frame : Bytes → Bytes
frame s = format_nat (length s) ++ (b':' ∷ s)

unfoldable pub frames : List Bytes → Bytes
unfolding frame
frames [] = []
frames (s ∷ ss) = frame s ++ frames ss

abbrev pub format_bool : Bool → Bytes
format_bool true = codes "true"
format_bool false = codes "false"

-- The usage text that is hashed: the canonical JSON, or a marked error text.
unfoldable pub usage_text : Platform → Usage → Bytes
usage_text p u = elim (canonical_json u) [
  | none ↦ codes "!invalid:" ++ p.usage_error u
  | some json ↦ json
]

unfoldable pub price_text : Platform → ℕ → Bytes
price_text p at = if at == 0 then [] else p.format_time at

-- The fields that version 2 adds.
unfoldable pub usage_fields : Platform → Entry → List Bytes
usage_fields p e =
    format_nat (version_of e)
    ∷ usage_text p (itemized_usage e)
    ∷ e.external_id
    ∷ e.pricing_revision
    ∷ price_text p e.price_effective
    ∷ []

-- Everything that `ComputeHash` writes, in order.
unfoldable pub hashed_fields : Platform → Entry → Bytes → List Bytes
unfolding usage_fields version_of
hashed_fields p e prev =
    (format_nat e.seq
      ∷ e.run_id
      ∷ e.principal_id
      ∷ e.provider
      ∷ e.model
      ∷ format_int e.input_tokens
      ∷ format_int e.output_tokens
      ∷ format_int e.cost
      ∷ format_bool e.estimated
      ∷ [])
    ++ ((if leb hash_version_usage (version_of e) then usage_fields p e else [])
        ++ (p.format_time e.created_at ∷ prev ∷ []))

unfoldable pub compute_hash : Platform → Entry → Bytes → Bytes
compute_hash p e prev = p.digest (frames (hashed_fields p e prev))

-- The version and the usage that `Seal` settles before it hashes.
unfoldable pub prepare : Entry → Entry
prepare e =
    let e1 = record e {
      hash_version = if e.hash_version == 0 then current_hash_version else e.hash_version;
    } in
    if leb hash_version_usage e1.hash_version then record e1 { usage = itemized_usage e1 } else e1

unfoldable pub seal : Platform → Entry → Bytes → Entry
unfolding prepare
seal p e prev =
    let e1 = record (prepare e) { prev_hash = prev } in record e1 { hash = compute_hash p e1 prev }

unfoldable pub validate_entry : Entry → Bool
validate_entry e =
    let version = if e.hash_version == 0 then current_hash_version else e.hash_version in
    (version == hash_version_legacy || version == hash_version_usage)
    && (if leb hash_version_usage version then validate (itemized_usage e) else true)

pub data Reason : Type 0 where
  prev_hash_mismatch hash_mismatch : Reason

pub record ChainError : Type 0 where
  pub seq : ℕ
  pub reason : Reason
  pub want : Bytes
  pub got : Bytes

-- The loop of `VerifyChain`, with the hash that the next entry must name.
unfoldable pub verify_from : Platform → Bytes → List Entry → Option ChainError
verify_from p prev [] = none
verify_from p prev (e ∷ es) =
    let rest = verify_from p e.hash es in
    let want = compute_hash p e e.prev_hash in
    if not (str_eq e.prev_hash prev)
    then some (record { seq = e.seq; reason = prev_hash_mismatch; want = prev; got = e.prev_hash })
    else if not (str_eq e.hash want)
    then some (record { seq = e.seq; reason = hash_mismatch; want = want; got = e.hash })
    else rest

unfoldable pub verify_chain : Platform → List Entry → Option ChainError
unfolding verify_from genesis_hash
verify_chain p es = verify_from p genesis_hash es
