-- ===== src/Ledger/Chain.antt =====
-- The hash chain: what VerifyChain accepts, and what a chain commits to.
use spendlease.Base.{
  ◌≡◌, ◌≢◌, ◌↔◌, refl, sym, ◌∙◌, ap, Bool, true, false, List, [], ◌∷◌, ◌++◌, none, arith, Bytes,
  str_eq_iff, leb,
}
use spendlease.Base.Decimal.{format_nat_inj, format_int_inj}
use spendlease.Ledger.{
  Platform, Entry, genesis_hash, version_of, hash_version_usage, usage_fields, hashed_fields,
  compute_hash, format_bool, verify_from, verify_chain,
}
use spendlease.Ledger.Frames.{frames_inj}

-- The hash of the newest entry, or the genesis hash. Entries stand newest first.
unfoldable pub head_of : List Entry → Bytes
head_of [] = genesis_hash
head_of (e ∷ es) = e.hash

-- Each entry names the hash before it and bears its own.
abbrev pub IsLinked : Platform → List Entry → Type 0
IsLinked p [] = Unit
IsLinked p (e ∷ es) =
    (e.prev_hash ≡ head_of es) × (e.hash ≡ compute_hash p e e.prev_hash) × IsLinked p es

-- The same entries, oldest first.
unfoldable pub oldest_first : List Entry → List Entry
oldest_first [] = []
oldest_first (e ∷ es) = oldest_first es ++ (e ∷ [])

last_hash : Bytes → List Entry → Bytes
last_hash prev [] = prev
last_hash prev (e ∷ es) = last_hash e.hash es

verify_from-append :
    (p : Platform) (prev : Bytes) (es fs : List Entry)
    → verify_from p prev es ≡ none
    → verify_from p prev (es ++ fs) ≡ verify_from p (last_hash prev es) fs
unfolding verify_from last_hash
verify_from-append p prev [] fs h = refl
verify_from-append p prev (e ∷ es) fs h = ground (arith, verify_from-append p e.hash es fs)

verify_from-append_none :
    (p : Platform) (prev : Bytes) (es fs : List Entry)
    → verify_from p prev (es ++ fs) ≡ none
    → verify_from p prev es ≡ none
unfolding verify_from
verify_from-append_none p prev [] fs h = refl
verify_from-append_none p prev (e ∷ es) fs h =
    ground (arith, verify_from-append_none p e.hash es fs)

last_hash-append :
    (prev : Bytes) (es : List Entry) (e : Entry) → last_hash prev (es ++ (e ∷ [])) ≡ e.hash
unfolding last_hash
last_hash-append prev [] e = refl
last_hash-append prev (x ∷ es) e = last_hash-append x.hash es e

last_hash-oldest_first : (es : List Entry) → last_hash genesis_hash (oldest_first es) ≡ head_of es
unfolding oldest_first head_of last_hash
last_hash-oldest_first [] = refl
last_hash-oldest_first (e ∷ es) = last_hash-append genesis_hash (oldest_first es) e

verify_one :
    (p : Platform) (prev : Bytes) (e : Entry)
    → (verify_from p prev (e ∷ []) ≡ none)
      ↔ ((e.prev_hash ≡ prev) × (e.hash ≡ compute_hash p e e.prev_hash))
unfolding verify_from
verify_one p prev e = (
  λ h.
      ground (arith, str_eq_iff e.prev_hash prev, str_eq_iff e.hash (compute_hash p e e.prev_hash)),
  λ h.
      ground (arith, str_eq_iff e.prev_hash prev, str_eq_iff e.hash (compute_hash p e e.prev_hash)),
)

verify-IsLinked :
    (p : Platform) (es : List Entry)
    → (verify_from p genesis_hash (oldest_first es) ≡ none) ↔ IsLinked p es
unfolding oldest_first
verify-IsLinked p [] = (λ h. tt, λ h. unfold verify_from in refl)
verify-IsLinked p (e ∷ es) =
    let rows = oldest_first es in
    let one = verify_one p (head_of es) e in
    let step = λ (h : verify_from p genesis_hash rows ≡ none).
      verify_from-append p genesis_hash rows (e ∷ []) h
      ∙ ap (λ prev. verify_from p prev (e ∷ [])) (last_hash-oldest_first es) in
    (
      λ h.
          let before = verify_from-append_none p genesis_hash rows (e ∷ []) h in
          let (named, borne) = one.0 (sym (step before) ∙ h) in
          (named, borne, (verify-IsLinked p es).0 before),
      λ l. step ((verify-IsLinked p es).1 l.2) ∙ one.1 (l.0, l.1),
    )

-- VerifyChain accepts a list of entries exactly if the first one names the genesis hash, each
-- later one names the hash of the entry before it, and each one bears the hash of its own
-- contents.
pub verify_chain-IsLinked :
    (p : Platform) (es : List Entry) → (verify_chain p (oldest_first es) ≡ none) ↔ IsLinked p es
unfolding verify_chain
verify_chain-IsLinked p es = verify-IsLinked p es

-- The fields that both hash formats bind.
pub record SameContents (p : Platform) (e f : Entry) : Type 0 where
  pub seq : e.seq ≡ f.seq
  pub run_id : e.run_id ≡ f.run_id
  pub principal_id : e.principal_id ≡ f.principal_id
  pub provider : e.provider ≡ f.provider
  pub model : e.model ≡ f.model
  pub input_tokens : e.input_tokens ≡ f.input_tokens
  pub output_tokens : e.output_tokens ≡ f.output_tokens
  pub cost : e.cost ≡ f.cost
  pub estimated : e.estimated ≡ f.estimated
  pub created_at : p.format_time e.created_at ≡ p.format_time f.created_at
  pub prev_hash : e.prev_hash ≡ f.prev_hash
  pub is_itemized : leb hash_version_usage (version_of e) ≡ leb hash_version_usage (version_of f)
  pub itemized : leb hash_version_usage (version_of e) ≡ true → usage_fields p e ≡ usage_fields p f

format_bool_inj : (a b : Bool) → format_bool a ≡ format_bool b → a ≡ b
format_bool_inj true true h = refl
format_bool_inj true false h = ground arith
format_bool_inj false true h = ground arith
format_bool_inj false false h = refl

-- The fields that are hashed determine what they were made from.
hashed_fields-SameContents :
    (p : Platform) (e f : Entry)
    → hashed_fields p e e.prev_hash ≡ hashed_fields p f f.prev_hash
    → SameContents p e f
unfolding hashed_fields
hashed_fields-SameContents p e f h = ground (
  arith,
  format_nat_inj e.seq f.seq,
  format_int_inj e.input_tokens f.input_tokens,
  format_int_inj e.output_tokens f.output_tokens,
  format_int_inj e.cost f.cost,
  format_bool_inj e.estimated f.estimated,
)

abbrev pub SameHistory : Platform → List Entry → List Entry → Type 0
SameHistory p [] [] = Unit
SameHistory p [] (f ∷ fs) = ⊥
SameHistory p (e ∷ es) [] = ⊥
SameHistory p (e ∷ es) (f ∷ fs) = SameContents p e f × SameHistory p es fs

IsLinked-commits :
    (p : Platform) (es fs : List Entry)
    → ((x y : Bytes) → p.digest x ≡ p.digest y → x ≡ y)
    → ((x : Bytes) → p.digest x ≢ genesis_hash)
    → IsLinked p es
    → IsLinked p fs
    → head_of es ≡ head_of fs
    → SameHistory p es fs
unfolding head_of compute_hash
IsLinked-commits p [] [] inj fresh l k h = tt
IsLinked-commits p [] (f ∷ fs) inj fresh l k h = fresh _ (sym (h ∙ k.1))
IsLinked-commits p (e ∷ es) [] inj fresh l k h = fresh _ (sym l.1 ∙ h)
IsLinked-commits p (e ∷ es) (f ∷ fs) inj fresh l k h =
    let fields = frames_inj _ _ (inj _ _ (sym l.1 ∙ h ∙ k.1)) in
    let same = hashed_fields-SameContents p e f fields in
    (same, IsLinked-commits p es fs inj fresh l.2 k.2 (sym l.0 ∙ same.prev_hash ∙ k.0))

-- If the digest is injective and never the genesis hash, two entry lists that VerifyChain accepts
-- and that end in the same hash are equally long and agree entry by entry in sequence number,
-- run, principal, provider, model, token counts, cost, estimated flag, formatted time and
-- previous hash, and in the itemized fields where these are hashed.
pub verify_chain_commits :
    (p : Platform) (es fs : List Entry)
    → ((x y : Bytes) → p.digest x ≡ p.digest y → x ≡ y)
    → ((x : Bytes) → p.digest x ≢ genesis_hash)
    → verify_chain p (oldest_first es) ≡ none
    → verify_chain p (oldest_first fs) ≡ none
    → head_of es ≡ head_of fs
    → SameHistory p es fs
verify_chain_commits p es fs inj fresh l k h =
    IsLinked-commits p es fs inj fresh ((verify_chain-IsLinked p es).0 l)
      ((verify_chain-IsLinked p fs).0 k) h
