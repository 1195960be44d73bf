-- ===== src/Pricing/Book.antt =====
-- internal/pricing/book.go: the dated price files, their validation, and the lookup of a price. A map
-- is a list of pairs in the order in which Go's range visits it; the zero instant is 0.
pub mod Load
pub mod Newest
pub mod Reload
pub mod Safe
use spendlease.Base.{
  ℕ, Bool, true, false, not, ◌&&◌, ◌||◌, List, [], ◌∷◌, Option, none, some, Bytes, str_eq, ltb, leb,
  ◌==◌, if◌then◌else◌, length, any, find, is_some, entry_of,
}
use spendlease.Base.Int.{ℤ, pos, ltb_ℤ, leb_ℤ, eq_ℤ}
use spendlease.Money.{trim_space, parse_usd}
use spendlease.Pricing.{Price, fallback_max_tokens}

-- The errors, which the source tells apart by their texts.
pub data BookError : Type 0 where
  unreadable unparsable bad_rate bad_version no_effective no_providers no_source no_models :
      BookError
  free_with_rate no_base_rate no_max_tokens needs_version_2 incomplete_long long_without_threshold :
      BookError
  no_prices unknown_model : BookError

-- `Rate.UnmarshalYAML` of a scalar's text.
unfoldable pub unmarshal_rate : Bytes → Option ℤ
unmarshal_rate text = elim (parse_usd text) [
  | none ↦ none
  | some n ↦ if ltb_ℤ n (pos 0) then none else some n
]

pub record Model : Type 0 where
  pub input_per_1m : ℤ
  pub output_per_1m : ℤ
  pub cached_input_per_1m : Option ℤ
  pub cache_write_5m_per_1m : Option ℤ
  pub cache_write_1h_per_1m : Option ℤ
  pub long_context_threshold : ℤ
  pub long_input_per_1m : Option ℤ
  pub long_cached_input_per_1m : Option ℤ
  pub long_cache_write_per_1m : Option ℤ
  pub long_output_per_1m : Option ℤ
  pub free : Bool
  pub default_max_tokens : ℤ
  pub aliases : List Bytes
  pub note : Bytes

pub record Provider : Type 0 where
  pub source : Bytes
  pub models : List (Bytes × Model)

pub record File : Type 0 where
  pub version : ℤ
  pub effective : ℕ
  pub verified : ℕ
  pub providers : List (Bytes × Provider)
  pub name : Bytes
  pub digest : Bytes

pub record Fallback : Type 0 where
  pub input_per_1m : ℤ
  pub output_per_1m : ℤ
  pub default_max_tokens : ℤ

abbrev pub default_fallback : Fallback
default_fallback = record {
  input_per_1m = pos 15000000000;
  output_per_1m = pos 75000000000;
  default_max_tokens = fallback_max_tokens;
}

pub record Options : Type 0 where
  pub fallback : Fallback
  pub disable_fallback : Bool

-- The files of a snapshot, the oldest first.
pub record Snapshot : Type 0 where
  pub files : List File
  pub loaded_at : ℕ

pub record Book : Type 0 where
  pub snapshot : Option Snapshot
  pub opts : Options

abbrev pub supported_version : ℤ
supported_version = pos 2

unfoldable pub nonzero_rate : Option ℤ → Bool
nonzero_rate none = false
nonzero_rate (some q) = not (eq_ℤ q (pos 0))

unfoldable pub rate_or : Option ℤ → ℤ → ℤ
rate_or none fallback = fallback
rate_or (some q) fallback = q

-- The rates of a model that must be absent or zero when it is free.
unfoldable pub has_rate : Model → Bool
unfolding nonzero_rate
has_rate m =
    not (eq_ℤ m.input_per_1m (pos 0))
    || not (eq_ℤ m.output_per_1m (pos 0))
    || nonzero_rate m.cached_input_per_1m
    || nonzero_rate m.cache_write_5m_per_1m
    || nonzero_rate m.cache_write_1h_per_1m
    || not (eq_ℤ m.long_context_threshold (pos 0))
    || nonzero_rate m.long_input_per_1m
    || nonzero_rate m.long_cached_input_per_1m
    || nonzero_rate m.long_cache_write_per_1m
    || nonzero_rate m.long_output_per_1m

-- The fields that the first version of the schema does not have.
abbrev pub uses_version_2 : Model → Bool
uses_version_2 m =
    m.free
    || is_some m.cached_input_per_1m
    || is_some m.cache_write_5m_per_1m
    || is_some m.cache_write_1h_per_1m
    || not (eq_ℤ m.long_context_threshold (pos 0))
    || is_some m.long_input_per_1m
    || is_some m.long_cached_input_per_1m
    || is_some m.long_cache_write_per_1m
    || is_some m.long_output_per_1m

-- `longCount == len(longFields)` and `longCount > 0`
abbrev pub all_long : Model → Bool
all_long m =
    is_some m.long_input_per_1m
    && is_some m.long_cached_input_per_1m
    && is_some m.long_output_per_1m

abbrev pub some_long : Model → Bool
some_long m =
    is_some m.long_input_per_1m
    || is_some m.long_cached_input_per_1m
    || is_some m.long_output_per_1m

unfoldable pub validate_model : ℤ → Model → Option BookError
unfolding has_rate
validate_model version m =
    if m.free && has_rate m
    then some free_with_rate
    else if not m.free && (leb_ℤ m.input_per_1m (pos 0) || leb_ℤ m.output_per_1m (pos 0))
    then some no_base_rate
    else if leb_ℤ m.default_max_tokens (pos 0)
    then some no_max_tokens
    else if eq_ℤ version (pos 1) && uses_version_2 m
    then some needs_version_2
    else if ltb_ℤ (pos 0) m.long_context_threshold && not (all_long m)
    then some incomplete_long
    else if eq_ℤ m.long_context_threshold (pos 0)
        && (some_long m || is_some m.long_cache_write_per_1m)
    then some long_without_threshold
    else none

-- The first error of a loop over a map.
unfoldable pub first_error {ℓ} :
    {A : Type ℓ} → (A → Option BookError) → List (Bytes × A) → Option BookError
first_error check [] = none
first_error check ((key, a) ∷ rest) =
    let later = first_error check rest in elim (check a) [ none ↦ later | some e ↦ some e ]

unfoldable pub validate_provider : ℤ → Provider → Option BookError
unfolding validate_model
validate_provider version p =
    if length (trim_space p.source) == 0
    then some no_source
    else if length p.models == 0
    then some no_models
    else first_error (validate_model version) p.models

unfoldable pub validate_file : File → Option BookError
unfolding validate_provider
validate_file f =
    if ltb_ℤ f.version (pos 1) || ltb_ℤ supported_version f.version
    then some bad_version
    else if f.effective == 0
    then some no_effective
    else if length f.providers == 0
    then some no_providers
    else first_error (validate_provider f.version) f.providers

-- `price`: what an entry leaves out is the rate that it would replace.
unfoldable pub price_of : Bytes → Bytes → Model → File → Bytes → Price
unfolding rate_or
price_of provider model m f source =
    let cached = rate_or m.cached_input_per_1m m.input_per_1m in
    let write_5m = rate_or m.cache_write_5m_per_1m m.input_per_1m in
    let write_1h = rate_or m.cache_write_1h_per_1m write_5m in
    record {
      provider = provider;
      model = model;
      input_per_1m = m.input_per_1m;
      cached_input_per_1m = cached;
      cache_write_5m_per_1m = write_5m;
      cache_write_1h_per_1m = write_1h;
      output_per_1m = m.output_per_1m;
      long_context_threshold = m.long_context_threshold;
      long_input_per_1m = rate_or m.long_input_per_1m m.input_per_1m;
      long_cached_input_per_1m = rate_or m.long_cached_input_per_1m cached;
      long_cache_write_per_1m = rate_or m.long_cache_write_per_1m write_5m;
      long_output_per_1m = rate_or m.long_output_per_1m m.output_per_1m;
      free = m.free;
      default_max_tokens = m.default_max_tokens;
      effective = f.effective;
      verified = f.verified;
      source = source;
      estimated = false;
    }

unfoldable pub fallback_price : Options → Bytes → Bytes → Price
fallback_price o provider model = record {
  provider = provider;
  model = model;
  input_per_1m = o.fallback.input_per_1m;
  cached_input_per_1m = o.fallback.input_per_1m;
  cache_write_5m_per_1m = o.fallback.input_per_1m;
  cache_write_1h_per_1m = o.fallback.input_per_1m;
  output_per_1m = o.fallback.output_per_1m;
  long_context_threshold = pos 0;
  long_input_per_1m = pos 0;
  long_cached_input_per_1m = pos 0;
  long_cache_write_per_1m = pos 0;
  long_output_per_1m = pos 0;
  free = false;
  default_max_tokens = o.fallback.default_max_tokens;
  effective = 0;
  verified = 0;
  source = [];
  estimated = true;
}

-- The first entry that has the alias.
unfoldable pub by_alias : Bytes → List (Bytes × Model) → Option (Bytes × Model)
by_alias model ms = find (λ (_, m). any (λ a. str_eq a model) m.aliases) ms

-- What one file says of a model: the exact name comes before the aliases.
unfoldable pub file_price : Bytes → Bytes → File → Option Price
unfolding entry_of by_alias price_of
file_price provider model f = elim (entry_of provider f.providers) [
  | none ↦ none
  | some p ↦ elim (entry_of model p.models) [
    | some m ↦ some (price_of provider model m f p.source)
    | none ↦ elim (by_alias model p.models) [
      | none ↦ none
      | some (name, m) ↦ some (price_of provider name m f p.source)
    ]
  ]
]

-- `!f.Effective.After(at)`
abbrev pub in_force : ℕ → File → Bool
in_force at f = leb f.effective at

-- The loop from the last file to the first: a later file in force that names the model decides.
unfoldable pub newest_price : Bytes → Bytes → ℕ → List File → Option Price
newest_price provider model at [] = none
newest_price provider model at (f ∷ fs) =
    let later = newest_price provider model at fs in
    if is_some later then later else if in_force at f then file_price provider model f else none

unfoldable pub lookup_known : Book → Bytes → Bytes → ℕ → Option Price
unfolding newest_price
lookup_known b provider model at = elim b.snapshot [
  | none ↦ none
  | some snap ↦ newest_price provider model at snap.files
]

-- `Lookup`, less the warning about a model that is not known.
unfoldable pub lookup : Book → Bytes → Bytes → ℕ → Price × Bool
unfolding lookup_known fallback_price
lookup b provider model at = elim (lookup_known b provider model at) [
  | some p ↦ (p, true)
  | none ↦ (fallback_price b.opts provider model, false)
]

-- `Price`
unfoldable pub resolve_price : Book → Bytes → Bytes → ℕ → Option Price
unfolding lookup
resolve_price b provider model at =
    let (p, known) = lookup b provider model at in
    if not known && b.opts.disable_fallback then none else some p
