-- ===== src/Providers.antt =====
-- internal/providers: what the gateway knows of a vendor (the Provider interface), the request and
-- usage records (parse.go), and the registry that routes a path to a provider (providers.go).
pub mod Routing
pub mod Json
pub mod Parse
pub mod Features
pub mod Openai
pub mod Anthropic
use spendlease.Base.{
  ◌≡◌, refl, Bool, true, false, not, ◌&&◌, ◌||◌, List, [], ◌∷◌, ◌++◌, Option, none, some, Bytes,
  codes, str_eq, starts_with, ◌==◌, if◌then◌else◌, length, any, find, keep, entry_of,
}
use spendlease.Base.Int.{ℤ, pos, ◌+ℤ◌, wrap64, ltb_ℤ, eq_ℤ}

pub record RequestInfo : Type 0 where
  pub model : Bytes
  pub max_tokens : ℤ
  pub stream : Bool
  pub prompt_chars : ℤ
  pub request_bytes : ℤ
  pub no_output : Bool
  pub unsupported_billing : Bytes
  pub wants_usage : Bool

abbrev pub no_request_info : RequestInfo
no_request_info = record {
  model = [];
  max_tokens = pos 0;
  stream = false;
  prompt_chars = pos 0;
  request_bytes = pos 0;
  no_output = false;
  unsupported_billing = [];
  wants_usage = false;
}

pub record Usage : Type 0 where
  pub input_tokens : ℤ
  pub cached_input_tokens : ℤ
  pub cache_write_5m_tokens : ℤ
  pub cache_write_1h_tokens : ℤ
  pub output_tokens : ℤ

abbrev pub no_usage : Usage
no_usage = record {
  input_tokens = pos 0;
  cached_input_tokens = pos 0;
  cache_write_5m_tokens = pos 0;
  cache_write_1h_tokens = pos 0;
  output_tokens = pos 0;
}

unfoldable pub usage_is_zero : Usage → Bool
usage_is_zero u =
    eq_ℤ u.input_tokens (pos 0)
    && eq_ℤ u.cached_input_tokens (pos 0)
    && eq_ℤ u.cache_write_5m_tokens (pos 0)
    && eq_ℤ u.cache_write_1h_tokens (pos 0)
    && eq_ℤ u.output_tokens (pos 0)

unfoldable pub total_input_tokens : Usage → ℤ
total_input_tokens u = wrap64 (
    wrap64 (wrap64 (u.input_tokens +ℤ u.cached_input_tokens) +ℤ u.cache_write_5m_tokens)
    +ℤ u.cache_write_1h_tokens)

-- A positive later count replaces an earlier one.
abbrev pub later_count : ℤ → ℤ → ℤ
later_count old new = if ltb_ℤ (pos 0) new then new else old

unfoldable pub merge : Usage → Usage → Usage
merge u other = record {
  input_tokens = later_count u.input_tokens other.input_tokens;
  cached_input_tokens = later_count u.cached_input_tokens other.cached_input_tokens;
  cache_write_5m_tokens = later_count u.cache_write_5m_tokens other.cache_write_5m_tokens;
  cache_write_1h_tokens = later_count u.cache_write_1h_tokens other.cache_write_1h_tokens;
  output_tokens = later_count u.output_tokens other.output_tokens;
}

pub data BillingClass : Type 0 where
  token no_spend unsupported : BillingClass

pub record BillingCapability : Type 0 where
  pub class : BillingClass
  pub no_output : Bool
  pub reason : Bytes

-- The interface `Provider`: the parts that the accounting uses.
pub record Provider : Type 0 where
  pub name : Bytes
  pub paths : List Bytes
  pub billing : Bytes → Bytes → BillingCapability
  pub parse_request : Bytes → RequestInfo
  pub usage_from_response : Bytes → Option Usage
  pub usage_from_stream_event : Bytes → Option Usage
  pub enable_stream_usage : Bytes → Option Bytes
  pub is_usage_only_event : Bytes → Bool

-- The providers in the order of their registration; names differ, and the first is the fallback.
pub record Registry : Type 0 where
  pub order : List Provider
  pub fallback : Provider

unfoldable pub has_duplicate : List Provider → Bool
has_duplicate [] = false
has_duplicate (p ∷ ps) = any (λ q. str_eq q.name p.name) ps || has_duplicate ps

unfoldable pub new_registry : List Provider → Option Registry
unfolding has_duplicate
new_registry [] = none
new_registry (p ∷ ps) =
    if has_duplicate (p ∷ ps) then none else some (record { order = p ∷ ps; fallback = p })

-- `byName[name]`
unfoldable pub provider_named : Bytes → List Provider → Option Provider
provider_named name ps = find (λ p. str_eq p.name name) ps

unfoldable pub trim_slash : Bytes → Bytes
trim_slash [] = []
trim_slash (c ∷ s) = let rest = trim_slash s in if c == b'/' && length s == 0 then [] else c ∷ rest

-- `path == prefix || strings.HasPrefix(path, strings.TrimSuffix(prefix, "/")+"/")`
unfoldable pub claims_path : Bytes → Bytes → Bool
unfolding starts_with trim_slash
claims_path path prefix = str_eq path prefix || starts_with (trim_slash prefix ++ codes "/") path

unfoldable pub matching : Bytes → List Provider → List Provider
unfolding claims_path
matching path ps = keep (λ p. any (claims_path path) p.paths) ps

-- `strings.Cut(s, "/")`: what is before the first slash, and behind it.
unfoldable pub cut_slash : Bytes → Option (Bytes × Bytes)
cut_slash [] = none
cut_slash (c ∷ s) =
    let rest = cut_slash s in
    if c == b'/'
    then some ([], s)
    else elim rest [ none ↦ none | some (before, after) ↦ some (c ∷ before, after) ]

abbrev pub trim_leading_slash : Bytes → Bytes
trim_leading_slash [] = []
trim_leading_slash (c ∷ s) = if c == b'/' then s else c ∷ s

-- The provider of an explicit prefix, with the path behind it.
unfoldable pub explicit_prefix : Registry → Bytes → Option (Provider × Bytes)
unfolding cut_slash provider_named
explicit_prefix g path = elim (cut_slash (trim_leading_slash path)) [
  | none ↦ none
  | some (name, rest) ↦ elim (provider_named name g.order) [
    | none ↦ none
    | some p ↦ some (p, b'/' ∷ rest)
  ]
]

-- Of several claimants: the header decides for Anthropic, then the fallback, then the first.
unfoldable pub pick : Registry → Bytes → Provider → List Provider → Provider
unfolding provider_named
pick g version first ms =
    let otherwise : Provider = elim (provider_named g.fallback.name ms) [
      | some p ↦ p
      | none ↦ first
    ] in
    if length version == 0
    then otherwise
    else elim (provider_named (codes "anthropic") ms) [ some p ↦ p | none ↦ otherwise ]

-- `Resolve`, for the request's path and the value of its anthropic-version header.
unfoldable pub resolve : Registry → Bytes → Bytes → Option (Provider × Bytes)
unfolding explicit_prefix matching pick
resolve g path version = elim (explicit_prefix g path) [
  | some found ↦ some found
  | none ↦ elim (matching path g.order) [
    | [] ↦ none
    | p ∷ [] ↦ some (p, path)
    | p ∷ q ∷ ps ↦ some (pick g version p (p ∷ q ∷ ps), path)
  ]
]
