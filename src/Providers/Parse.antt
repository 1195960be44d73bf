-- ===== src/Providers/Parse.antt =====
-- internal/providers/parse.go: what is read of requests and responses.
pub mod Accounting
use spendlease.Base.{
  ℕ, zero, suc, ◌+◌, Bool, true, false, not, ◌&&◌, ◌||◌, List, [], ◌∷◌, ◌++◌, Option, none, some,
  Bytes, codes, str_eq, if◌then◌else◌, leb, ltb, any, ◌==◌,
}
use spendlease.Base.Int.{ℤ, pos, ◌+ℤ◌, ◌-ℤ◌, wrap64, ltb_ℤ, eq_ℤ}
use spendlease.Providers.{Usage, usage_is_zero, later_count}
use spendlease.Providers.Json.{
  Number, Json, Items, Fields, null, bool, number, text, array, object, nil, cons, end, field,
  member, as_object, as_array, as_text, as_bool, as_number, Codec,
}
use spendlease.Store.{is_empty}

unfoldable pub string_field : Bytes → Fields → Bytes
unfolding member
string_field k m = elim (as_text (member k m)) [ some s ↦ s | none ↦ [] ]

-- The first positive number among the keys.
unfoldable pub int_field : List Bytes → Fields → ℤ
unfolding member
int_field [] m = pos 0
int_field (k ∷ ks) m =
    let rest = int_field ks m in
    elim (as_number (member k m)) [
      | some n ↦ if n.is_positive then n.as_int64 else rest
      | none ↦ rest
    ]

unfoldable pub bool_field : Bytes → Fields → Bool
unfolding member
bool_field k m = elim (as_bool (member k m)) [ some b ↦ b | none ↦ false ]

unfoldable pub object_field : Bytes → Fields → Option Fields
unfolding member
object_field k m = as_object (member k m)

-- `if details, ok := raw[k].(map[string]any); ok { if n := IntField(details, keys...); n > 0 { … } }`
unfoldable pub detail : Bytes → List Bytes → Fields → ℤ → ℤ
unfolding object_field int_field
detail k keys raw old = elim (object_field k raw) [
  | none ↦ old
  | some details ↦ later_count old (int_field keys details)
]

abbrev pub cache_write_keys : List Bytes
cache_write_keys = codes "cache_write_tokens" ∷ codes "cache_creation_tokens" ∷ []

unfoldable pub prompt_tokens : Fields → ℤ
unfolding int_field
prompt_tokens raw = int_field (codes "prompt_tokens" ∷ codes "input_tokens" ∷ []) raw

unfoldable pub cached_tokens : Fields → ℤ
unfolding int_field detail
cached_tokens raw = detail (codes "input_tokens_details") (codes "cached_tokens" ∷ []) raw (
    detail (codes "prompt_tokens_details") (codes "cached_tokens" ∷ []) raw
      (int_field (codes "prompt_cache_hit_tokens" ∷ codes "cached_tokens" ∷ []) raw))

unfoldable pub cache_write_tokens : Fields → ℤ
unfolding int_field detail
cache_write_tokens raw =
    detail (codes "input_tokens_details") cache_write_keys raw
      (detail (codes "prompt_tokens_details") cache_write_keys raw (int_field cache_write_keys raw))

unfoldable pub cache_miss_tokens : Fields → ℤ
unfolding int_field
cache_miss_tokens raw = int_field (codes "prompt_cache_miss_tokens" ∷ []) raw

unfoldable pub uncached_tokens : Fields → ℤ
unfolding prompt_tokens cached_tokens cache_write_tokens cache_miss_tokens
uncached_tokens raw =
    let missed = cache_miss_tokens raw in
    let uncached =
      if eq_ℤ missed (pos 0)
      then wrap64 (wrap64 (prompt_tokens raw -ℤ cached_tokens raw) -ℤ cache_write_tokens raw)
      else missed in
    if ltb_ℤ uncached (pos 0) then pos 0 else uncached

unfoldable pub completion_tokens : Fields → ℤ
unfolding int_field
completion_tokens raw = int_field (codes "completion_tokens" ∷ codes "output_tokens" ∷ []) raw

abbrev pub larger : ℤ → ℤ → ℤ
larger old new = if ltb_ℤ old new then new else old

unfoldable pub reasoning_tokens : Fields → ℤ
unfolding int_field object_field
reasoning_tokens raw =
    let first : ℤ = elim (object_field (codes "completion_tokens_details") raw) [
      | none ↦ pos 0
      | some details ↦ int_field (codes "reasoning_tokens" ∷ []) details
    ] in
    elim (object_field (codes "output_tokens_details") raw) [
      | none ↦ first
      | some details ↦ larger first (int_field (codes "reasoning_tokens" ∷ []) details)
    ]

unfoldable pub total_tokens : Fields → ℤ
unfolding int_field
total_tokens raw = int_field (codes "total_tokens" ∷ []) raw

-- Reasoning is added where it is the remainder of the total.
unfoldable pub output_tokens : Fields → ℤ
unfolding completion_tokens reasoning_tokens total_tokens prompt_tokens
output_tokens raw =
    let remainder =
      wrap64 (wrap64 (total_tokens raw -ℤ prompt_tokens raw) -ℤ completion_tokens raw) in
    if ltb_ℤ (pos 0) (reasoning_tokens raw) && eq_ℤ remainder (reasoning_tokens raw)
    then wrap64 (completion_tokens raw +ℤ reasoning_tokens raw)
    else completion_tokens raw

unfoldable pub openai_usage : Fields → Usage
unfolding uncached_tokens cached_tokens cache_write_tokens output_tokens
openai_usage raw = record {
  input_tokens = uncached_tokens raw;
  cached_input_tokens = cached_tokens raw;
  cache_write_5m_tokens = cache_write_tokens raw;
  cache_write_1h_tokens = pos 0;
  output_tokens = output_tokens raw;
}

-- `u, !u.IsZero()`
abbrev pub unless_zero : Usage → Option Usage
unless_zero u = if usage_is_zero u then none else some u

unfoldable pub openai_usage_from : Fields → Option Usage
unfolding object_field openai_usage
openai_usage_from m = elim (object_field (codes "usage") m) [
  | none ↦ none
  | some raw ↦ unless_zero (openai_usage raw)
]
