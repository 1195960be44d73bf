-- ===== src/Providers/Anthropic.antt =====
-- internal/providers/anthropic/anthropic.go: the adapter of Anthropic.
pub mod CacheWrites
use spendlease.Base.{
  ℕ, Bool, true, false, not, ◌&&◌, ◌||◌, List, [], ◌∷◌, ◌++◌, Option, none, some, Bytes, codes,
  str_eq, if◌then◌else◌, length, ◌==◌,
}
use spendlease.Base.Int.{ℤ, pos, ◌+ℤ◌, ◌-ℤ◌, wrap64, ltb_ℤ}
use spendlease.Providers.{
  RequestInfo, no_request_info, Usage, BillingCapability, token, no_spend, unsupported, Provider,
}
use spendlease.Providers.Json.{
  Json, Items, Fields, null, bool, number, text, array, object, end, field, Codec,
}
use spendlease.Providers.Parse.{string_field, int_field, bool_field, object_field, unless_zero}
use spendlease.Providers.Features.{
  count_prompt_chars, unsupported_billing_feature, unsupported_billing_modifier, or_reason,
}
use spendlease.Providers.Openai.{is_models_path}

abbrev pub anthropic_paths : List Bytes
anthropic_paths = codes "/v1/messages" ∷ codes "/v1/complete" ∷ codes "/v1/models" ∷ []

unfoldable pub anthropic_billing : Bytes → Bytes → BillingCapability
anthropic_billing method path =
    if str_eq method (codes "GET") && is_models_path path
    then record { class = no_spend; no_output = false; reason = [] }
    else if str_eq method (codes "POST")
        && (str_eq path (codes "/v1/messages") || str_eq path (codes "/v1/complete"))
    then record { class = token; no_output = false; reason = [] }
    else if str_eq method (codes "POST") && str_eq path (codes "/v1/messages/count_tokens")
    then record { class = no_spend; no_output = false; reason = [] }
    else record {
      class = unsupported;
      no_output = false;
      reason =
          codes
            "message batches, media, server tools, and unreviewed endpoints are outside token-budget enforcement";
    }

abbrev pub creation_count : Bytes → Fields → ℤ
creation_count k raw = elim (object_field (codes "cache_creation") raw) [
  | none ↦ pos 0
  | some creation ↦ int_field (k ∷ []) creation
]

unfoldable pub written_5m : Fields → ℤ
unfolding int_field object_field
written_5m raw = creation_count (codes "ephemeral_5m_input_tokens") raw

unfoldable pub written_1h : Fields → ℤ
unfolding int_field object_field
written_1h raw = creation_count (codes "ephemeral_1h_input_tokens") raw

unfoldable pub total_creation : Fields → ℤ
unfolding int_field
total_creation raw = int_field (codes "cache_creation_input_tokens" ∷ []) raw

-- Tokens of the total that no bucket explains are five-minute ones.
unfoldable pub cache_write_5m : Fields → ℤ
unfolding written_5m written_1h total_creation
cache_write_5m raw =
    let remainder = wrap64 (wrap64 (total_creation raw -ℤ written_5m raw) -ℤ written_1h raw) in
    if ltb_ℤ (pos 0) remainder then wrap64 (written_5m raw +ℤ remainder) else written_5m raw

unfoldable pub anthropic_usage : Fields → Usage
unfolding int_field cache_write_5m written_1h
anthropic_usage raw = record {
  input_tokens = int_field (codes "input_tokens" ∷ []) raw;
  cached_input_tokens = int_field (codes "cache_read_input_tokens" ∷ []) raw;
  cache_write_5m_tokens = cache_write_5m raw;
  cache_write_1h_tokens = written_1h raw;
  output_tokens = int_field (codes "output_tokens" ∷ []) raw;
}

-- `usageFrom`: without a usage object, that of the object under "message".
unfoldable mutual
  unfolding object_field anthropic_usage

  pub usage_from : Fields → Option Usage
  usage_from end = none
  usage_from (field k v fs) =
      let rest = message_usage fs in
      let nested = if str_eq k (codes "message") then value_usage v else rest in
      elim (object_field (codes "usage") (field k v fs)) [
        | some raw ↦ unless_zero (anthropic_usage raw)
        | none ↦ nested
      ]

  -- The usage of the object under "message".
  pub message_usage : Fields → Option Usage
  message_usage end = none
  message_usage (field k v fs) =
      let rest = message_usage fs in if str_eq k (codes "message") then value_usage v else rest

  pub value_usage : Json → Option Usage
  value_usage (object fs) = usage_from fs
  value_usage null = none
  value_usage (bool b) = none
  value_usage (number n) = none
  value_usage (text s) = none
  value_usage (array xs) = none
