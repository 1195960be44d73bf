-- ===== src/Providers/Openai.antt =====
-- internal/providers/openai/openai.go: the adapter of OpenAI and of the vendors that are compatible.
pub mod Streaming
use spendlease.Base.{
  ℕ, Bool, true, false, not, ◌&&◌, ◌||◌, List, [], ◌∷◌, ◌++◌, Option, none, some, Bytes, codes,
  str_eq, if◌then◌else◌, length, ◌==◌,
}
use spendlease.Base.Int.{pos}
use spendlease.Providers.{
  RequestInfo, no_request_info, Usage, BillingCapability, token, no_spend, unsupported, Provider,
}
use spendlease.Providers.Json.{
  Json, Items, Fields, null, bool, number, text, array, object, nil, cons, end, field, member,
  set_member, as_array, as_bool, Codec,
}
use spendlease.Providers.Parse.{
  string_field, int_field, bool_field, object_field, openai_usage_from,
}
use spendlease.Providers.Features.{
  count_prompt_chars, unsupported_billing_feature, unsupported_billing_modifier, or_reason,
}
use spendlease.Store.{is_empty}

abbrev pub default_paths : List Bytes
default_paths =
    codes "/v1/chat/completions"
    ∷ codes "/v1/completions"
    ∷ codes "/v1/responses"
    ∷ codes "/v1/embeddings"
    ∷ codes "/v1/moderations"
    ∷ codes "/v1/images"
    ∷ codes "/v1/audio"
    ∷ codes "/v1/models"
    ∷ []

abbrev pub no_reason : Bytes
no_reason = []

abbrev pub is_models_path : Bytes → Bool
is_models_path path = str_eq path (codes "/v1/models") || str_eq path (codes "/v1/models/")

unfoldable pub billing : Bytes → Bytes → BillingCapability
billing method path =
    if str_eq method (codes "GET") && is_models_path path
    then record { class = no_spend; no_output = false; reason = no_reason }
    else if not (str_eq method (codes "POST"))
    then record {
      class = unsupported;
      no_output = false;
      reason = codes "this method and endpoint do not have a reviewed billing model";
    }
    else if str_eq path (codes "/v1/chat/completions")
        || str_eq path (codes "/v1/completions")
        || str_eq path (codes "/v1/responses")
    then record { class = token; no_output = false; reason = no_reason }
    else if str_eq path (codes "/v1/embeddings")
    then record { class = token; no_output = true; reason = no_reason }
    else record {
      class = unsupported;
      no_output = false;
      reason =
          codes
            "media, moderation, batch, audio, image, and unreviewed endpoints are outside token-budget enforcement";
    }

abbrev pub max_tokens_keys : List Bytes
max_tokens_keys =
    codes "max_tokens" ∷ codes "max_completion_tokens" ∷ codes "max_output_tokens" ∷ []

abbrev pub ordinary_tiers : Bytes → List Bytes
ordinary_tiers name =
    if str_eq name (codes "gemini")
    then codes "default" ∷ codes "standard" ∷ []
    else codes "default" ∷ []

abbrev pub asks_usage : Fields → Bool
asks_usage m = elim (object_field (codes "stream_options") m) [
  | none ↦ false
  | some opts ↦ bool_field (codes "include_usage") opts
]

module _ (c : Codec) where
  unfoldable pub parse_request : Bytes → Bytes → RequestInfo
  unfolding string_field int_field bool_field
  parse_request name body = elim (c.decode body) [
    | none ↦ no_request_info
    | some m ↦ record {
      model = string_field (codes "model") m;
      max_tokens = int_field max_tokens_keys m;
      stream = bool_field (codes "stream") m;
      prompt_chars = count_prompt_chars m;
      request_bytes = pos (length body);
      no_output = false;
      unsupported_billing =
          or_reason (unsupported_billing_feature m)
            (unsupported_billing_modifier c m (codes "service_tier") (ordinary_tiers name));
      wants_usage = asks_usage m;
    }
  ]

  unfoldable pub usage_from_response : Bytes → Option Usage
  unfolding openai_usage_from
  usage_from_response body = elim (c.decode body) [ none ↦ none | some m ↦ openai_usage_from m ]

  -- The options of a stream that does not ask for usage.
  unfoldable pub silent_options : Fields → Option Fields
  unfolding object_field member
  silent_options m = elim (object_field (codes "stream_options") m) [
    | none ↦ some end
    | some opts ↦ elim (as_bool (member (codes "include_usage") opts)) [
      | none ↦ some opts
      | some include ↦ if include then none else some opts
    ]
  ]

  abbrev pub with_usage : Fields → Fields → Fields
  with_usage opts m =
      set_member (codes "stream_options")
        (object (set_member (codes "include_usage") (bool true) opts)) m

  -- The modified body, or `none` where the body stays as it is.
  unfoldable pub enable_stream_usage : Bytes → Option Bytes
  unfolding bool_field silent_options set_member
  enable_stream_usage body = elim (c.decode body) [
    | none ↦ none
    | some m ↦
        if not (bool_field (codes "stream") m)
        then none
        else elim (silent_options m) [ none ↦ none | some opts ↦ c.marshal (with_usage opts m) ]
  ]

  abbrev pub no_choices : Option Items → Bool
  no_choices none = true
  no_choices (some nil) = true
  no_choices (some (cons x xs)) = false

  unfoldable pub is_usage_only_event : Bytes → Bool
  unfolding object_field member
  is_usage_only_event body = elim (c.decode body) [
    | none ↦ false
    | some m ↦ elim (object_field (codes "usage") m) [
      | none ↦ false
      | some _ ↦ no_choices (as_array (member (codes "choices") m))
    ]
  ]

  -- `NewCompatible`
  abbrev pub new_compatible : Bytes → Option Provider
  new_compatible given =
      if is_empty given
      then none
      else some (record {
        name = given;
        paths = default_paths;
        billing = billing;
        parse_request = parse_request given;
        usage_from_response = usage_from_response;
        usage_from_stream_event = usage_from_response;
        enable_stream_usage = enable_stream_usage;
        is_usage_only_event = is_usage_only_event;
      })
