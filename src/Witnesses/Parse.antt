-- ===== src/Witnesses/Parse.antt =====
-- The theorems on what is read of requests and responses, at small documents.
use native.Mathlib.Decide.{ℕ_discrete}
use mathlib.Core.Logic.{ite, if_pos, if_neg}
use spendlease.Base.{
  ℕ, ◌≡◌, refl, ap, sym, ◌∙◌, str_leb, inr, true, false, not, [], Option, none, some, Bytes, codes,
  str_eq, if◌then◌else◌, arith, ◌==◌, ◌+◌,
}
use spendlease.Base.Int.{pos, pos_part}
use spendlease.Providers.{total_input_tokens}
use spendlease.Providers.Json.{
  Json, Fields, bool, number, text, array, object, nil, cons, end, field, member, set_member, Codec,
}
use spendlease.Providers.Parse.{
  prompt_tokens, cached_tokens, cache_write_tokens, cache_miss_tokens, completion_tokens,
  reasoning_tokens, total_tokens, openai_usage,
}
use spendlease.Providers.Parse.Accounting.{IsConsistent, openai_usage_accounts}
use spendlease.Providers.Features.{
  is_one_of, media_keys, media_types, has_type, unsupported_billing_feature,
}
use spendlease.Providers.Features.Media.{
  ItemOf, FieldOf, Within, unsupported_billing_feature_complete,
}
use spendlease.Providers.Openai.{parse_request, enable_stream_usage}
use spendlease.Providers.Openai.Streaming.{IsFaithful, enable_stream_usage-parse_request}
use spendlease.Providers.Anthropic.{written_5m, written_1h, total_creation}

abbrev count : ℕ → Json
count n = number (record { is_positive = not (n == 0); as_int64 = pos n })

abbrev reported : Fields
reported = field (codes "prompt_tokens") (count 10) (
    field (codes "prompt_tokens_details") (object (field (codes "cached_tokens") (count 4) end)) (
      field (codes "completion_tokens") (count 7) (
        field (codes "completion_tokens_details")
          (object (field (codes "reasoning_tokens") (count 3) end))
          (field (codes "total_tokens") (count 20) end))))

reported-IsConsistent : IsConsistent reported 10 4 0 7 3 20
unfolding prompt_tokens cached_tokens cache_write_tokens cache_miss_tokens completion_tokens
    reasoning_tokens total_tokens str_eq
reported-IsConsistent = record {
  prompt_is = refl;
  cached_is = refl;
  written_is = refl;
  missed_is = refl;
  completion_is = refl;
  reasoning_is = refl;
  total_is = refl;
  contained = omega arith;
  totalled = inr (omega arith);
  bounded = omega arith;
}

openai_usage_accounts_example :
    (total_input_tokens (openai_usage reported) ≡ pos 10)
    × (pos_part (total_input_tokens (openai_usage reported))
          + pos_part (openai_usage reported).output_tokens
        ≡ 20)
openai_usage_accounts_example = openai_usage_accounts reported 10 4 0 7 3 20 reported-IsConsistent

abbrev message : Fields
message =
    field (codes "role") (text (codes "user")) (field (codes "content") (text (codes "hi")) end)

abbrev chat : Fields
chat = field (codes "messages") (array (cons (object message) nil)) end

chat_is_plain : unsupported_billing_feature chat ≡ []
unfolding unsupported_billing_feature member str_eq
chat_is_plain = refl

message-Within : Within (object message) (object chat)
message-Within = Within.entry (Within.element Within.whole ItemOf.first) FieldOf.first

role_of : FieldOf (codes "role") (text (codes "user")) message
role_of = FieldOf.first

unsupported_billing_feature_complete_example :
    (is_one_of media_keys (codes "role") ≡ false) × (has_type media_types message ≡ false)
unsupported_billing_feature_complete_example =
    unsupported_billing_feature_complete chat message (codes "role") (text (codes "user"))
      chat_is_plain message-Within role_of

abbrev creations : Fields
creations =
    field (codes "cache_creation")
      (object (field (codes "ephemeral_5m_input_tokens") (count 6) end))
      (field (codes "cache_creation_input_tokens") (count 9) end)

created_5m : written_5m creations ≡ pos 6
unfolding written_5m str_eq
created_5m = refl

created_1h : written_1h creations ≡ pos 0
unfolding written_1h str_eq
created_1h = refl

created_total : total_creation creations ≡ pos 9
unfolding total_creation str_eq
created_total = refl

abbrev streaming : Fields
streaming = field (codes "stream") (bool true) end

abbrev with_options : Fields
with_options =
    field (codes "stream") (bool true)
      (field (codes "stream_options") (object (field (codes "include_usage") (bool true) end)) end)

Fields-discrete : Discrete Fields
Fields-discrete = hlevel (ℕ_discrete)

-- A codec that knows two documents.
abbrev written : Fields → Option Bytes
written m = ite (Fields-discrete m with_options) (some (codes "w")) none

abbrev read_back : Bytes → Option Fields
read_back b =
    if str_eq b (codes "w")
    then some with_options
    else if str_eq b (codes "r")
    then some streaming
    else none

abbrev codec : Codec
codec = record { decode = read_back; marshal = written; quote = λ s. s }

codec-IsFaithful : IsFaithful codec
unfolding str_eq
codec-IsFaithful m b h = elim (Fields-discrete m with_options) [
  | yes e ↦
      let same : some (codes "w") ≡ some b =
        sym (if_pos (Fields-discrete m with_options) e (some (codes "w")) none) ∙ h in
      let w : codes "w" ≡ b = cc in ap read_back (sym w) ∙ ap some (sym e)
  | no n ↦
      let never : none ≡ some b =
        sym (if_neg (Fields-discrete m with_options) n (some (codes "w")) none) ∙ h in
      cc never
]

asks : enable_stream_usage codec (codes "r") ≡ some (codes "w")
unfolding enable_stream_usage str_eq member set_member str_leb
asks = if_pos (Fields-discrete with_options with_options) refl (some (codes "w")) none

enable_stream_usage-parse_request_example :
    ((parse_request codec (codes "openai") (codes "w")).wants_usage ≡ true)
    × ((parse_request codec (codes "openai") (codes "w")).model
        ≡ (parse_request codec (codes "openai") (codes "r")).model)
    × ((parse_request codec (codes "openai") (codes "w")).max_tokens
        ≡ (parse_request codec (codes "openai") (codes "r")).max_tokens)
    × ((parse_request codec (codes "openai") (codes "w")).stream
        ≡ (parse_request codec (codes "openai") (codes "r")).stream)
    × (enable_stream_usage codec (codes "w") ≡ none)
enable_stream_usage-parse_request_example =
    enable_stream_usage-parse_request codec (codes "openai") (codes "r") (codes "w")
      codec-IsFaithful asks
