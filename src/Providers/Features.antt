-- ===== src/Providers/Features.antt =====
-- internal/providers/parse.go: the text of a prompt, and what a token budget does not cover.
pub mod Media
use spendlease.Base.{
  ℕ, zero, suc, ◌+◌, Bool, true, false, not, ◌&&◌, ◌||◌, List, [], ◌∷◌, ◌++◌, Option, none, some,
  Bytes, codes, str_eq, if◌then◌else◌, leb, ltb, any, ◌==◌,
}
use spendlease.Base.Int.{ℤ, pos, wrap64}
use spendlease.Providers.Json.{
  Number, Json, Items, Fields, null, bool, number, text, array, object, nil, cons, end, field,
  member, as_array, as_text, Codec,
}
use spendlease.Providers.Parse.{string_field}
use spendlease.Store.{is_empty}

abbrev pub is_one_of : List Bytes → Bytes → Bool
is_one_of ks k = any (λ j. str_eq j k) ks

abbrev pub prompt_text_keys : List Bytes
prompt_text_keys =
    codes "messages"
    ∷ codes "system"
    ∷ codes "prompt"
    ∷ codes "input"
    ∷ codes "content"
    ∷ codes "text"
    ∷ []

abbrev pub structural_keys : List Bytes
structural_keys =
    codes "role"
    ∷ codes "type"
    ∷ codes "name"
    ∷ codes "id"
    ∷ codes "url"
    ∷ codes "image_url"
    ∷ codes "media_type"
    ∷ codes "cache_control"
    ∷ []

-- `len([]rune(s))`: the bytes of a UTF-8 text that start a character.
unfoldable pub rune_count : Bytes → ℕ
rune_count [] = 0
rune_count (c ∷ s) = (if leb 128 c && ltb c 192 then 0 else 1) + rune_count s

-- `countChars`; the sums are taken exactly and wrap at the end.
unfoldable mutual
  pub count_chars : Bool → Json → ℕ
  count_chars under null = 0
  count_chars under (bool b) = 0
  count_chars under (number n) = 0
  count_chars under (text s) = if under then rune_count s else 0
  count_chars under (array xs) = count_items under xs
  count_chars under (object fs) = count_fields under fs

  pub count_items : Bool → Items → ℕ
  count_items under nil = 0
  count_items under (cons x xs) = count_chars under x + count_items under xs

  pub count_fields : Bool → Fields → ℕ
  count_fields under end = 0
  count_fields under (field k v fs) =
      (if is_one_of structural_keys k
        then 0
        else count_chars (under || is_one_of prompt_text_keys k) v)
      + count_fields under fs

unfoldable pub count_prompt_chars : Fields → ℤ
unfolding count_chars
count_prompt_chars m = wrap64 (pos (count_fields false m))

abbrev pub has_type : List Bytes → Fields → Bool
has_type types fs = elim (as_text (member (codes "type") fs)) [
  | some kind ↦ is_one_of types kind
  | none ↦ false
]

unfoldable mutual
  pub contains_type_value : List Bytes → Json → Bool
  contains_type_value types null = false
  contains_type_value types (bool b) = false
  contains_type_value types (number n) = false
  contains_type_value types (text s) = false
  contains_type_value types (array xs) = items_contain_type types xs
  contains_type_value types (object fs) = has_type types fs || fields_contain_type types fs

  pub items_contain_type : List Bytes → Items → Bool
  items_contain_type types nil = false
  items_contain_type types (cons x xs) = contains_type_value types x || items_contain_type types xs

  pub fields_contain_type : List Bytes → Fields → Bool
  fields_contain_type types end = false
  fields_contain_type types (field k v fs) =
      contains_type_value types v || fields_contain_type types fs

unfoldable mutual
  pub contains_any_key : List Bytes → Json → Bool
  contains_any_key keys null = false
  contains_any_key keys (bool b) = false
  contains_any_key keys (number n) = false
  contains_any_key keys (text s) = false
  contains_any_key keys (array xs) = items_contain_key keys xs
  contains_any_key keys (object fs) = fields_contain_key keys fs

  pub items_contain_key : List Bytes → Items → Bool
  items_contain_key keys nil = false
  items_contain_key keys (cons x xs) = contains_any_key keys x || items_contain_key keys xs

  pub fields_contain_key : List Bytes → Fields → Bool
  fields_contain_key keys end = false
  fields_contain_key keys (field k v fs) =
      is_one_of keys k || contains_any_key keys v || fields_contain_key keys fs

abbrev pub media_keys : List Bytes
media_keys =
    codes "image_url"
    ∷ codes "input_image"
    ∷ codes "input_audio"
    ∷ codes "audio"
    ∷ codes "file"
    ∷ codes "file_id"
    ∷ codes "inline_data"
    ∷ codes "input_file"
    ∷ codes "attachments"
    ∷ []

abbrev pub media_types : List Bytes
media_types =
    codes "image"
    ∷ codes "input_image"
    ∷ codes "audio"
    ∷ codes "input_audio"
    ∷ codes "document"
    ∷ codes "file"
    ∷ codes "input_file"
    ∷ codes "video"
    ∷ codes "input_video"
    ∷ []

abbrev pub media_reason : Bytes
media_reason = codes "media or file inputs have billing dimensions outside the token price book"

abbrev pub tools_reason : Bytes
tools_reason = codes "provider-hosted tools may add charges outside the token price book"

-- `tool, _ := raw.(map[string]any)`, and a type that is neither a function nor custom.
abbrev pub tool_fields : Json → Fields
tool_fields (object fs) = fs
tool_fields null = end
tool_fields (bool b) = end
tool_fields (number n) = end
tool_fields (text s) = end
tool_fields (array xs) = end

abbrev pub is_hosted : Bytes → Bool
is_hosted kind =
    not (is_empty kind)
    && not (str_eq kind (codes "function"))
    && not (str_eq kind (codes "custom"))

unfoldable pub any_hosted : Items → Bool
unfolding string_field
any_hosted nil = false
any_hosted (cons x xs) = is_hosted (string_field (codes "type") (tool_fields x)) || any_hosted xs

abbrev pub has_hosted_tools : Fields → Bool
has_hosted_tools m = elim (as_array (member (codes "tools") m)) [
  | none ↦ false
  | some xs ↦ any_hosted xs
]

unfoldable pub unsupported_billing_feature : Fields → Bytes
unfolding contains_any_key contains_type_value any_hosted
unsupported_billing_feature m =
    if fields_contain_key media_keys m
    then media_reason
    else if contains_type_value media_types (object m)
    then media_reason
    else if has_hosted_tools m
    then tools_reason
    else []

abbrev pub unreviewed : Bytes → Bytes
unreviewed name =
    name
    ++ codes
        " has an unreviewed value that may select provider pricing outside the token price book"

abbrev pub modifier_reason : Codec → Bytes → List Bytes → Json → Bytes
modifier_reason c name ordinary null = []
modifier_reason c name ordinary (text s) =
    if is_one_of ordinary s
    then []
    else name
      ++ codes " "
      ++ c.quote s
      ++ codes " can select provider pricing outside the token price book"
modifier_reason c name ordinary (bool b) = unreviewed name
modifier_reason c name ordinary (number n) = unreviewed name
modifier_reason c name ordinary (array xs) = unreviewed name
modifier_reason c name ordinary (object fs) = unreviewed name

unfoldable pub unsupported_billing_modifier : Codec → Fields → Bytes → List Bytes → Bytes
unfolding member
unsupported_billing_modifier c m name ordinary = elim (member name m) [
  | none ↦ []
  | some v ↦ modifier_reason c name ordinary v
]

-- The first reason that is not empty.
abbrev pub or_reason : Bytes → Bytes → Bytes
or_reason first second = if is_empty first then second else first
