-- ===== src/Providers/Openai/Streaming.antt =====
-- openai.go: EnableStreamUsage asks for usage, and changes nothing that a reservation is made of.
use spendlease.Base.{
  ◌≡◌, refl, ◌∙◌, inl, inr, true, false, List, [], ◌∷◌, none, some, Bytes, codes, str_eq,
  str_eq_iff, str_eq_refl, if◌then◌else◌, arith, Option-cases, any,
}
use spendlease.Providers.Json.{Json, Fields, bool, object, end, field, member, set_member, Codec}
use spendlease.Providers.Parse.{string_field, int_field, bool_field, object_field}
use spendlease.Providers.Openai.{
  parse_request, silent_options, with_usage, enable_stream_usage, max_tokens_keys, asks_usage,
}

member-set :
    (j k : Bytes) (v : Json) (fs : Fields)
    → member j (set_member k v fs) ≡ (if str_eq k j then some v else member j fs)
unfolding member set_member
member-set j k v end = refl
member-set j k v (field i w fs) =
    ground (arith, member-set j k v fs, str_eq_iff i k, str_eq_iff k j, str_eq_iff i j)

member-set_other :
    (j k : Bytes) (v : Json) (fs : Fields)
    → str_eq k j ≡ false
    → member j (set_member k v fs) ≡ member j fs
member-set_other j k v fs h = member-set j k v fs ∙ ground arith

member-set_same : (k : Bytes) (v : Json) (fs : Fields) → member k (set_member k v fs) ≡ some v
member-set_same k v fs = member-set k k v fs ∙ ground (arith, str_eq_refl k)

int_field-set :
    (ks : List Bytes) (k : Bytes) (v : Json) (fs : Fields)
    → any (str_eq k) ks ≡ false
    → int_field ks (set_member k v fs) ≡ int_field ks fs
unfolding int_field
int_field-set [] k v fs h = refl
int_field-set (j ∷ ks) k v fs h = ground (arith, int_field-set ks k v fs, member-set_other j k v fs)

string_field-set :
    (j k : Bytes) (v : Json) (fs : Fields)
    → str_eq k j ≡ false
    → string_field j (set_member k v fs) ≡ string_field j fs
unfolding string_field
string_field-set j k v fs h = ground (arith, member-set_other j k v fs)

bool_field-set :
    (j k : Bytes) (v : Json) (fs : Fields)
    → str_eq k j ≡ false
    → bool_field j (set_member k v fs) ≡ bool_field j fs
unfolding bool_field
bool_field-set j k v fs h = ground (arith, member-set_other j k v fs)

-- What encoding/json writes, it reads back.
abbrev pub IsFaithful : Codec → Type 0
IsFaithful c = (m : Fields) (b : Bytes) → c.marshal m ≡ some b → c.decode b ≡ some m

asks_usage-with_usage : (c : Codec) (opts m : Fields) → asks_usage (with_usage c opts m) ≡ true
unfolding object_field bool_field
asks_usage-with_usage c opts m = ground (
  arith,
  member-set_same (codes "stream_options")
      (object (set_member (codes "include_usage") (bool true) opts)) m,
  member-set_same (codes "include_usage") (bool true) opts,
)

silent_options-with_usage :
    (c : Codec) (opts m : Fields) → silent_options c (with_usage c opts m) ≡ none
unfolding silent_options
silent_options-with_usage c opts m = ground (
  arith,
  member-set_same (codes "stream_options")
      (object (set_member (codes "include_usage") (bool true) opts)) m,
  member-set_same (codes "include_usage") (bool true) opts,
)

other_keys :
    (any (str_eq (codes "stream_options")) max_tokens_keys ≡ false)
    × (str_eq (codes "stream_options") (codes "model") ≡ false)
    × (str_eq (codes "stream_options") (codes "stream") ≡ false)
unfolding str_eq
other_keys = (refl, refl, refl)

-- The steps of a body that is modified.
enable_stream_usage_inv :
    (c : Codec) (body body' : Bytes)
    → enable_stream_usage c body ≡ some body'
    → (m : Fields) × (opts : Fields) × (c.decode body ≡ some m)
      × (bool_field (codes "stream") m ≡ true)
      × (c.marshal (with_usage c opts m) ≡ some body')
unfolding enable_stream_usage
enable_stream_usage_inv c body body' h = elim (Option-cases (c.decode body)) [
  | inl n ↦ absurd (ground arith)
  | inr (m, d) ↦ elim (Option-cases (silent_options c m)) [
    | inl n ↦ absurd (ground arith)
    | inr (opts, o) ↦ (m, opts, d, ground arith, ground arith)
  ]
]

-- If encoding/json reads back what it writes and EnableStreamUsage modifies a body, then
-- ParseRequest of the new body reports that usage is wanted, and the same model, output ceiling
-- and stream flag as before, and the new body is not modified again.
pub enable_stream_usage-parse_request :
    (c : Codec) (name body body' : Bytes)
    → IsFaithful c
    → enable_stream_usage c body ≡ some body'
    → ((parse_request c name body').wants_usage ≡ true)
      × ((parse_request c name body').model ≡ (parse_request c name body).model)
      × ((parse_request c name body').max_tokens ≡ (parse_request c name body).max_tokens)
      × ((parse_request c name body').stream ≡ (parse_request c name body).stream)
      × (enable_stream_usage c body' ≡ none)
unfolding parse_request enable_stream_usage
enable_stream_usage-parse_request c name body body' faithful h =
    let (m, opts, d, streams, written) = enable_stream_usage_inv c body body' h in
    let back = faithful (with_usage c opts m) body' written in
    let v = object (set_member (codes "include_usage") (bool true) opts) in
    let (tokens, model, stream) = other_keys in
    (
      ground (arith, asks_usage-with_usage c opts m),
      ground (arith, string_field-set (codes "model") (codes "stream_options") v m model),
      ground (arith, int_field-set max_tokens_keys (codes "stream_options") v m tokens),
      ground (arith, bool_field-set (codes "stream") (codes "stream_options") v m stream),
      ground (arith, silent_options-with_usage c opts m),
    )
