-- ===== src/Providers/Features/Media.antt =====
-- parse.go: the searches through a request reach every depth.
use spendlease.Base.{ℕ, ◌+◌, ◌≤◌, ◌≡◌, Bool, false, ◌||◌, List, [], ◌∷◌, Bytes, length, arith}
use spendlease.Providers.Json.{
  Json, Items, Fields, null, bool, number, text, array, object, nil, cons, end, field,
}
use spendlease.Providers.Features.{
  is_one_of, contains_any_key, items_contain_key, fields_contain_key, contains_type_value,
  items_contain_type, fields_contain_type, has_type, media_keys, media_types,
  unsupported_billing_feature, rune_count, count_chars, count_items, count_fields, prompt_text_keys,
}

-- The elements of an array and the entries of an object.
pub data ItemOf (x : Json) : Items → Type 0 where
  first : {xs : Items} → ItemOf x (cons x xs)
  later : {y : Json} {xs : Items} → ItemOf x xs → ItemOf x (cons y xs)

pub data FieldOf (k : Bytes) (v : Json) : Fields → Type 0 where
  first : {fs : Fields} → FieldOf k v (field k v fs)
  later : {j : Bytes} {w : Json} {fs : Fields} → FieldOf k v fs → FieldOf k v (field j w fs)

-- What stands inside a value, at any depth.
pub data Within (v : Json) : Json → Type 0 where
  whole : Within v v
  element : {x : Json} {xs : Items} → Within v x → ItemOf x xs → Within v (array xs)
  entry : {k : Bytes} {x : Json} {fs : Fields} → Within v x → FieldOf k x fs → Within v (object fs)

module _ (keys : List Bytes) where
  items_contain_key-of :
      (x : Json) (xs : Items)
      → ItemOf x xs
      → items_contain_key keys xs ≡ false
      → contains_any_key keys x ≡ false
  unfolding contains_any_key
  items_contain_key-of x nil i h = elim i [ ]
  items_contain_key-of x (cons y xs) ItemOf.first h = ground arith
  items_contain_key-of x (cons y xs) (ItemOf.later i) h = items_contain_key-of x xs i (ground arith)

  fields_contain_key-of :
      (k : Bytes) (v : Json) (fs : Fields)
      → FieldOf k v fs
      → fields_contain_key keys fs ≡ false
      → (is_one_of keys k ≡ false) × (contains_any_key keys v ≡ false)
  unfolding contains_any_key
  fields_contain_key-of k v end i h = elim i [ ]
  fields_contain_key-of k v (field j w fs) FieldOf.first h = (ground arith, ground arith)
  fields_contain_key-of k v (field j w fs) (FieldOf.later i) h =
      fields_contain_key-of k v fs i (ground arith)

  contains_any_key-Within :
      (v j : Json) → Within v j → contains_any_key keys j ≡ false → contains_any_key keys v ≡ false
  unfolding contains_any_key
  contains_any_key-Within v j Within.whole h = h
  contains_any_key-Within v (array xs) (Within.element {x} w i) h =
      contains_any_key-Within v x w (items_contain_key-of x xs i h)
  contains_any_key-Within v (object fs) (Within.entry {k} {x} w i) h =
      contains_any_key-Within v x w (fields_contain_key-of k x fs i h).1

module _ (types : List Bytes) where
  items_contain_type-of :
      (x : Json) (xs : Items)
      → ItemOf x xs
      → items_contain_type types xs ≡ false
      → contains_type_value types x ≡ false
  unfolding contains_type_value
  items_contain_type-of x nil i h = elim i [ ]
  items_contain_type-of x (cons y xs) ItemOf.first h = ground arith
  items_contain_type-of x (cons y xs) (ItemOf.later i) h =
      items_contain_type-of x xs i (ground arith)

  fields_contain_type-of :
      (k : Bytes) (v : Json) (fs : Fields)
      → FieldOf k v fs
      → fields_contain_type types fs ≡ false
      → contains_type_value types v ≡ false
  unfolding contains_type_value
  fields_contain_type-of k v end i h = elim i [ ]
  fields_contain_type-of k v (field j w fs) FieldOf.first h = ground arith
  fields_contain_type-of k v (field j w fs) (FieldOf.later i) h =
      fields_contain_type-of k v fs i (ground arith)

  contains_type_value-Within :
      (v j : Json)
      → Within v j
      → contains_type_value types j ≡ false
      → contains_type_value types v ≡ false
  unfolding contains_type_value
  contains_type_value-Within v j Within.whole h = h
  contains_type_value-Within v (array xs) (Within.element {x} w i) h =
      contains_type_value-Within v x w (items_contain_type-of x xs i h)
  contains_type_value-Within v (object fs) (Within.entry {k} {x} w i) h =
      contains_type_value-Within v x w (fields_contain_type-of k x fs i (ground arith))

-- If UnsupportedBillingFeature finds nothing in a request, then no object at any depth of the
-- request has one of the media keys, and none with an entry has one of the media types as its
-- type.
pub unsupported_billing_feature_complete :
    (m fs : Fields) (k : Bytes) (v : Json)
    → unsupported_billing_feature m ≡ []
    → Within (object fs) (object m)
    → FieldOf k v fs
    → (is_one_of media_keys k ≡ false) × (has_type media_types fs ≡ false)
unfolding unsupported_billing_feature
unsupported_billing_feature_complete m fs k v h w i =
    let keyless : fields_contain_key media_keys m ≡ false = ground arith in
    let typeless : contains_type_value media_types (object m) ≡ false = ground arith in
    let inner =
      contains_any_key-Within media_keys (object fs) (object m) w
        (unfold contains_any_key in keyless) in
    let inner_types = contains_type_value-Within media_types (object fs) (object m) w typeless in
    (
      (fields_contain_key-of media_keys k v fs i (unfold contains_any_key in inner)).0,
      unfold contains_type_value in ground arith,
    )

-- All bytes of all texts of a value.
abbrev mutual
  pub text_bytes : Json → ℕ
  text_bytes null = 0
  text_bytes (bool b) = 0
  text_bytes (number n) = 0
  text_bytes (text s) = length s
  text_bytes (array xs) = text_bytes_items xs
  text_bytes (object fs) = text_bytes_fields fs

  pub text_bytes_items : Items → ℕ
  text_bytes_items nil = 0
  text_bytes_items (cons x xs) = text_bytes x + text_bytes_items xs

  pub text_bytes_fields : Fields → ℕ
  text_bytes_fields end = 0
  text_bytes_fields (field k v fs) = text_bytes v + text_bytes_fields fs

rune_count-le : (s : Bytes) → rune_count s ≤ length s
unfolding rune_count
rune_count-le [] = omega arith
rune_count-le (c ∷ s) = ground (arith, rune_count-le s)

mutual
  unfolding count_chars

  count_chars-le : (under : Bool) (j : Json) → count_chars under j ≤ text_bytes j
  count_chars-le under null = omega arith
  count_chars-le under (bool b) = omega arith
  count_chars-le under (number n) = omega arith
  count_chars-le under (text s) = ground (arith, rune_count-le s)
  count_chars-le under (array xs) = count_items-le under xs
  count_chars-le under (object fs) = count_fields-le under fs

  count_items-le : (under : Bool) (xs : Items) → count_items under xs ≤ text_bytes_items xs
  count_items-le under nil = omega arith
  count_items-le under (cons x xs) = omega (arith, count_chars-le under x, count_items-le under xs)

  count_fields-le : (under : Bool) (fs : Fields) → count_fields under fs ≤ text_bytes_fields fs
  count_fields-le under end = omega arith
  count_fields-le under (field k v fs) =
      ground
        (arith, count_chars-le (under || is_one_of prompt_text_keys k) v, count_fields-le under fs)

pub count_fields-le-text_bytes :
    (under : Bool) (fs : Fields) → count_fields under fs ≤ text_bytes_fields fs
count_fields-le-text_bytes under fs = count_fields-le under fs
