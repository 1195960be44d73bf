-- ===== src/Providers/Json.antt =====
-- Decoded JSON as parse.go sees it (`any` and `map[string]any`). A Go map is the list of its entries in
-- the order of their keys, each key once. Of a float64 the code asks whether it is positive and its int64.
use spendlease.Base.{Bool, Option, none, some, Bytes, str_eq, str_leb, if◌then◌else◌}
use spendlease.Base.Int.{ℤ}

pub record Number : Type 0 where
  pub is_positive : Bool
  pub as_int64 : ℤ

mutual
  pub data Json : Type 0 where
    null : Json
    bool : Bool → Json
    number : Number → Json
    text : Bytes → Json
    array : Items → Json
    object : Fields → Json

  pub data Items : Type 0 where
    nil : Items
    cons : Json → Items → Items

  pub data Fields : Type 0 where
    end : Fields
    field : Bytes → Json → Fields → Fields

unfoldable pub member : Bytes → Fields → Option Json
member k end = none
member k (field j v fs) = if str_eq j k then some v else member k fs

-- `m[k] = v`
unfoldable pub set_member : Bytes → Json → Fields → Fields
set_member k v end = field k v end
set_member k v (field j w fs) =
    if str_eq j k
    then field j v fs
    else if str_leb k j
    then field k v (field j w fs)
    else field j w (set_member k v fs)

-- The type assertions.
abbrev pub as_object : Option Json → Option Fields
as_object (some (object fs)) = some fs
as_object (some null) = none
as_object (some (bool b)) = none
as_object (some (number n)) = none
as_object (some (text s)) = none
as_object (some (array xs)) = none
as_object none = none

abbrev pub as_array : Option Json → Option Items
as_array (some (array xs)) = some xs
as_array (some null) = none
as_array (some (bool b)) = none
as_array (some (number n)) = none
as_array (some (text s)) = none
as_array (some (object fs)) = none
as_array none = none

abbrev pub as_text : Option Json → Option Bytes
as_text (some (text s)) = some s
as_text (some null) = none
as_text (some (bool b)) = none
as_text (some (number n)) = none
as_text (some (array xs)) = none
as_text (some (object fs)) = none
as_text none = none

abbrev pub as_bool : Option Json → Option Bool
as_bool (some (bool b)) = some b
as_bool (some null) = none
as_bool (some (text s)) = none
as_bool (some (number n)) = none
as_bool (some (array xs)) = none
as_bool (some (object fs)) = none
as_bool none = none

abbrev pub as_number : Option Json → Option Number
as_number (some (number n)) = some n
as_number (some null) = none
as_number (some (text s)) = none
as_number (some (bool b)) = none
as_number (some (array xs)) = none
as_number (some (object fs)) = none
as_number none = none

-- encoding/json and the verb %q of fmt: a body that is no object decodes to `none`.
pub record Codec : Type 0 where
  pub decode : Bytes → Option Fields
  pub marshal : Fields → Option Bytes
  pub quote : Bytes → Bytes
