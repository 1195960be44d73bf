-- ===== src/Billing.antt =====
-- internal/billing/usage.go: provider-neutral billable quantities. A Go map is a list of pairs whose
-- keys differ; no operation below depends on its order.
use spendlease.Base.{
  ℕ, ◌≡◌, refl, Bool, false, not, ◌&&◌, ◌||◌, List, [], ◌∷◌, ◌++◌, Option, none, some, Bytes, codes,
  str_eq, str_leb, leb, ◌==◌, if◌then◌else◌, length, keep, all,
}
use spendlease.Base.Int.{ℤ, pos, ◌+ℤ◌, wrap64, ltb_ℤ, eq_ℤ}
use spendlease.Base.Decimal.{format_int}

abbrev pub Usage : Type 0
Usage = List (Bytes × ℤ)

abbrev pub input_unit : Bytes
input_unit = codes "input_tokens"

abbrev pub cached_input_unit : Bytes
cached_input_unit = codes "cached_input_tokens"

abbrev pub cache_write_5m_unit : Bytes
cache_write_5m_unit = codes "cache_write_5m_tokens"

abbrev pub cache_write_1h_unit : Bytes
cache_write_1h_unit = codes "cache_write_1h_tokens"

abbrev pub output_unit : Bytes
output_unit = codes "output_tokens"

abbrev pub is_nonzero : Bytes × ℤ → Bool
is_nonzero (_, quantity) = not (eq_ℤ quantity (pos 0))

unfoldable pub normalized : Usage → Usage
normalized u = keep is_nonzero u

unfoldable pub token_usage : ℤ → ℤ → ℤ → ℤ → ℤ → Usage
unfolding normalized
token_usage input cached write5m write1h output = normalized (
    (input_unit, input)
    ∷ (cached_input_unit, cached)
    ∷ (cache_write_5m_unit, write5m)
    ∷ (cache_write_1h_unit, write1h)
    ∷ (output_unit, output)
    ∷ [])

abbrev is_lower : ℕ → Bool
is_lower c = leb b'a' c && leb c b'z'

-- A byte that may follow the first one.
abbrev is_unit_char : ℕ → Bool
is_unit_char c = is_lower c || (leb b'0' c && leb c b'9') || c == b'_' || c == b'.'

-- The first byte is a lower-case letter, so `TrimSpace` changes no name that the loop accepts.
unfoldable pub valid_unit : Bytes → Bool
valid_unit [] = false
valid_unit (c ∷ s) = leb (length (c ∷ s)) 64 && is_lower c && all is_unit_char s

abbrev is_valid_quantity : Bytes × ℤ → Bool
unfolding valid_unit
is_valid_quantity (unit, quantity) = valid_unit unit && not (ltb_ℤ quantity (pos 0))

unfoldable pub validate : Usage → Bool
unfolding valid_unit
validate u = all is_valid_quantity u

-- `u[unit]`, zero for a missing key.
unfoldable pub quantity_of : Bytes → Usage → ℤ
quantity_of unit [] = pos 0
quantity_of unit ((k, q) ∷ u) = if str_eq k unit then q else quantity_of unit u

-- `u[unit] += quantity`, in int64.
unfoldable pub add_quantity : Bytes → ℤ → Usage → Usage
add_quantity unit quantity [] = (unit, wrap64 (pos 0 +ℤ quantity)) ∷ []
add_quantity unit quantity ((k, q) ∷ u) =
    if str_eq k unit then (k, wrap64 (q +ℤ quantity)) ∷ u else (k, q) ∷ add_quantity unit quantity u

unfoldable pub add : Usage → Usage → Usage
add u [] = u
add u ((unit, quantity) ∷ other) = add (add_quantity unit quantity u) other

unfoldable pub keys : Usage → List Bytes
keys [] = []
keys ((k, _) ∷ u) = k ∷ keys u

unfoldable pub insert_sorted : Bytes → List Bytes → List Bytes
insert_sorted k [] = k ∷ []
insert_sorted k (j ∷ ks) = if str_leb k j then k ∷ j ∷ ks else j ∷ insert_sorted k ks

-- `sort.Strings`
unfoldable pub sort_strings : List Bytes → List Bytes
unfolding insert_sorted
sort_strings [] = []
sort_strings (k ∷ ks) = insert_sorted k (sort_strings ks)

-- One member of the object. `json.Marshal` quotes a valid unit name as it is.
unfoldable pub member : Usage → Bytes → Bytes
unfolding quantity_of format_int
member u unit = b'"' ∷ (unit ++ (codes "\":" ++ format_int (quantity_of unit u)))

unfoldable pub members : Usage → List Bytes → Bytes
unfolding member
members u [] = []
members u (k ∷ []) = member u k
members u (k ∷ j ∷ ks) = member u k ++ (b',' ∷ members u (j ∷ ks))

unfoldable pub canonical_json : Usage → Option Bytes
unfolding validate normalized keys sort_strings members
canonical_json u =
    let normal = normalized u in
    if validate u
    then some (b'{' ∷ (members normal (sort_strings (keys normal)) ++ codes "}"))
    else none

canonical_json_sample :
    canonical_json (token_usage (pos 12) (pos 0) (pos 0) (pos 0) (pos 7))
    ≡ some (codes "{\"input_tokens\":12,\"output_tokens\":7}")
unfolding canonical_json token_usage str_leb str_eq
canonical_json_sample = refl
