-- ===== src/Money.antt =====
-- internal/money/money.go: amounts in nanodollars, their decimal text, and the parser of such texts.
-- `strings.TrimSpace` is modelled for ASCII texts.
pub mod Digits
pub mod Range
pub mod RoundTrip
use spendlease.Base.{
  ℕ, zero, suc, ◌+◌, ◌-◌, ◌*◌, ◌/◌, ◌%◌, ◌^◌, ◌≡◌, refl, Bool, true, false, not, ◌&&◌, ◌||◌, List,
  [], ◌∷◌, ◌++◌, Option, none, some, Bytes, codes, leb, ltb, ◌==◌, if◌then◌else◌, length, replicate,
  all,
}
use spendlease.Base.Int.{ℤ, pos, negsuc, ◌-ℤ◌, wrap64, ltb_ℤ, eq_ℤ}
use spendlease.Base.Decimal.{format_nat, format_int, is_digit, value_from}

abbrev pub dollar : ℕ
dollar = 1000000000

abbrev pub max_integer_dollars : ℕ
max_integer_dollars = 9223372035

abbrev is_space : ℕ → Bool
is_space c = c == b' ' || (leb 9 c && leb c 13)

unfoldable pub trim_left : Bytes → Bytes
trim_left [] = []
trim_left (c ∷ s) = if is_space c then trim_left s else c ∷ s

abbrev pub is_nil : Bytes → Bool
is_nil [] = true
is_nil (_ ∷ _) = false

-- Drop the longest run at the end whose bytes all pass the test.
unfoldable pub trim_end : (ℕ → Bool) → Bytes → Bytes
trim_end p [] = []
trim_end p (c ∷ s) = let rest = trim_end p s in if is_nil rest && p c then [] else c ∷ rest

-- `strings.TrimSpace`
unfoldable pub trim_space : Bytes → Bytes
trim_space s = trim_end is_space (trim_left s)

-- `strings.TrimPrefix(s, "$")`
unfoldable pub drop_dollar : Bytes → Bytes
drop_dollar [] = []
drop_dollar (c ∷ s) = if c == b'$' then s else c ∷ s

-- The sign, and what follows it.
unfoldable pub split_sign : Bytes → Bool × Bytes
split_sign [] = (false, [])
split_sign (c ∷ s) =
    if c == b'-' then (true, s) else if c == b'+' then (false, s) else (false, c ∷ s)

-- `strings.Cut(s, ".")`
unfoldable pub cut_point : Bytes → Bytes × Bytes × Bool
cut_point [] = ([], [], false)
cut_point (c ∷ s) =
    let (before, after, found) = cut_point s in
    if c == b'.' then ([], s, true) else (c ∷ before, after, found)

-- `allDigits`
unfoldable pub all_digits : Bytes → Bool
all_digits s = not (is_nil s) && all is_digit s

-- `strconv.ParseInt(s, 10, 64)` of a text of digits.
unfoldable pub parse_int : Bytes → Option ℕ
parse_int s = let n = value_from 0 s in if ltb n (2 ^ 63) then some n else none

-- The fraction, filled with zeros on the right to nine digits.
unfoldable pub pad_right : Bytes → Bytes
pad_right s = s ++ replicate (9 - length s) b'0'

-- The sum is an int64, and so is its negation.
unfoldable pub total_of : Bool → ℕ → ℕ → Option ℤ
total_of neg dollars nanos =
    let total = wrap64 (pos (dollars * dollar + nanos)) in
    if ltb_ℤ total (pos 0) then none else some (if neg then wrap64 (pos 0 -ℤ total) else total)

unfoldable pub parse_parts : Bool → Bytes → Bytes → Bool → Option ℤ
parse_parts neg whole frac has_frac =
    let digits = if is_nil whole then b'0' ∷ [] else whole in
    if has_frac && is_nil frac
    then none
    else if not (all_digits digits) || (has_frac && not (all_digits frac)) || ltb 9 (length frac)
    then none
    else elim (parse_int digits) [
      | none ↦ none
      | some dollars ↦
          if ltb max_integer_dollars dollars then none else elim (parse_int (pad_right frac)) [
            | none ↦ none
            | some nanos ↦ total_of neg dollars nanos
          ]
    ]

unfoldable pub parse_signed : Bytes → Option ℤ
parse_signed s =
    let (neg, rest) = split_sign s in
    let (whole, frac, has_frac) = cut_point rest in
    if is_nil s || is_nil rest then none else parse_parts neg whole frac has_frac

-- `ParseUSD`; `none` is ErrInvalidAmount.
unfoldable pub parse_usd : Bytes → Option ℤ
parse_usd s = parse_signed (trim_space (drop_dollar (trim_space s)))

-- Go's division and remainder by a positive number: towards zero.
unfoldable pub div_dollar : ℤ → ℤ
div_dollar (pos n) = pos (n / dollar)
div_dollar (negsuc n) = pos 0 -ℤ pos (suc n / dollar)

unfoldable pub mod_dollar : ℤ → ℤ
mod_dollar (pos n) = pos (n % dollar)
mod_dollar (negsuc n) = pos 0 -ℤ pos (suc n % dollar)

unfoldable pub pad_left : ℕ → Bytes → Bytes
pad_left width s = replicate (width - length s) b'0' ++ s

-- `fmt.Sprintf("%09d", n)`
unfoldable pub pad_nine : ℤ → Bytes
unfolding pad_left
pad_nine (pos n) = pad_left 9 (format_nat n)
pad_nine (negsuc n) = b'-' ∷ pad_left 8 (format_nat (suc n))

-- The loop that keeps two decimal places.
unfoldable pub at_least_two : Bytes → Bytes
at_least_two [] = codes "00"
at_least_two (c ∷ []) = c ∷ b'0' ∷ []
at_least_two (c ∷ d ∷ s) = c ∷ d ∷ s

-- `-n` in int64: the least value is its own negation.
unfoldable pub magnitude : ℤ → ℤ
magnitude n = if ltb_ℤ n (pos 0) then wrap64 (pos 0 -ℤ n) else n

-- Whole dollars, a point, and the fraction without its trailing zeros.
unfoldable pub amount_text : ℤ → Bytes
unfolding div_dollar mod_dollar pad_nine trim_end at_least_two format_int
amount_text v =
    format_int (div_dollar v)
    ++ (b'.' ∷ at_least_two (trim_end (λ c. c == b'0') (pad_nine (mod_dollar v))))

-- `Nanos.String`
unfoldable pub to_string : ℤ → Bytes
to_string n = let out = amount_text (magnitude n) in if ltb_ℤ n (pos 0) then b'-' ∷ out else out

to_string_sample : to_string (pos 2500) ≡ codes "0.0000025"
unfolding to_string amount_text magnitude
to_string_sample = refl

parse_usd_sample : parse_usd (codes " $-1.5 ") ≡ some (negsuc 1499999999)
unfolding parse_usd parse_signed parse_parts split_sign cut_point all_digits parse_int pad_right
    total_of trim_space trim_left trim_end drop_dollar value_from wrap64 ◌-ℤ◌
parse_usd_sample = refl

-- The least int64 is printed as no amount.
to_string_least : to_string (negsuc 9223372036854775807) ≡ codes "--9223372036.-854775808"
unfolding to_string amount_text magnitude wrap64 ◌-ℤ◌
to_string_least = refl
