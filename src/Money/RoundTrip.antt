-- ===== src/Money/RoundTrip.antt =====
-- ParseUSD reads back what String writes.
use spendlease.Base.{
  ℕ, suc, ◌+◌, ◌*◌, ◌/◌, ◌%◌, ◌^◌, ◌≤◌, ◌<◌, ◌≡◌, ◌≢◌, refl, ◌∙◌, ap, Bool, true, false, ◌||◌, [],
  ◌∷◌, ◌++◌, some, arith, Bytes, ◌==◌, if◌then◌else◌, all,
}
use spendlease.Base.Int.{ℤ, pos, negsuc, pos_part, neg_part, ◌-ℤ◌, wrap64, wrap64_id}
use spendlease.Base.Decimal.{
  format_nat, is_digit, value_from, value_from-format_nat, all-format_nat, format_nat-ne-nil,
}
use spendlease.Money.{
  trim_space, trim_left, trim_end, is_space, is_nil, drop_dollar, split_sign, cut_point, all_digits,
  parse_int, pad_right, total_of, parse_parts, parse_signed, parse_usd, to_string, amount_text,
  dollar, max_integer_dollars, magnitude,
}
use spendlease.Money.Digits.{all-append, fraction, fraction_digits}

-- The bytes that an amount is printed with.
abbrev is_amount_char : ℕ → Bool
is_amount_char c = is_digit c || c == b'.' || c == b'-'

trim_end_clean : (s : Bytes) → all is_amount_char s ≡ true → trim_end is_space s ≡ s
unfolding trim_end
trim_end_clean [] h = refl
trim_end_clean (c ∷ s) h = ground (arith, trim_end_clean s)

trim_space_clean : (s : Bytes) → all is_amount_char s ≡ true → trim_space s ≡ s
unfolding trim_space trim_end trim_left
trim_space_clean [] h = refl
trim_space_clean (c ∷ s) h = ground (arith, trim_end_clean (c ∷ s))

drop_dollar_clean : (s : Bytes) → all is_amount_char s ≡ true → drop_dollar s ≡ s
unfolding drop_dollar
drop_dollar_clean [] h = refl
drop_dollar_clean (c ∷ s) h = ground arith

parse_usd_clean : (s : Bytes) → all is_amount_char s ≡ true → parse_usd s ≡ parse_signed s
unfolding parse_usd
parse_usd_clean s h = rw (trim_space_clean s h, drop_dollar_clean s h, trim_space_clean s h)

cut_point-digits :
    (s t : Bytes) → all is_digit s ≡ true → cut_point (s ++ (b'.' ∷ t)) ≡ (s, t, true)
unfolding cut_point
cut_point-digits [] t h = refl
cut_point-digits (c ∷ s) t h = ground (arith, cut_point-digits s t)

is_nil-false : (s : Bytes) → s ≢ [] → is_nil s ≡ false
is_nil-false [] h = absurd (h refl)
is_nil-false (c ∷ s) h = refl

is_nil-format_nat : (n : ℕ) → is_nil (format_nat n) ≡ false
is_nil-format_nat n = is_nil-false (format_nat n) (format_nat-ne-nil n)

-- The text of an amount that is not negative.
unfoldable pub text_of : ℕ → Bytes
text_of m = format_nat (m / dollar) ++ (b'.' ∷ fraction (m % dollar))

all-amount_digits : (s : Bytes) → all is_digit s ≡ true → all is_amount_char s ≡ true
all-amount_digits [] h = refl
all-amount_digits (c ∷ s) h = ground (arith, all-amount_digits s)

text_of_clean : (m : ℕ) → all is_amount_char (text_of m) ≡ true
unfolding text_of
text_of_clean m =
    let (_, _, digits, _) = fraction_digits (m % dollar) (omega arith) in
    all-append is_amount_char (format_nat (m / dollar)) (b'.' ∷ fraction (m % dollar))
    ∙ rw (
      all-amount_digits (format_nat (m / dollar)) (all-format_nat (m / dollar)),
      all-amount_digits (fraction (m % dollar)) digits,
    )

-- A number is read back from its digits, so there is at least one.
parse_int_value : (s : Bytes) (n : ℕ) → value_from 0 s ≡ n → n < 2 ^ 63 → parse_int s ≡ some n
unfolding parse_int
parse_int_value s n e h = ground arith

total_of_fits :
    (neg : Bool) (dollars nanos : ℕ)
    → dollars ≤ max_integer_dollars
    → nanos < dollar
    → total_of neg dollars nanos
      ≡ some (
          if neg
          then wrap64 (pos 0 -ℤ pos (dollars * dollar + nanos))
          else pos (dollars * dollar + nanos))
unfolding total_of
total_of_fits neg dollars nanos h k =
    let n = dollars * dollar + nanos in
    let same : wrap64 (pos n) ≡ pos n = wrap64_id (pos n) (omega arith) in rw same (ground arith)

parse_parts-text :
    (neg : Bool) (m : ℕ)
    → m / dollar ≤ max_integer_dollars
    → parse_parts neg (format_nat (m / dollar)) (fraction (m % dollar)) true
      ≡ some (if neg then wrap64 (pos 0 -ℤ pos m) else pos m)
unfolding parse_parts all_digits
parse_parts-text neg m h =
    let (short, some_digit, digits, value) = fraction_digits (m % dollar) (omega arith) in
    let whole : m / dollar * dollar + m % dollar ≡ m = omega arith in
    ground (
      arith,
      all-format_nat (m / dollar),
      is_nil-format_nat (m / dollar),
      parse_int_value (format_nat (m / dollar)) (m / dollar) (value_from-format_nat (m / dollar)),
      parse_int_value (pad_right (fraction (m % dollar))) (m % dollar) value,
      total_of_fits neg (m / dollar) (m % dollar) h,
    )

split_sign-digits :
    (s t : Bytes) → is_nil s ≡ false → all is_digit s ≡ true → split_sign (s ++ t) ≡ (false, s ++ t)
unfolding split_sign
split_sign-digits [] t h k = cc
split_sign-digits (c ∷ s) t h k = ground arith

is_nil-append : (s t : Bytes) → is_nil s ≡ false → is_nil (s ++ t) ≡ false
is_nil-append [] t h = cc
is_nil-append (c ∷ s) t h = refl

parse_signed-text :
    (m : ℕ) → m / dollar ≤ max_integer_dollars → parse_signed (text_of m) ≡ some (pos m)
unfolding parse_signed text_of
parse_signed-text m h =
    let whole = format_nat (m / dollar) in
    let tail = b'.' ∷ fraction (m % dollar) in
    ground (
      arith,
      split_sign-digits whole tail (is_nil-format_nat (m / dollar)) (all-format_nat (m / dollar)),
      is_nil-append whole tail (is_nil-format_nat (m / dollar)),
      cut_point-digits whole (fraction (m % dollar)) (all-format_nat (m / dollar)),
      parse_parts-text false m h,
    )

parse_signed-negative :
    (m : ℕ)
    → m / dollar ≤ max_integer_dollars
    → parse_signed (b'-' ∷ text_of m) ≡ some (wrap64 (pos 0 -ℤ pos m))
unfolding parse_signed text_of split_sign
parse_signed-negative m h =
    let whole = format_nat (m / dollar) in
    let tail = b'.' ∷ fraction (m % dollar) in
    ground (
      arith,
      is_nil-append whole tail (is_nil-format_nat (m / dollar)),
      cut_point-digits whole (fraction (m % dollar)) (all-format_nat (m / dollar)),
      parse_parts-text true m h,
    )

negate : (k : ℕ) → suc k < 2 ^ 63 → wrap64 (pos 0 -ℤ pos (suc k)) ≡ negsuc k
unfolding wrap64 ◌-ℤ◌
negate k h = ground arith

magnitude-negsuc : (k : ℕ) → suc k < 2 ^ 63 → magnitude (negsuc k) ≡ pos (suc k)
unfolding magnitude wrap64 ◌-ℤ◌
magnitude-negsuc k h = ground arith

amount_text-pos : (m : ℕ) → amount_text (pos m) ≡ text_of m
unfolding amount_text text_of fraction
amount_text-pos m = refl

magnitude-pos : (m : ℕ) → magnitude (pos m) ≡ pos m
unfolding magnitude
magnitude-pos m = ground arith

to_string-pos : (m : ℕ) → to_string (pos m) ≡ text_of m
unfolding to_string
to_string-pos m = ground (arith, magnitude-pos m, amount_text-pos m)

to_string-negsuc : (k : ℕ) → suc k < 2 ^ 63 → to_string (negsuc k) ≡ b'-' ∷ text_of (suc k)
unfolding to_string
to_string-negsuc k h = ground (arith, magnitude-negsuc k h, amount_text-pos (suc k))

-- The amounts that ParseUSD accepts: the whole dollars are bounded.
abbrev pub IsParsable : ℤ → Type 0
IsParsable n = (pos_part n + neg_part n) / dollar ≤ max_integer_dollars

-- An amount of at most 9,223,372,035 whole dollars, of either sign, is read back exactly by
-- ParseUSD from the text that String gives.
pub parse_usd-to_string : (n : ℤ) → IsParsable n → parse_usd (to_string n) ≡ some n
parse_usd-to_string (pos m) h =
    ap parse_usd (to_string-pos m)
    ∙ parse_usd_clean (text_of m) (text_of_clean m)
    ∙ parse_signed-text m (omega arith)
parse_usd-to_string (negsuc k) h =
    ap parse_usd (to_string-negsuc k (omega arith))
    ∙ parse_usd_clean (b'-' ∷ text_of (suc k)) (text_of_clean (suc k))
    ∙ parse_signed-negative (suc k) (omega arith)
    ∙ ap some (negate k (omega arith))
