-- ===== src/Money/Range.antt =====
-- What ParseUSD accepts: no sum or negation that it computes leaves int64.
use native.Mathlib.Omega.{pow_step}
use spendlease.Base.{
  ap, ◌∙◌, if◌then◌else◌, ℕ, zero, suc, ◌+◌, ◌-◌, ◌*◌, ◌^◌, ◌≤◌, ◌<◌, ◌≡◌, refl, Bool, true, false,
  [], ◌∷◌, ◌++◌, some, arith, Bytes, length, replicate, all, length-append, Option-cases, inl, inr,
}
use spendlease.Base.Int.{ℤ, ◌-ℤ◌, wrap64}
use spendlease.Base.Decimal.{is_digit, value_from}
use spendlease.Money.{
  is_nil, all_digits, parse_int, pad_right, total_of, parse_parts, parse_signed, parse_usd, dollar,
  max_integer_dollars, trim_space, drop_dollar, split_sign, cut_point,
}
use spendlease.Money.Digits.{all-append}
use spendlease.Money.RoundTrip.{IsParsable}

value_from_bound :
    (a : ℕ) (s : Bytes) → all is_digit s ≡ true → value_from a s < (a + 1) * 10 ^ length s
unfolding value_from
value_from_bound a [] h = omega arith
value_from_bound a (c ∷ s) h =
    let rest = value_from_bound (a * 10 + (c - b'0')) s (ground arith) in
    let digit : c - b'0' ≤ 9 = ground arith in
    let step : (a * 10 + (c - b'0') + 1) * 10 ^ length s ≤ ((a + 1) * 10) * 10 ^ length s =
      grind arith in
    let power : (a + 1) * 10 ^ suc (length s) ≡ (a + 1) * 10 * 10 ^ length s =
      ap (λ (j : ℕ). (a + 1) * j) (pow_step 10 (length s)) ∙ grind arith in
    let bound : value_from (a * 10 + (c - b'0')) s < (a + 1) * 10 ^ suc (length s) =
      omega (arith, rest, step, power) in
    bound

length-replicate : (n c : ℕ) → length (replicate n c) ≡ n
length-replicate zero c = refl
length-replicate (suc n) c = omega (arith, length-replicate n c)

all-replicate_zero : (n : ℕ) → all is_digit (replicate n b'0') ≡ true
all-replicate_zero zero = refl
all-replicate_zero (suc n) = all-replicate_zero n

total_of-IsParsable :
    (neg : Bool) (dollars nanos : ℕ) (n : ℤ)
    → dollars ≤ max_integer_dollars
    → nanos < dollar
    → total_of neg dollars nanos ≡ some n
    → IsParsable n
unfolding total_of wrap64 ◌-ℤ◌
total_of-IsParsable true dollars nanos n h k e = ground arith
total_of-IsParsable false dollars nanos n h k e = ground arith

cut_point_whole : (s : Bytes) → (cut_point s).2 ≡ false → (cut_point s).1 ≡ []
unfolding cut_point
cut_point_whole [] h = refl
cut_point_whole (c ∷ s) h = ground (arith, cut_point_whole s)

pad_right_bound :
    (frac : Bytes)
    → all is_digit frac ≡ true
    → length frac ≤ 9
    → value_from 0 (pad_right frac) < dollar
unfolding pad_right
pad_right_bound frac h k =
    let zeros = replicate (9 - length frac) b'0' in
    let digits : all is_digit (frac ++ zeros) ≡ true =
      ground (arith, all-append is_digit frac zeros, all-replicate_zero (9 - length frac)) in
    let size : length (frac ++ zeros) ≡ 9 =
      omega (arith, length-append frac zeros, length-replicate (9 - length frac) b'0') in
    let bound = value_from_bound 0 (frac ++ zeros) digits in
    let power : 10 ^ length (frac ++ zeros) ≡ dollar = ap (λ (j : ℕ). 10 ^ j) size in
    omega (arith, bound, power)

parse_parts-IsParsable :
    (neg : Bool) (whole frac : Bytes) (has_frac : Bool) (n : ℤ)
    → (has_frac ≡ false → frac ≡ [])
    → parse_parts neg whole frac has_frac ≡ some n
    → IsParsable n
unfolding parse_parts all_digits parse_int
parse_parts-IsParsable neg whole frac has_frac n w e =
    elim (Option-cases (parse_int (if is_nil whole then b'0' ∷ [] else whole))) [
      | inl bad ↦ absurd (ground arith)
      | inr (dollars, read) ↦ elim (Option-cases (parse_int (pad_right frac))) [
        | inl bad ↦ absurd (ground arith)
        | inr (nanos, filled) ↦
            ground (arith, total_of-IsParsable neg dollars nanos n, pad_right_bound frac)
      ]
    ]

parse_signed-IsParsable : (s : Bytes) (n : ℤ) → parse_signed s ≡ some n → IsParsable n
unfolding parse_signed
parse_signed-IsParsable s n e =
    let (neg, rest) = split_sign s in
    let (whole, frac, has_frac) = cut_point rest in
    parse_parts-IsParsable neg whole frac has_frac n (cut_point_whole rest) (ground arith)

-- An amount that ParseUSD accepts has at most 9,223,372,035 whole dollars, of either sign.
pub parse_usd-IsParsable : (s : Bytes) (n : ℤ) → parse_usd s ≡ some n → IsParsable n
unfolding parse_usd
parse_usd-IsParsable s n e = parse_signed-IsParsable (trim_space (drop_dollar (trim_space s))) n e
