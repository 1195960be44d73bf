-- ===== src/Base/Decimal.antt =====
-- `strconv.FormatInt` and the value of a run of decimal digits.
use native.Mathlib.Nat.{pow-suc}
use spendlease.Base.{
  ℕ, zero, suc, ◌+◌, ◌-◌, ◌*◌, ◌/◌, ◌%◌, ◌≤◌, ◌<◌, ◌≡◌, refl, Bool, ◌&&◌, [], ◌∷◌, arith, Bytes,
  codes, leb, ◌==◌, if◌then◌else◌, all, true, ◌≢◌, ap, sym, ◌^◌, length,
}
use spendlease.Base.Int.{ℤ, pos, negsuc}

-- The digits of a positive number before `out`; each round divides by ten.
emit : ℕ → ℕ → Bytes → Bytes
emit zero n out = out
emit (suc f) n out =
    let rest = emit f (n / 10) ((b'0' + n % 10) ∷ out) in if n == 0 then out else rest

unfoldable pub format_nat : ℕ → Bytes
unfolding emit
format_nat n = if n == 0 then b'0' ∷ [] else emit n n []

-- `strconv.FormatInt(n, 10)`
unfoldable pub format_int : ℤ → Bytes
unfolding format_nat
format_int (pos n) = format_nat n
format_int (negsuc n) = b'-' ∷ format_nat (suc n)

abbrev pub is_digit : ℕ → Bool
is_digit c = leb b'0' c && leb c b'9'

-- The number that a run of digits stands for, after `acc`.
unfoldable pub value_from : ℕ → Bytes → ℕ
value_from acc [] = acc
value_from acc (c ∷ s) = value_from (acc * 10 + (c - b'0')) s

format-max : format_int (negsuc 9223372036854775807) ≡ codes "-9223372036854775808"
unfolding format_int
format-max = refl

value_from-emit : (f n : ℕ) (out : Bytes) → n ≤ f → value_from 0 (emit f n out) ≡ value_from n out
unfolding emit value_from
value_from-emit zero n out h = ground arith
value_from-emit (suc f) n out h = ground (arith, value_from-emit f (n / 10) ((b'0' + n % 10) ∷ out))

all-emit : (f n : ℕ) (out : Bytes) → all is_digit (emit f n out) ≡ all is_digit out
unfolding emit
all-emit zero n out = refl
all-emit (suc f) n out = ground (arith, all-emit f (n / 10) ((b'0' + n % 10) ∷ out))

-- Reading the digits of a number gives the number back.
pub value_from-format_nat : (n : ℕ) → value_from 0 (format_nat n) ≡ n
unfolding format_nat value_from
value_from-format_nat n = ground (arith, value_from-emit n n [])

pub all-format_nat : (n : ℕ) → all is_digit (format_nat n) ≡ true
unfolding format_nat
all-format_nat n = ground (arith, all-emit n n [])

pub format_nat_inj : (m n : ℕ) → format_nat m ≡ format_nat n → m ≡ n
format_nat_inj m n h = cc (value_from-format_nat m, value_from-format_nat n)

-- No decimal begins with a minus sign.
format_nat-no_minus : (n : ℕ) (s : Bytes) → format_nat n ≢ (b'-' ∷ s)
format_nat-no_minus n s h = ground (arith, all-format_nat n)

pub format_int_inj : (a b : ℤ) → format_int a ≡ format_int b → a ≡ b
unfolding format_int
format_int_inj (pos m) (pos n) h = ap pos (format_nat_inj m n h)
format_int_inj (pos m) (negsuc n) h = absurd (format_nat-no_minus m _ h)
format_int_inj (negsuc m) (pos n) h = absurd (format_nat-no_minus n _ (sym h))
format_int_inj (negsuc m) (negsuc n) h = ground (arith, format_nat_inj (suc m) (suc n))

length-emit : (k f n : ℕ) (out : Bytes) → n < 10 ^ k → length (emit f n out) ≤ k + length out
unfolding emit
length-emit k zero n out h = omega arith
length-emit zero (suc f) n out h = ground arith
length-emit (suc k) (suc f) n out h =
    ground (arith, pow-suc 10 k, length-emit k f (n / 10) ((b'0' + n % 10) ∷ out))

-- A number below 10 ^ (k + 1) has at most k + 1 digits.
pub length-format_nat : (k n : ℕ) → n < 10 ^ suc k → length (format_nat n) ≤ suc k
unfolding format_nat
length-format_nat k n h = ground (arith, length-emit (suc k) n n [])

pub format_nat-ne-nil : (n : ℕ) → format_nat n ≢ []
unfolding format_nat value_from
format_nat-ne-nil n h = ground (arith, value_from-emit n n [])
