-- ===== src/Money/Digits.antt =====
-- The fraction of an amount: nine digits, trimmed and filled up again.
use spendlease.Base.{
  ℕ, zero, suc, ◌-◌, ◌≤◌, ◌<◌, ◌≡◌, refl, sym, ◌∙◌, ap, Bool, true, false, ◌&&◌, [], ◌∷◌, ◌++◌,
  arith, Bytes, ◌==◌, length, replicate, all, length-append,
}
use spendlease.Base.Int.{pos}
use spendlease.Base.Decimal.{
  format_nat, is_digit, value_from, value_from-format_nat, all-format_nat, length-format_nat,
}
use spendlease.Money.{trim_end, is_nil, pad_right, pad_nine, at_least_two, dollar}

abbrev pub is_zero : ℕ → Bool
is_zero c = c == b'0'

pub all-append : (p : ℕ → Bool) (xs ys : Bytes) → all p (xs ++ ys) ≡ (all p xs && all p ys)
all-append p [] ys = refl
all-append p (x ∷ xs) ys = ground (arith, all-append p xs ys)

replicate_more :
    (n : ℕ) → replicate {A = ℕ} (suc n - 0) b'0' ≡ b'0' ∷ replicate {A = ℕ} (n - 0) b'0'
replicate_more n =
    let e : suc n - 0 ≡ suc n = omega arith in
    let d : n - 0 ≡ n = omega arith in
    ap (λ k. replicate {A = ℕ} k b'0') e ∙ ap (λ k. b'0' ∷ replicate {A = ℕ} k b'0') (sym d)

sub-suc : (a b : ℕ) → suc a - suc b ≡ a - b
sub-suc a b = omega arith

-- Trimming drops zeros, and filling up brings them back.
trim_end_refill :
    (s : Bytes)
    → (length (trim_end is_zero s) ≤ length s)
      × (trim_end is_zero s ++ replicate (length s - length (trim_end is_zero s)) b'0' ≡ s)
unfolding trim_end
trim_end_refill [] = (omega arith, refl)
trim_end_refill (c ∷ s) =
    let rest = trim_end is_zero s in
    ground (arith, trim_end_refill s, replicate_more (length s), sub-suc (length s) (length rest))

all-trim_end : (p : ℕ → Bool) (s : Bytes) → all p s ≡ true → all p (trim_end is_zero s) ≡ true
unfolding trim_end
all-trim_end p [] h = refl
all-trim_end p (c ∷ s) h = ground (arith, all-trim_end p s)

all-replicate : (n : ℕ) → all is_digit (replicate n b'0') ≡ true
all-replicate zero = refl
all-replicate (suc n) = all-replicate n

length-replicate : (n c : ℕ) → length (replicate n c) ≡ n
length-replicate zero c = refl
length-replicate (suc n) c = ap suc (length-replicate n c)

value_from-zeros : (n : ℕ) (s : Bytes) → value_from 0 (replicate n b'0' ++ s) ≡ value_from 0 s
unfolding value_from
value_from-zeros zero s = refl
value_from-zeros (suc n) s = value_from-zeros n s

-- The nine digits of a fraction.
pub pad_nine_digits :
    (n : ℕ)
    → n < dollar
    → (length (pad_nine (pos n)) ≡ 9)
      × (all is_digit (pad_nine (pos n)) ≡ true)
      × (value_from 0 (pad_nine (pos n)) ≡ n)
unfolding pad_nine
pad_nine_digits n h =
    let s = format_nat n in
    (
      length-append (replicate (9 - length s) b'0') s
          ∙ omega (arith, length-replicate (9 - length s) b'0', length-format_nat 8 n h),
      all-append is_digit (replicate (9 - length s) b'0') s
          ∙ rw (all-replicate (9 - length s), all-format_nat n),
      value_from-zeros (9 - length s) s ∙ value_from-format_nat n,
    )

at_least_two_refill :
    (t x : Bytes)
    → length x ≡ 9
    → length t ≤ 9
    → t ++ replicate (9 - length t) b'0' ≡ x
    → pad_right (at_least_two t) ≡ x
unfolding pad_right at_least_two
at_least_two_refill [] x l k h = h
at_least_two_refill (c ∷ []) x l k h = h
at_least_two_refill (c ∷ d ∷ t) x l k h = h

at_least_two_shape :
    (t : Bytes)
    → length t ≤ 9
    → all is_digit t ≡ true
    → (length (at_least_two t) ≤ 9)
      × (is_nil (at_least_two t) ≡ false)
      × (all is_digit (at_least_two t) ≡ true)
unfolding at_least_two
at_least_two_shape [] l h = (omega arith, refl, refl)
at_least_two_shape (c ∷ []) l h = (omega arith, refl, ground arith)
at_least_two_shape (c ∷ d ∷ t) l h = (l, refl, h)

-- The fraction of an amount as it is printed.
unfoldable pub fraction : ℕ → Bytes
fraction n = at_least_two (trim_end is_zero (pad_nine (pos n)))

-- It has digits only, at most nine, and filled up to nine it stands for the number.
pub fraction_digits :
    (n : ℕ)
    → n < dollar
    → (length (fraction n) ≤ 9)
      × (is_nil (fraction n) ≡ false)
      × (all is_digit (fraction n) ≡ true)
      × (value_from 0 (pad_right (fraction n)) ≡ n)
unfolding fraction
fraction_digits n h =
    let (len, digits, value) = pad_nine_digits n h in
    let t = trim_end is_zero (pad_nine (pos n)) in
    let (short, refilled) = trim_end_refill (pad_nine (pos n)) in
    let (a, b, c) =
      at_least_two_shape t (omega arith) (all-trim_end is_digit (pad_nine (pos n)) digits) in
    let same : pad_right (at_least_two t) ≡ pad_nine (pos n) =
      at_least_two_refill t (pad_nine (pos n)) len (omega arith)
        (ap (λ k. t ++ replicate (k - length t) b'0') (sym len) ∙ refilled) in
    (a, b, c, ap (value_from 0) same ∙ value)
