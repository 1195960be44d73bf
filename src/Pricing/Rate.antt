-- ===== src/Pricing/Rate.antt =====
-- The rate of tokens is exact: the split into whole millions and a remainder changes nothing, and no
-- intermediate product leaves int64.
use spendlease.Base.{
  ℕ, zero, suc, ◌+◌, ◌*◌, ◌/◌, ◌%◌, ◌^◌, ◌≤◌, ◌<◌, ◌≡◌, refl, sym, ◌∙◌, ap, Bool, true, false, ◌||◌,
  arith, leb, ltb, ◌==◌, if◌then◌else◌,
}
use spendlease.Base.Int.{ℤ, pos, ◌+ℤ◌, ◌*ℤ◌, wrap64, wrap64_id, ltb_ℤ, leb_ℤ, eq_ℤ}
use spendlease.Pricing.{div_toward_zero, rounded, rate}

-- The exact charge, rounded half up to a nanodollar.
abbrev pub exact_rate : ℕ → ℕ → ℕ
exact_rate n q = (n * q + 500000) / 1000000

*ℤ-pos : (a b : ℕ) → pos a *ℤ pos b ≡ pos (a * b)
unfolding ◌*ℤ◌
*ℤ-pos a b = ground arith

pub +ℤ-pos : (a b : ℕ) → pos a +ℤ pos b ≡ pos (a + b)
unfolding ◌+ℤ◌
+ℤ-pos a b = ground arith

pub wrap64-pos : (n : ℕ) → n < 2 ^ 63 → wrap64 (pos n) ≡ pos n
wrap64-pos n h = wrap64_id (pos n) (omega arith)

rounded-pos : (n : ℕ) → n + 500000 < 2 ^ 63 → rounded (pos n) ≡ pos ((n + 500000) / 1000000)
unfolding rounded div_toward_zero
rounded-pos n h = rw (+ℤ-pos n 500000, wrap64-pos (n + 500000) h)

-- The charge of whole millions and of the remainder add up to the exact charge.
split_rate : (n q : ℕ) → exact_rate n q ≡ n / 1000000 * q + (n % 1000000 * q + 500000) / 1000000
split_rate n q =
    let split : n ≡ n / 1000000 * 1000000 + n % 1000000 = omega arith in
    omega (arith, ap (λ (t : ℕ). t * q) split)

rem_product_fits : (r q : ℕ) → r < 1000000 → q ≤ 9000000000000 → r * q + 500000 < 2 ^ 63
rem_product_fits r q h k = let bound : r * q ≤ 999999 * q = grind arith in omega arith

no_charge : (n q : ℕ) → (leb n 0 || q == 0) ≡ true → exact_rate n q ≡ 0
no_charge zero q e = omega arith
no_charge (suc n) q e =
    let free : q ≡ 0 = ground arith in ap (λ (j : ℕ). exact_rate (suc n) j) free ∙ omega arith

no_share : (r q : ℕ) → r ≡ 0 → (r * q + 500000) / 1000000 ≡ 0
no_share r q e = ap (λ (j : ℕ). (j * q + 500000) / 1000000) e ∙ omega arith

-- What the tests of `rate` select, once each part is known.
choose_rate :
    (free left : Bool)
    → (total whole share : ℕ) → (free ≡ true → total ≡ 0)
    → (left ≡ false → total ≡ whole)
    → total ≡ whole + share
    → Path ℤ (if free then pos 0 else if left then pos (whole + share) else pos whole) (pos total)
choose_rate true left total whole share h k e = ap pos (sym (h refl))
choose_rate false true total whole share h k e = ap pos (sym e)
choose_rate false false total whole share h k e = ap pos (sym (k refl))

leb_ℤ-pos : (a b : ℕ) → leb_ℤ (pos a) (pos b) ≡ leb a b
leb_ℤ-pos a b = ground arith

ltb_ℤ-pos : (a b : ℕ) → ltb_ℤ (pos a) (pos b) ≡ ltb a b
ltb_ℤ-pos a b = ground arith

eq_ℤ-pos : (a b : ℕ) → eq_ℤ (pos a) (pos b) ≡ (a == b)
eq_ℤ-pos a b = ground arith

-- For a rate of at most 9,000 dollars per million tokens and a charge that is an int64, rate
-- gives the exact product of tokens and rate, divided by a million and rounded half up: no
-- intermediate product wraps around.
pub rate_exact :
    (n q : ℕ)
    → q ≤ 9000000000000
    → exact_rate n q < 2 ^ 63
    → rate (pos n) (pos q) ≡ pos (exact_rate n q)
unfolding rate
rate_exact n q h k =
    let whole = n / 1000000 in
    let rem = n % 1000000 in
    let share = (rem * q + 500000) / 1000000 in
    let fits = rem_product_fits rem q (omega arith) h in
    let split = split_rate n q in
    let sum_fits : whole * q + share < 2 ^ 63 = omega arith in
    let part = wrap64-pos (whole * q) (omega arith) in
    let part_of_rem = wrap64-pos (rem * q) (omega arith) in
    let rounded_share = rounded-pos (rem * q) fits in
    let total = wrap64-pos (whole * q + share) sum_fits in
    let free = no_charge n q in
    let none_left = no_share rem q in
    rw
      (
        leb_ℤ-pos n 0,
        eq_ℤ-pos q 0,
        ltb_ℤ-pos 0 rem,
        *ℤ-pos whole q,
        *ℤ-pos rem q,
        part,
        part_of_rem,
        rounded_share,
        +ℤ-pos (whole * q) share,
        total,
      )
      (choose_rate (leb n 0 || q == 0) (ltb 0 rem) (exact_rate n q) (whole * q) share free
        (λ e. omega (arith, split, none_left (ground arith))) split)
