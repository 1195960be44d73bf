-- ===== src/Pricing/Cost.antt =====
-- The cost of a request is the exact sum of its five charges, at the rates that its size selects.
use spendlease.Base.{
  ap, ◌∙◌, ◌≢◌, ℕ, ◌+◌, ◌≤◌, ◌<◌, ◌^◌, ◌≡◌, refl, ◌&&◌, arith, if◌then◌else◌, Bool-cases, inl, inr,
}
use spendlease.Base.Int.{ℤ, pos, negsuc, pos_part, ◌+ℤ◌, ◌≤ℤ◌, wrap64, ltb_ℤ, leb_ℤ}
use spendlease.Pricing.{Price, Usage, rate, cost, cost_at, total_input, is_long}
use spendlease.Pricing.Rate.{rate_exact, exact_rate, +ℤ-pos, wrap64-pos}

-- A rate from nothing to 9,000 dollars per million tokens.
abbrev pub IsRate : ℤ → Type 0
IsRate q = (pos 0 ≤ℤ q) × (pos_part q ≤ 9000000000000)

-- The charge of `t` tokens at the rate `q`.
abbrev pub charge : ℤ → ℤ → ℕ
charge t q = exact_rate (pos_part t) (pos_part q)

rate-charge : (t q : ℤ) → pos 0 ≤ℤ t → IsRate q → charge t q < 2 ^ 63 → rate t q ≡ pos (charge t q)
rate-charge (pos n) (pos q) h w k = rate_exact n q w.1 k
rate-charge (pos n) (negsuc q) h w k = absurd (omega arith)
rate-charge (negsuc n) q h w k = absurd (omega arith)

abbrev pub charges : ℤ → ℤ → ℤ → ℤ → ℤ → Usage → ℕ
charges input cached write_5m write_1h output u =
    charge u.input_tokens input
    + charge u.cached_input_tokens cached
    + charge u.cache_write_5m_tokens write_5m
    + charge u.cache_write_1h_tokens write_1h
    + charge u.output_tokens output

pub record IsCounted (u : Usage) : Type 0 where
  pub input : pos 0 ≤ℤ u.input_tokens
  pub cached : pos 0 ≤ℤ u.cached_input_tokens
  pub write_5m : pos 0 ≤ℤ u.cache_write_5m_tokens
  pub write_1h : pos 0 ≤ℤ u.cache_write_1h_tokens
  pub output : pos 0 ≤ℤ u.output_tokens

add_pos : (a b : ℕ) → a + b < 2 ^ 63 → wrap64 (pos a +ℤ pos b) ≡ pos (a + b)
add_pos a b h = rw (+ℤ-pos a b) (wrap64-pos (a + b) h)

cost_at-charges :
    (input cached write_5m write_1h output : ℤ) (u : Usage)
    → IsCounted u
    → IsRate input
    → IsRate cached
    → IsRate write_5m
    → IsRate write_1h
    → IsRate output
    → charges input cached write_5m write_1h output u < 2 ^ 63
    → cost_at input cached write_5m write_1h output u
      ≡ pos (charges input cached write_5m write_1h output u)
unfolding cost_at
cost_at-charges input cached write_5m write_1h output u c i j k l o h =
    let a = charge u.input_tokens input in
    let b = charge u.cached_input_tokens cached in
    let d = charge u.cache_write_5m_tokens write_5m in
    let e = charge u.cache_write_1h_tokens write_1h in
    let f = charge u.output_tokens output in
    rw
      (
        rate-charge u.input_tokens input c.input i (omega arith),
        rate-charge u.cached_input_tokens cached c.cached j (omega arith),
        rate-charge u.cache_write_5m_tokens write_5m c.write_5m k (omega arith),
        rate-charge u.cache_write_1h_tokens write_1h c.write_1h l (omega arith),
        rate-charge u.output_tokens output c.output o (omega arith),
        add_pos a b (omega arith),
        add_pos (a + b) d (omega arith),
        add_pos (a + b + d) e (omega arith),
        add_pos (a + b + d + e) f (omega arith),
      )
      refl

pub record IsRated (p : Price) : Type 0 where
  pub input : IsRate p.input_per_1m
  pub cached : IsRate p.cached_input_per_1m
  pub write_5m : IsRate p.cache_write_5m_per_1m
  pub write_1h : IsRate p.cache_write_1h_per_1m
  pub output : IsRate p.output_per_1m
  pub long_input : IsRate p.long_input_per_1m
  pub long_cached : IsRate p.long_cached_input_per_1m
  pub long_write : IsRate p.long_cache_write_per_1m
  pub long_output : IsRate p.long_output_per_1m

-- All input tokens, without a bound.
abbrev pub all_input : Usage → ℕ
all_input u =
    pos_part u.input_tokens
    + pos_part u.cached_input_tokens
    + pos_part u.cache_write_5m_tokens
    + pos_part u.cache_write_1h_tokens

-- The exact cost: a positive threshold that the input reaches selects the long-context rates.
abbrev pub exact_cost : Price → Usage → ℕ
exact_cost p u =
    if ltb_ℤ (pos 0) p.long_context_threshold && leb_ℤ p.long_context_threshold (pos (all_input u))
    then charges p.long_input_per_1m p.long_cached_input_per_1m p.long_cache_write_per_1m
        p.long_cache_write_per_1m p.long_output_per_1m u
    else charges p.input_per_1m p.cached_input_per_1m p.cache_write_5m_per_1m
        p.cache_write_1h_per_1m p.output_per_1m u

from_pos_part : (a : ℤ) → pos 0 ≤ℤ a → a ≡ pos (pos_part a)
from_pos_part (pos n) h = refl
from_pos_part (negsuc n) h = absurd (omega arith)

total_input_exact :
    (u : Usage) → IsCounted u → all_input u < 2 ^ 63 → total_input u ≡ pos (all_input u)
unfolding total_input
total_input_exact u c h =
    let a = pos_part u.input_tokens in
    let b = pos_part u.cached_input_tokens in
    let d = pos_part u.cache_write_5m_tokens in
    let e = pos_part u.cache_write_1h_tokens in
    ap
      (λ t. wrap64 (
        wrap64 (wrap64 (t +ℤ u.cached_input_tokens) +ℤ u.cache_write_5m_tokens)
        +ℤ u.cache_write_1h_tokens))
      (from_pos_part u.input_tokens c.input)
    ∙ ap
        (λ t.
          wrap64
            (wrap64 (wrap64 (pos a +ℤ t) +ℤ u.cache_write_5m_tokens) +ℤ u.cache_write_1h_tokens))
        (from_pos_part u.cached_input_tokens c.cached)
    ∙ ap (λ t. wrap64 (wrap64 (wrap64 (pos a +ℤ pos b) +ℤ t) +ℤ u.cache_write_1h_tokens))
        (from_pos_part u.cache_write_5m_tokens c.write_5m)
    ∙ ap (λ t. wrap64 (wrap64 (wrap64 (pos a +ℤ pos b) +ℤ pos d) +ℤ t))
        (from_pos_part u.cache_write_1h_tokens c.write_1h)
    ∙ rw (add_pos a b (omega arith), add_pos (a + b) d (omega arith), add_pos (a + b + d) e h) refl

pub cost-exact_cost :
    (p : Price) (u : Usage)
    → IsRated p
    → IsCounted u
    → all_input u < 2 ^ 63
    → exact_cost p u < 2 ^ 63
    → cost p u ≡ pos (exact_cost p u)
unfolding cost is_long
cost-exact_cost p u w c t h =
    let total = total_input_exact u c t in
    elim (Bool-cases (is_long p u)) [
      | inl long ↦ ground (
        arith,
        total,
        cost_at-charges p.long_input_per_1m p.long_cached_input_per_1m p.long_cache_write_per_1m
            p.long_cache_write_per_1m p.long_output_per_1m u c w.long_input w.long_cached
            w.long_write w.long_write w.long_output,
      )
      | inr short ↦ ground (
        arith,
        total,
        cost_at-charges p.input_per_1m p.cached_input_per_1m p.cache_write_5m_per_1m
            p.cache_write_1h_per_1m p.output_per_1m u c w.input w.cached w.write_5m w.write_1h
            w.output,
      )
    ]

-- The cost as it is documented: the long-context rates apply to all tokens once the input is more
-- than a positive threshold.
abbrev pub documented_cost : Price → Usage → ℕ
documented_cost p u =
    if ltb_ℤ (pos 0) p.long_context_threshold && ltb_ℤ p.long_context_threshold (pos (all_input u))
    then charges p.long_input_per_1m p.long_cached_input_per_1m p.long_cache_write_per_1m
        p.long_cache_write_per_1m p.long_output_per_1m u
    else charges p.input_per_1m p.cached_input_per_1m p.cache_write_5m_per_1m
        p.cache_write_1h_per_1m p.output_per_1m u

past_threshold : (t : ℤ) (n : ℕ) → t ≢ pos n → leb_ℤ t (pos n) ≡ ltb_ℤ t (pos n)
past_threshold (pos k) n h = ground (arith, ap pos)
past_threshold (negsuc k) n h = ground arith

exact_cost-documented_cost :
    (p : Price) (u : Usage)
    → p.long_context_threshold ≢ pos (all_input u)
    → exact_cost p u ≡ documented_cost p u
exact_cost-documented_cost p u h = rw (past_threshold p.long_context_threshold (all_input u) h) refl

-- If no token count is negative, the input tokens add up to an int64, every rate of the price
-- lies between zero and 9,000 dollars per million tokens, the input tokens are not exactly the
-- long-context threshold, and the documented cost is an int64, then Cost gives the documented
-- cost: the sum of the five charges, each rounded half up to a nanodollar, at the long-context
-- rates if the price has a positive threshold that the input tokens exceed, and at the ordinary
-- rates otherwise.
pub cost-documented_cost :
    (p : Price) (u : Usage)
    → IsRated p
    → IsCounted u
    → all_input u < 2 ^ 63
    → p.long_context_threshold ≢ pos (all_input u)
    → documented_cost p u < 2 ^ 63
    → cost p u ≡ pos (documented_cost p u)
cost-documented_cost p u w c t n h =
    let same = exact_cost-documented_cost p u n in
    cost-exact_cost p u w c t (omega (arith, same, h)) ∙ ap pos same
