-- ===== src/Pricing.antt =====
-- internal/pricing: what a token count costs (cost.go), and the token ceilings that a reservation is
-- made of (estimate.go). An int64 operation is the exact one, wrapped. The price book is Pricing/Book.
pub mod Cost
pub mod Rate
pub mod Book
pub mod Monotone
use spendlease.Base.{
  ℕ, suc, ◌+◌, ◌-◌, ◌*◌, ◌/◌, ◌%◌, ◌≡◌, refl, Bool, true, false, not, ◌&&◌, ◌||◌, List, [], ◌∷◌,
  Bytes, leb, ltb, ◌==◌, if◌then◌else◌,
}
use spendlease.Base.Int.{ℤ, pos, negsuc, ◌+ℤ◌, ◌-ℤ◌, ◌*ℤ◌, wrap64, ltb_ℤ, leb_ℤ, eq_ℤ}

abbrev pub tokens_per_unit : ℕ
tokens_per_unit = 1000000

-- Go's division and remainder by a positive number: towards zero.
unfoldable pub div_toward_zero : ℤ → ℕ → ℤ
div_toward_zero (pos n) d = pos (n / d)
div_toward_zero (negsuc n) d = pos 0 -ℤ pos (suc n / d)

unfoldable pub mod_toward_zero : ℤ → ℕ → ℤ
mod_toward_zero (pos n) d = pos (n % d)
mod_toward_zero (negsuc n) d = pos 0 -ℤ pos (suc n % d)

-- Half a unit is added before the remainder's share is divided.
unfoldable pub rounded : ℤ → ℤ
unfolding div_toward_zero
rounded scaled = div_toward_zero (wrap64 (scaled +ℤ pos (tokens_per_unit / 2))) tokens_per_unit

unfoldable pub rate : ℤ → ℤ → ℤ
unfolding div_toward_zero mod_toward_zero
rate tokens per_million =
    let whole = div_toward_zero tokens tokens_per_unit in
    let rem = mod_toward_zero tokens tokens_per_unit in
    let cost = wrap64 (whole *ℤ per_million) in
    if leb_ℤ tokens (pos 0) || eq_ℤ per_million (pos 0)
    then pos 0
    else if ltb_ℤ (pos 0) rem
    then wrap64 (cost +ℤ rounded (wrap64 (rem *ℤ per_million)))
    else cost

pub record Price : Type 0 where
  pub provider : Bytes
  pub model : Bytes
  pub input_per_1m : ℤ
  pub cached_input_per_1m : ℤ
  pub cache_write_5m_per_1m : ℤ
  pub cache_write_1h_per_1m : ℤ
  pub output_per_1m : ℤ
  pub long_context_threshold : ℤ
  pub long_input_per_1m : ℤ
  pub long_cached_input_per_1m : ℤ
  pub long_cache_write_per_1m : ℤ
  pub long_output_per_1m : ℤ
  pub free : Bool
  pub default_max_tokens : ℤ
  pub effective : ℕ
  pub verified : ℕ
  pub source : Bytes
  pub estimated : Bool

pub record Usage : Type 0 where
  pub input_tokens : ℤ
  pub cached_input_tokens : ℤ
  pub cache_write_5m_tokens : ℤ
  pub cache_write_1h_tokens : ℤ
  pub output_tokens : ℤ

unfoldable pub total_input : Usage → ℤ
total_input u = wrap64 (
    wrap64 (wrap64 (u.input_tokens +ℤ u.cached_input_tokens) +ℤ u.cache_write_5m_tokens)
    +ℤ u.cache_write_1h_tokens)

-- The long-context rates apply to the whole request once the threshold is met.
unfoldable pub is_long : Price → Usage → Bool
unfolding total_input
is_long p u =
    ltb_ℤ (pos 0) p.long_context_threshold && leb_ℤ p.long_context_threshold (total_input u)

-- The sum of the five charges.
unfoldable pub cost_at : ℤ → ℤ → ℤ → ℤ → ℤ → Usage → ℤ
cost_at input cached write_5m write_1h output u = wrap64 (
    wrap64 (
      wrap64 (
        wrap64 (rate u.input_tokens input +ℤ rate u.cached_input_tokens cached)
        +ℤ rate u.cache_write_5m_tokens write_5m)
      +ℤ rate u.cache_write_1h_tokens write_1h)
    +ℤ rate u.output_tokens output)

unfoldable pub cost : Price → Usage → ℤ
unfolding is_long
cost p u =
    if is_long p u
    then cost_at p.long_input_per_1m p.long_cached_input_per_1m p.long_cache_write_per_1m
        p.long_cache_write_per_1m p.long_output_per_1m u
    else cost_at p.input_per_1m p.cached_input_per_1m p.cache_write_5m_per_1m
        p.cache_write_1h_per_1m p.output_per_1m u

abbrev pub default_chars_per_token : ℕ
default_chars_per_token = 4

abbrev pub reservation_input_overhead : ℤ
reservation_input_overhead = pos 1024

unfoldable pub estimate_from_chars : ℤ → ℤ
unfolding div_toward_zero
estimate_from_chars chars =
    let tokens =
      div_toward_zero (wrap64 (wrap64 (chars +ℤ pos 4) -ℤ pos 1)) default_chars_per_token in
    if leb_ℤ chars (pos 0) then pos 0 else if ltb_ℤ tokens (pos 1) then pos 1 else tokens

unfoldable pub reservation_input_tokens : ℤ → ℤ
reservation_input_tokens request_bytes =
    let bytes = if ltb_ℤ request_bytes (pos 0) then pos 0 else request_bytes in
    wrap64 (bytes +ℤ reservation_input_overhead)

-- `DefaultFallback.DefaultMaxTokens`
abbrev pub fallback_max_tokens : ℤ
fallback_max_tokens = pos 4096

unfoldable pub reservation_tokens : ℤ → Price → ℤ
reservation_tokens requested p =
    if ltb_ℤ (pos 0) requested
    then requested
    else if ltb_ℤ (pos 0) p.default_max_tokens
    then p.default_max_tokens
    else fallback_max_tokens

-- A million and a half tokens, and one token whose share is rounded up.
rate_samples :
    (rate (pos 1500000) (pos 2500000000) ≡ pos 3750000000) × (rate (pos 1) (pos 500000) ≡ pos 1)
unfolding rate rounded wrap64 ◌*ℤ◌ ◌+ℤ◌
rate_samples = (refl, refl)
