-- ===== src/Pricing/Monotone.antt =====
-- A request that uses no more than another costs no more.
use native.Mathlib.Nat.{mul-le-mul}
use spendlease.Base.{ℕ, ◌*◌, ◌^◌, ◌≤◌, ◌<◌, ◌≡◌, inl, inr, true, ◌&&◌, arith, Bool-cases}
use spendlease.Base.Int.{ℤ, pos, pos_part, ◌≤ℤ◌, ltb_ℤ, leb_ℤ}
use spendlease.Pricing.{Price, Usage, cost}
use spendlease.Pricing.Rate.{exact_rate}
use spendlease.Pricing.Cost.{
  IsRated, IsCounted, all_input, exact_cost, charge, charges, cost-exact_cost,
}

exact_rate_mono : (n m q r : ℕ) → n ≤ m → q ≤ r → exact_rate n q ≤ exact_rate m r
exact_rate_mono n m q r h k = let more : n * q ≤ m * r = mul-le-mul h k in omega (arith, more)

part_mono : (t t' : ℤ) → t ≤ℤ t' → pos 0 ≤ℤ t → pos_part t ≤ pos_part t'
part_mono t t' h z = ground arith

charge_mono : (t t' q r : ℤ) → t ≤ℤ t' → pos 0 ≤ℤ t → q ≤ℤ r → pos 0 ≤ℤ q → charge t q ≤ charge t' r
charge_mono t t' q r h z k w =
    exact_rate_mono (pos_part t) (pos_part t') (pos_part q) (pos_part r) (part_mono t t' h z)
      (part_mono q r k w)

-- No count is more.
pub record IsWithin (u w : Usage) : Type 0 where
  pub input : u.input_tokens ≤ℤ w.input_tokens
  pub cached : u.cached_input_tokens ≤ℤ w.cached_input_tokens
  pub write_5m : u.cache_write_5m_tokens ≤ℤ w.cache_write_5m_tokens
  pub write_1h : u.cache_write_1h_tokens ≤ℤ w.cache_write_1h_tokens
  pub output : u.output_tokens ≤ℤ w.output_tokens

-- No long-context rate is less than the rate that it replaces.
pub record IsGrowing (p : Price) : Type 0 where
  pub input : p.input_per_1m ≤ℤ p.long_input_per_1m
  pub cached : p.cached_input_per_1m ≤ℤ p.long_cached_input_per_1m
  pub write_5m : p.cache_write_5m_per_1m ≤ℤ p.long_cache_write_per_1m
  pub write_1h : p.cache_write_1h_per_1m ≤ℤ p.long_cache_write_per_1m
  pub output : p.output_per_1m ≤ℤ p.long_output_per_1m

charges_mono :
    (u w : Usage) (a b c d e a' b' c' d' e' : ℤ)
    → IsCounted u
    → IsWithin u w
    → (a ≤ℤ a') × (b ≤ℤ b') × (c ≤ℤ c') × (d ≤ℤ d') × (e ≤ℤ e')
    → (pos 0 ≤ℤ a) × (pos 0 ≤ℤ b) × (pos 0 ≤ℤ c) × (pos 0 ≤ℤ d) × (pos 0 ≤ℤ e)
    → charges a b c d e u ≤ charges a' b' c' d' e' w
charges_mono u w a b c d e a' b' c' d' e' n h (ka, kb, kc, kd, ke) (za, zb, zc, zd, ze) = omega (
  arith,
  charge_mono u.input_tokens w.input_tokens a a' h.input n.input ka za,
  charge_mono u.cached_input_tokens w.cached_input_tokens b b' h.cached n.cached kb zb,
  charge_mono u.cache_write_5m_tokens w.cache_write_5m_tokens c c' h.write_5m n.write_5m kc zc,
  charge_mono u.cache_write_1h_tokens w.cache_write_1h_tokens d d' h.write_1h n.write_1h kd zd,
  charge_mono u.output_tokens w.output_tokens e e' h.output n.output ke ze,
)

all_input_mono : (u w : Usage) → IsCounted u → IsWithin u w → all_input u ≤ all_input w
all_input_mono u w n h = omega (
  arith,
  part_mono u.input_tokens w.input_tokens h.input n.input,
  part_mono u.cached_input_tokens w.cached_input_tokens h.cached n.cached,
  part_mono u.cache_write_5m_tokens w.cache_write_5m_tokens h.write_5m n.write_5m,
  part_mono u.cache_write_1h_tokens w.cache_write_1h_tokens h.write_1h n.write_1h,
)

exact_cost_mono :
    (p : Price) (u w : Usage)
    → IsRated p
    → IsGrowing p
    → IsCounted u
    → IsWithin u w
    → exact_cost p u ≤ exact_cost p w
exact_cost_mono p u w r g n h =
    let short =
      charges_mono u w p.input_per_1m p.cached_input_per_1m p.cache_write_5m_per_1m
        p.cache_write_1h_per_1m p.output_per_1m p.input_per_1m p.cached_input_per_1m
        p.cache_write_5m_per_1m p.cache_write_1h_per_1m p.output_per_1m n h
        (omega arith, omega arith, omega arith, omega arith, omega arith)
        (r.input.0, r.cached.0, r.write_5m.0, r.write_1h.0, r.output.0) in
    let mixed =
      charges_mono u w p.input_per_1m p.cached_input_per_1m p.cache_write_5m_per_1m
        p.cache_write_1h_per_1m p.output_per_1m p.long_input_per_1m p.long_cached_input_per_1m
        p.long_cache_write_per_1m p.long_cache_write_per_1m p.long_output_per_1m n h
        (g.input, g.cached, g.write_5m, g.write_1h, g.output)
        (r.input.0, r.cached.0, r.write_5m.0, r.write_1h.0, r.output.0) in
    let long =
      charges_mono u w p.long_input_per_1m p.long_cached_input_per_1m p.long_cache_write_per_1m
        p.long_cache_write_per_1m p.long_output_per_1m p.long_input_per_1m
        p.long_cached_input_per_1m p.long_cache_write_per_1m p.long_cache_write_per_1m
        p.long_output_per_1m n h (omega arith, omega arith, omega arith, omega arith, omega arith)
        (r.long_input.0, r.long_cached.0, r.long_write.0, r.long_write.0, r.long_output.0) in
    let more : all_input u ≤ all_input w = all_input_mono u w n h in
    elim (Bool-cases (
      ltb_ℤ (pos 0) p.long_context_threshold
      && leb_ℤ p.long_context_threshold (pos (all_input u)))) [
        | inl lu ↦
            let lw : (ltb_ℤ (pos 0) p.long_context_threshold
                  && leb_ℤ p.long_context_threshold (pos (all_input w)))
                ≡ true =
              ground arith in
            rw (lu, lw) long
        | inr su ↦
            elim (Bool-cases (
              ltb_ℤ (pos 0) p.long_context_threshold
              && leb_ℤ p.long_context_threshold (pos (all_input w)))) [
                | inl lw ↦ rw (su, lw) mixed
                | inr sw ↦ rw (su, sw) short
              ]
      ]

-- If the usage `w` can be priced without overflow, a usage that is within it costs no more.
pub cost_mono :
    (p : Price) (u w : Usage)
    → IsRated p
    → IsGrowing p
    → IsCounted u
    → IsCounted w
    → IsWithin u w
    → all_input w < 2 ^ 63
    → exact_cost p w < 2 ^ 63
    → cost p u ≤ℤ cost p w
cost_mono p u w r g n m h i k =
    let more = exact_cost_mono p u w r g n h in
    let inputs = all_input_mono u w n h in
    rw
      (
        cost-exact_cost p u r n (omega (arith, inputs)) (omega (arith, more)),
        cost-exact_cost p w r m i k,
      )
      (omega (arith, more))
