-- ===== src/Providers/Anthropic/CacheWrites.antt =====
-- anthropic.go: every token that was written to the cache is in one of the two buckets.
use spendlease.Base.{
  ℕ, ◌+◌, ◌-◌, ◌≤◌, ◌<◌, ◌^◌, ◌≡◌, ap, ◌∙◌, inl, inr, false, if◌then◌else◌, arith, leb, ltb,
  Bool-cases,
}
use spendlease.Base.Int.{
  ℤ, pos, negsuc, ◌-ℤ◌, wrap64, wrap64_id, IsInt64, ltb_ℤ, pos_part, neg_part,
}
use spendlease.Providers.Parse.Accounting.{wrap_add}
use spendlease.Providers.Json.{Fields}
use spendlease.Providers.Anthropic.{
  written_5m, written_1h, total_creation, cache_write_5m, anthropic_usage,
}

abbrev pub larger_of : ℕ → ℕ → ℕ
larger_of a b = if leb a b then b else a

difference-IsInt64 :
    (a : ℤ) (b : ℕ) → pos_part a < 2 ^ 62 → neg_part a < 2 ^ 62 → b < 2 ^ 62 → IsInt64 (a -ℤ pos b)
unfolding ◌-ℤ◌
difference-IsInt64 (pos n) b h k l = ground arith
difference-IsInt64 (negsuc n) b h k l = ground arith

difference_small :
    (a b : ℕ)
    → a < 2 ^ 61
    → b < 2 ^ 61
    → (pos_part (pos a -ℤ pos b) < 2 ^ 62) × (neg_part (pos a -ℤ pos b) < 2 ^ 62)
unfolding ◌-ℤ◌
difference_small a b h k = ground arith

remainder-eq :
    (t s l : ℕ)
    → t < 2 ^ 61
    → s < 2 ^ 61
    → l < 2 ^ 61
    → wrap64 (wrap64 (pos t -ℤ pos s) -ℤ pos l) ≡ (pos t -ℤ pos s) -ℤ pos l
remainder-eq t s l a b c =
    let (small, least) = difference_small t s a b in
    let first =
      wrap64_id (pos t -ℤ pos s)
        (difference-IsInt64 (pos t) s (omega arith) (omega arith) (omega arith)) in
    ap (λ z. wrap64 (z -ℤ pos l)) first
    ∙ wrap64_id ((pos t -ℤ pos s) -ℤ pos l)
        (difference-IsInt64 (pos t -ℤ pos s) l small least (omega arith))

remainder_positive : (t s l : ℕ) → s + l < t → (pos t -ℤ pos s) -ℤ pos l ≡ pos (t - s - l)
unfolding ◌-ℤ◌
remainder_positive t s l h = ground arith

remainder_negative : (t s l : ℕ) → t ≤ s + l → ltb_ℤ (pos 0) ((pos t -ℤ pos s) -ℤ pos l) ≡ false
unfolding ◌-ℤ◌
remainder_negative t s l h = ground arith

-- For counts below 2^61, the one-hour bucket of Anthropic's usage has the reported one-hour
-- tokens, and the five-minute bucket has what is missing from it to the larger of the reported
-- total of cache writes and the sum of the two reported buckets.
pub anthropic_usage_writes :
    (raw : Fields) (short long total : ℕ)
    → written_5m raw ≡ pos short
    → written_1h raw ≡ pos long
    → total_creation raw ≡ pos total
    → short < 2 ^ 61
    → long < 2 ^ 61
    → total < 2 ^ 61
    → ((anthropic_usage raw).cache_write_1h_tokens ≡ pos long)
      × ((anthropic_usage raw).cache_write_5m_tokens ≡ pos (larger_of total (short + long) - long))
unfolding anthropic_usage cache_write_5m
anthropic_usage_writes raw short long total s l t a b d =
    let remainder = remainder-eq total short long d a b in
    elim (Bool-cases (ltb (short + long) total)) [
      | inl more ↦
          let positive = remainder_positive total short long (ground arith) in
          let sum = wrap_add short (total - short - long) (ground arith) in (l, ground arith)
      | inr covered ↦
          let negative = remainder_negative total short long (ground arith) in (l, ground arith)
    ]
