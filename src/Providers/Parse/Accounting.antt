-- ===== src/Providers/Parse/Accounting.antt =====
-- parse.go: OpenAIUsageFrom counts every token of the vendor's total once.
use spendlease.Base.{ℕ, ◌+◌, ◌-◌, ◌≤◌, ◌<◌, ◌^◌, ◌≡◌, ap, ◌∙◌, ◌⊎◌, inl, inr, arith}
use spendlease.Base.Int.{pos, ◌+ℤ◌, ◌-ℤ◌, wrap64, wrap64_id, pos_part}
use spendlease.Pricing.Rate.{+ℤ-pos}
use spendlease.Providers.{total_input_tokens}
use spendlease.Providers.Json.{Fields}
use spendlease.Providers.Parse.{
  prompt_tokens, cached_tokens, cache_write_tokens, cache_miss_tokens, uncached_tokens,
  completion_tokens, reasoning_tokens, total_tokens, output_tokens, openai_usage,
}

-ℤ-pos : (a b : ℕ) → b ≤ a → pos a -ℤ pos b ≡ pos (a - b)
unfolding ◌-ℤ◌
-ℤ-pos a b h = ground arith

pub wrap_sub : (a b : ℕ) → b ≤ a → a < 2 ^ 63 → wrap64 (pos a -ℤ pos b) ≡ pos (a - b)
wrap_sub a b h k = ap wrap64 (-ℤ-pos a b h) ∙ wrap64_id (pos (a - b)) (omega arith)

pub wrap_add : (a b : ℕ) → a + b < 2 ^ 63 → wrap64 (pos a +ℤ pos b) ≡ pos (a + b)
wrap_add a b k = ap wrap64 (+ℤ-pos a b) ∙ wrap64_id (pos (a + b)) (omega arith)

-- The counts of a usage object, none of them negative, whose prompt includes what was cached, and
-- whose total is the prompt and the completion, with the reasoning on top or not.
pub record IsConsistent (raw : Fields) (prompt cached written completion reasoning total : ℕ)
    : Type 0 where
  pub prompt_is : prompt_tokens raw ≡ pos prompt
  pub cached_is : cached_tokens raw ≡ pos cached
  pub written_is : cache_write_tokens raw ≡ pos written
  pub missed_is : cache_miss_tokens raw ≡ pos 0
  pub completion_is : completion_tokens raw ≡ pos completion
  pub reasoning_is : reasoning_tokens raw ≡ pos reasoning
  pub total_is : total_tokens raw ≡ pos total
  pub contained : cached + written ≤ prompt
  pub totalled : (total ≡ prompt + completion) ⊎ (total ≡ prompt + completion + reasoning)
  pub bounded : total < 2 ^ 63

module _ (raw : Fields) (prompt cached written completion reasoning total : ℕ)
    (c : IsConsistent raw prompt cached written completion reasoning total) where
  uncached-eq : uncached_tokens raw ≡ pos (prompt - cached - written)
  unfolding uncached_tokens
  uncached-eq =
      let first = wrap_sub prompt cached (ground arith) (ground arith) in
      let second = wrap_sub (prompt - cached) written (ground arith) (ground arith) in ground arith

  output-eq : output_tokens raw ≡ pos (total - prompt)
  unfolding output_tokens
  output-eq =
      let first = wrap_sub total prompt (ground arith) (ground arith) in
      let second = wrap_sub (total - prompt) completion (ground arith) (ground arith) in
      elim c.totalled [
        | inl plain ↦ ground arith
        | inr apart ↦ let sum = wrap_add completion reasoning (ground arith) in ground arith
      ]

  -- For a usage object without a count of cache misses whose cached and written tokens are part
  -- of the prompt, and whose total below 2^63 is the sum of prompt and completion, with the
  -- reasoning added or not, the input counts of OpenAIUsageFrom add up to the prompt, and with
  -- the output to the total, so that no token is counted twice or left out.
  pub openai_usage_accounts :
      (total_input_tokens (openai_usage raw) ≡ pos prompt)
      × (pos_part (total_input_tokens (openai_usage raw))
            + pos_part (openai_usage raw).output_tokens
          ≡ total)
  unfolding total_input_tokens openai_usage
  openai_usage_accounts =
      let one = wrap_add (prompt - cached - written) cached (ground arith) in
      let two = wrap_add (prompt - written) written (ground arith) in
      let three = wrap_add prompt 0 (ground arith) in
      (ground (arith, uncached-eq), ground (arith, uncached-eq, output-eq))
