-- ===== src/Gateway/Record/Covered.antt =====
-- record.go: the charge of a request without reported usage is covered by its hold.
use spendlease.Pricing as Prices
use spendlease.Base.{ℕ, ◌+◌, ◌/◌, ◌^◌, ◌≤◌, ◌<◌, ◌≡◌, refl, ap, ◌∙◌, false, arith, if◌then◌else◌}
use spendlease.Base.Int.{ℤ, pos, negsuc, pos_part, ◌≤ℤ◌, ◌<ℤ◌, ◌+ℤ◌, ◌-ℤ◌, wrap64, ltb_ℤ}
use spendlease.Ledger.{Platform}
use spendlease.Pricing.{
  Price, cost, estimate_from_chars, reservation_input_tokens, reservation_tokens, div_toward_zero,
}
use spendlease.Pricing.Cost.{IsRated, IsCounted, all_input, exact_cost}
use spendlease.Pricing.Rate.{+ℤ-pos, wrap64-pos}
use spendlease.Pricing.Monotone.{IsWithin, IsGrowing, cost_mono}
use spendlease.Pricing.Book.{lookup}
use spendlease.Gateway.{Recorder}
use spendlease.Gateway.Record.{
  Observation, charge_entry, estimate_hold, hold_usage, estimate_usage, priced_usage, priced_counts,
  cost_of,
}

reservation_input_tokens-pos :
    (n : ℕ) → n < 2 ^ 62 → reservation_input_tokens (pos n) ≡ pos (n + 1024)
unfolding reservation_input_tokens
reservation_input_tokens-pos n h =
    let floored : (if ltb_ℤ (pos n) (pos 0) then pos 0 else pos n) ≡ pos n = ground arith in
    ap (λ b. wrap64 (b +ℤ pos 1024)) floored
    ∙ (ap wrap64 (+ℤ-pos n 1024) ∙ wrap64-pos (n + 1024) (omega arith))

sub_one : (n : ℕ) → pos (n + 4) -ℤ pos 1 ≡ pos (n + 3)
unfolding ◌-ℤ◌
sub_one n = ground arith

quarter :
    (c : ℕ)
    → c < 2 ^ 62
    → div_toward_zero (wrap64 (wrap64 (pos c +ℤ pos 4) -ℤ pos 1)) 4 ≡ pos ((c + 3) / 4)
unfolding div_toward_zero
quarter c h =
    ap (λ t. div_toward_zero (wrap64 (t -ℤ pos 1)) 4)
      (ap wrap64 (+ℤ-pos c 4) ∙ wrap64-pos (c + 4) (omega arith))
    ∙ ap (λ t. div_toward_zero t 4) (ap wrap64 (sub_one c) ∙ wrap64-pos (c + 3) (omega arith))

estimate_from_chars-within :
    (c n : ℕ)
    → c ≤ n
    → n < 2 ^ 62
    → (pos 0 ≤ℤ estimate_from_chars (pos c)) × (estimate_from_chars (pos c) ≤ℤ pos (n + 1024))
unfolding estimate_from_chars
estimate_from_chars-within c n h k =
    let ceiling = quarter c (omega arith) in rw ceiling (ground arith)

reservation_tokens-positive : (t : ℤ) (p : Price) → pos 0 <ℤ reservation_tokens t p
unfolding reservation_tokens
reservation_tokens-positive t p = ground arith

half-within : (t : ℤ) → pos 0 <ℤ t → (pos 0 ≤ℤ div_toward_zero t 2) × (div_toward_zero t 2 ≤ℤ t)
unfolding div_toward_zero
half-within (pos n) h = (omega arith, omega arith)
half-within (negsuc n) h = absurd (omega arith)

-- The price that the request has at the instant.
abbrev pub price_at : Recorder → ℕ → Observation → Price
price_at rc now obs = (lookup rc.book obs.provider obs.request.model now).0

-- The usage that is estimated when the vendor has reported none.
abbrev pub estimated : Observation → Price → Prices.Usage
estimated obs price = priced_counts (estimate_usage obs price)

input-within :
    (chars bytes : ℤ)
    → pos 0 ≤ℤ chars
    → chars ≤ℤ bytes
    → pos_part bytes < 2 ^ 62
    → (pos 0 ≤ℤ estimate_from_chars chars)
      × (estimate_from_chars chars ≤ℤ reservation_input_tokens bytes)
input-within (pos c) (pos n) z h k =
    rw (reservation_input_tokens-pos n k) (estimate_from_chars-within c n (omega arith) k)
input-within (pos c) (negsuc n) z h k = absurd (omega arith)
input-within (negsuc c) b z h k = absurd (omega arith)

output-within :
    (obs : Observation) (price : Price)
    → obs.request.no_output ≡ false
    → (pos 0 ≤ℤ (estimate_usage obs price).output_tokens)
      × ((estimate_usage obs price).output_tokens ≤ℤ (hold_usage obs.request price).output_tokens)
unfolding estimate_usage
output-within obs price n =
    let ceiling = reservation_tokens obs.request.max_tokens price in
    let positive = reservation_tokens-positive obs.request.max_tokens price in
    let half = half-within ceiling positive in ground (arith, n, positive, half)

-- The sizes of the request are those of one text: no more characters than bytes.
pub record IsMeasured (obs : Observation) : Type 0 where
  pub chars : pos 0 ≤ℤ obs.request.prompt_chars
  pub bytes : obs.request.prompt_chars ≤ℤ obs.request.request_bytes
  pub small : pos_part obs.request.request_bytes < 2 ^ 62
  pub has_output : obs.request.no_output ≡ false

estimated-IsWithin :
    (obs : Observation) (price : Price)
    → IsMeasured obs
    → IsCounted (estimated obs price)
      × IsCounted (hold_usage obs.request price)
      × IsWithin (estimated obs price) (hold_usage obs.request price)
unfolding estimate_usage
estimated-IsWithin obs price m =
    let input =
      input-within obs.request.prompt_chars obs.request.request_bytes m.chars m.bytes m.small in
    let output = output-within obs price m.has_output in
    (
      record {
        input = input.0;
        cached = omega arith;
        write_5m = omega arith;
        write_1h = omega arith;
        output = output.0;
      },
      record {
        input = omega (arith, input.0, input.1);
        cached = omega arith;
        write_5m = omega arith;
        write_1h = omega arith;
        output = omega (arith, output.0, output.1);
      },
      record {
        input = input.1;
        cached = omega arith;
        write_5m = omega arith;
        write_1h = omega arith;
        output = output.1;
      },
    )

charge_entry-cost :
    (p : Platform) (rc : Recorder) (now : ℕ) (obs : Observation)
    → obs.usage_reported ≡ false
    → (charge_entry p rc now obs).cost
      ≡ cost (price_at rc now obs) (estimated obs (price_at rc now obs))
unfolding charge_entry priced_usage cost_of lookup
charge_entry-cost p rc now obs h = ground (arith, h)

estimate_hold-cost :
    (rc : Recorder) (now : ℕ) (obs : Observation)
    → estimate_hold rc now obs.provider obs.request
      ≡ cost (price_at rc now obs) (hold_usage obs.request (price_at rc now obs))
unfolding estimate_hold
estimate_hold-cost rc now obs = refl

-- When the vendor has reported no usage, the cost that Record charges is at most the amount that
-- Reserve holds for the same request at the same instant and price book, provided that the
-- request may produce output and has no more characters than bytes, that the price's rates lie
-- between zero and 9,000 dollars per million tokens and its long-context rates are no less than
-- those they replace, and that the held usage is priced without overflow.
pub charge_entry-estimate_hold :
    (p : Platform) (rc : Recorder) (now : ℕ) (obs : Observation)
    → obs.usage_reported ≡ false
    → IsMeasured obs
    → IsRated (price_at rc now obs)
    → IsGrowing (price_at rc now obs)
    → all_input (hold_usage obs.request (price_at rc now obs)) < 2 ^ 63
    → exact_cost (price_at rc now obs) (hold_usage obs.request (price_at rc now obs)) < 2 ^ 63
    → (charge_entry p rc now obs).cost ≤ℤ estimate_hold rc now obs.provider obs.request
charge_entry-estimate_hold p rc now obs h m r g i k =
    let price = price_at rc now obs in
    let (counted, held, within) = estimated-IsWithin obs price m in
    rw (charge_entry-cost p rc now obs h, estimate_hold-cost rc now obs)
      (cost_mono price (estimated obs price) (hold_usage obs.request price) r g counted held within
        i k)
