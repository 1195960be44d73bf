-- ===== src/Witnesses/Covered.antt =====
-- The theorem on the charge of a request without reported usage, at a response that was cut short.
use spendlease.Base.{◌<◌, ◌^◌, refl, true, false, [], codes, str_eq, entry_of, arith}
use spendlease.Base.Int.{pos, ◌≤ℤ◌, ◌+ℤ◌, wrap64}
use spendlease.Pricing.{reservation_input_tokens, reservation_tokens}
use spendlease.Pricing.Cost.{IsRated, all_input, exact_cost}
use spendlease.Pricing.Monotone.{IsGrowing}
use spendlease.Pricing.Book.{
  lookup, lookup_known, newest_price, file_price, by_alias, price_of, rate_or,
}
use spendlease.Providers.{no_usage}
use spendlease.Gateway.Record.{Observation, charge_entry, estimate_hold, hold_usage}
use spendlease.Gateway.Record.Covered.{charge_entry-estimate_hold, IsMeasured, price_at}
use spendlease.Witnesses.{plain}
use spendlease.Witnesses.Gateway.{recorder, context, gpt_info}

abbrev cut_short : Observation
cut_short = record {
  context = context;
  provider = codes "openai";
  request = record gpt_info { prompt_chars = pos 40 };
  usage = no_usage;
  usage_reported = false;
  complete = false;
  upstream_ok = true;
  reservation_id = codes "h7";
  external_id = [];
}

measured : IsMeasured cut_short
measured = record {
  chars = omega arith;
  bytes = omega arith;
  small = omega arith;
  has_output = refl;
}

rated : IsRated (price_at recorder 8 cut_short)
unfolding lookup lookup_known newest_price file_price by_alias price_of rate_or entry_of str_eq
rated = record {
  input = (omega arith, omega arith);
  cached = (omega arith, omega arith);
  write_5m = (omega arith, omega arith);
  write_1h = (omega arith, omega arith);
  output = (omega arith, omega arith);
  long_input = (omega arith, omega arith);
  long_cached = (omega arith, omega arith);
  long_write = (omega arith, omega arith);
  long_output = (omega arith, omega arith);
}

growing : IsGrowing (price_at recorder 8 cut_short)
unfolding lookup lookup_known newest_price file_price by_alias price_of rate_or entry_of str_eq
growing = record {
  input = omega arith;
  cached = omega arith;
  write_5m = omega arith;
  write_1h = omega arith;
  output = omega arith;
}

small_input : all_input (hold_usage cut_short.request (price_at recorder 8 cut_short)) < 2 ^ 63
unfolding lookup lookup_known newest_price file_price by_alias price_of rate_or entry_of str_eq
    reservation_input_tokens reservation_tokens wrap64 ◌+ℤ◌
small_input = omega arith

small_cost :
    exact_cost
      (price_at recorder 8 cut_short)
      (hold_usage cut_short.request (price_at recorder 8 cut_short))
    < 2 ^ 63
unfolding lookup lookup_known newest_price file_price by_alias price_of rate_or entry_of str_eq
    reservation_input_tokens reservation_tokens wrap64 ◌+ℤ◌
small_cost = omega arith

charge_entry-estimate_hold_example :
    (charge_entry plain recorder 8 cut_short).cost
    ≤ℤ estimate_hold recorder 8 (codes "openai") cut_short.request
charge_entry-estimate_hold_example =
    charge_entry-estimate_hold plain recorder 8 cut_short refl measured rated growing small_input
      small_cost
