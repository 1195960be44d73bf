-- ===== src/Witnesses/Text.antt =====
-- The theorems on texts, rates and the run hierarchy, at concrete amounts and runs.
use spendlease.Base.{false, [], ◌≡◌, refl, some, codes, arith, any, str_eq, inl, inr}
use spendlease.Base.Int.{pos, negsuc}
use spendlease.Money.{parse_usd, to_string}
use spendlease.Money.RoundTrip.{parse_usd-to_string}
use spendlease.Pricing.{cost, Price, Usage}
use spendlease.Pricing.Cost.{cost-documented_cost, documented_cost, IsRated, IsCounted}
use spendlease.Sqlite.Tables.{find_run}
use spendlease.Sqlite.Tree.{subtree, contains, ancestors, ancestors_upto}
use spendlease.Sqlite.Tree.Ancestors.{IsRooted, IsLineage, ancestors_upto-IsLineage}
use spendlease.Sqlite.Tree.Subtree.{subtree-ancestors}
use spendlease.Witnesses.{with_child}

parse_usd-to_string_example : parse_usd (to_string (negsuc 1499999999)) ≡ some (negsuc 1499999999)
parse_usd-to_string_example = parse_usd-to_string (negsuc 1499999999) (omega arith)

rooted : IsRooted with_child.runs
unfolding find_run str_eq
rooted = (refl, inr refl, (refl, inl refl, tt))

subtree-ancestors_example :
    contains (codes "r2") (subtree with_child.runs (codes "r1"))
    ≡ any (λ r. str_eq r.id (codes "r1")) (ancestors with_child.runs (codes "r2"))
subtree-ancestors_example = subtree-ancestors with_child.runs (codes "r1") (codes "r2") rooted

ancestors_upto-IsLineage_example :
    (ancestors_upto 5 with_child.runs (codes "r2") ≡ ancestors with_child.runs (codes "r2"))
    × IsLineage with_child.runs (codes "r2") (ancestors with_child.runs (codes "r2"))
ancestors_upto-IsLineage_example =
    ancestors_upto-IsLineage 5 with_child.runs (codes "r2") rooted (omega arith)

-- Two and a half dollars in, ten out; dearer above 200,000 tokens, which the request exceeds.
abbrev price : Price
price = record {
  provider = [];
  model = [];
  input_per_1m = pos 2500000000;
  cached_input_per_1m = pos 1250000000;
  cache_write_5m_per_1m = pos 3125000000;
  cache_write_1h_per_1m = pos 5000000000;
  output_per_1m = pos 10000000000;
  long_context_threshold = pos 200000;
  long_input_per_1m = pos 5000000000;
  long_cached_input_per_1m = pos 2500000000;
  long_cache_write_per_1m = pos 6250000000;
  long_output_per_1m = pos 15000000000;
  free = false;
  default_max_tokens = pos 4096;
  effective = 1;
  verified = 1;
  source = [];
  estimated = false;
}

abbrev usage : Usage
usage = record {
  input_tokens = pos 212345;
  cached_input_tokens = pos 100;
  cache_write_5m_tokens = pos 0;
  cache_write_1h_tokens = pos 7;
  output_tokens = pos 678;
}

price-IsRated : IsRated price
price-IsRated = record {
  input = (omega arith, omega arith);
  cached = (omega arith, omega arith);
  write_5m = (omega arith, omega arith);
  write_1h = (omega arith, omega arith);
  output = (omega arith, omega arith);
  long_input = (omega arith, omega arith);
  long_cached = (omega arith, omega arith);
  long_write = (omega arith, omega arith);
  long_output = (omega arith, omega arith);
}

usage-IsCounted : IsCounted usage
usage-IsCounted = record {
  input = omega arith;
  cached = omega arith;
  write_5m = omega arith;
  write_1h = omega arith;
  output = omega arith;
}

cost-documented_cost_example : cost price usage ≡ pos (documented_cost price usage)
cost-documented_cost_example =
    cost-documented_cost price usage price-IsRated usage-IsCounted (omega arith)
      (λ h. absurd (ground arith)) (omega arith)
