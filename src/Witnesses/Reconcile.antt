-- ===== src/Witnesses/Reconcile.antt =====
-- The theorem on the totals of a reconciliation, at two rows of which one is in the period.
use spendlease.Base.{◌≡◌, ◌<◌, ◌^◌, refl, [], ◌∷◌, some, codes, str_eq, arith}
use spendlease.Base.Int.{pos, ◌+ℤ◌, ◌-ℤ◌, wrap64}
use spendlease.Billing.{validate, valid_unit, quantity_of, add_quantity}
use spendlease.Money.{trim_space, trim_left, trim_end}
use spendlease.Reconcile.{
  StatementEntry, ReconcileOptions, Groups, key_of, add_all, add, add_to, add_usage, in_period,
  value_of, put_group, same_key,
}
use spendlease.Reconcile.Totals.{add_all-cost_sum, cost_sum, count_of}

abbrev row : StatementEntry
row = record {
  provider = codes "openai";
  model = codes "gpt";
  external_id = [];
  usage = (codes "input_tokens", pos 5) ∷ [];
  cost = pos 40;
  occurred_at = 3;
}

abbrev late_row : StatementEntry
late_row = record row { occurred_at = 9 }

abbrev period : ReconcileOptions
period = record { since = 2; until = 9; cost_tolerance = pos 0 }

abbrev totals : Groups
totals =
    (
      key_of row,
      record { records = 1; cost = pos 40; usage = (codes "input_tokens", pos 5) ∷ []; ids = [] },
    )
    ∷ []

adds_up : add_all period (row ∷ late_row ∷ []) [] ≡ some totals
unfolding add_all add add_to add_usage in_period value_of put_group same_key validate valid_unit
    quantity_of add_quantity trim_space trim_left trim_end str_eq wrap64 ◌+ℤ◌ ◌-ℤ◌
adds_up = refl

add_all-cost_sum_example :
    (cost_sum period (key_of row) (row ∷ late_row ∷ []) < 2 ^ 63)
    × ((value_of (key_of row) totals).cost
        ≡ pos (cost_sum period (key_of row) (row ∷ late_row ∷ [])))
    × ((value_of (key_of row) totals).records ≡ count_of period (key_of row) (row ∷ late_row ∷ []))
add_all-cost_sum_example =
    add_all-cost_sum period (key_of row) (row ∷ late_row ∷ []) totals
      (omega arith, (omega arith, tt)) adds_up
