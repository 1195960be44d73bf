-- ===== src/Sqlite/Usage.antt =====
-- The sums that a budget decision reads: settled cost and pending holds in a subtree, and what a
-- lease has spent.
use spendlease.Base.{◌-◌, ◌^◌, Bool, ◌&&◌, List, [], ◌∷◌, none, some, Bytes, str_eq, if◌then◌else◌}
use spendlease.Base.Int.{ℤ, pos, negsuc, ◌+ℤ◌, ltb_ℤ, leb_ℤ}
use spendlease.Ledger.{Entry}
use spendlease.Store.{Reservation, Result, ok, err, ◌>>=◌, is_pending, other}
use spendlease.Sqlite.Tables.{Db, Settlement, find_reservation, find_entry}
use spendlease.Sqlite.Tree.{subtree, contains}

-- SUM(cost_nanos) over the ledger rows that pass a test.
unfoldable pub sum_costs : (Entry → Bool) → List Entry → ℤ
sum_costs p [] = pos 0
sum_costs p (e ∷ es) = if p e then e.cost +ℤ sum_costs p es else sum_costs p es

-- SUM(amount_nanos) over the reservation rows that pass a test.
unfoldable pub sum_amounts : (Reservation → Bool) → List Reservation → ℤ
sum_amounts p [] = pos 0
sum_amounts p (r ∷ rs) = if p r then r.amount +ℤ sum_amounts p rs else sum_amounts p rs

-- A sum outside int64 is an error of the database.
unfoldable pub fit_int64 : ℤ → Result ℤ
fit_int64 n = if leb_ℤ (negsuc (2 ^ 63 - 1)) n && ltb_ℤ n (pos (2 ^ 63)) then ok n else err other

abbrev pub charged_in : List Bytes → Entry → Bool
charged_in ids e = contains e.run_id ids

abbrev pub held_in : List Bytes → Reservation → Bool
held_in ids r = is_pending r.status && contains r.run_id ids

-- The exact sums of a subtree.
unfoldable pub spent_under : Db → Bytes → ℤ
spent_under s i = sum_costs (charged_in (subtree s.runs i)) s.ledger

unfoldable pub held_under : Db → Bytes → ℤ
held_under s i = sum_amounts (held_in (subtree s.runs i)) s.reservations

-- `subtreeUsage`: spent and held.
unfoldable pub subtree_usage : Db → Bytes → Result (ℤ × ℤ)
unfolding fit_int64
subtree_usage s i = do
  spent ← fit_int64 (spent_under s i)
  held ← fit_int64 (held_under s i)
  ok (spent, held)

-- One row of the join of settlements, reservations and ledger.
unfoldable pub settled_cost : Bytes → Db → Settlement → ℤ
unfolding find_reservation find_entry
settled_cost lease s st = elim (find_reservation st.reservation_id s.reservations) [
  | none ↦ pos 0
  | some r ↦
      if str_eq r.lease_id lease
      then elim (find_entry st.ledger_seq s.ledger) [ none ↦ pos 0 | some e ↦ e.cost ]
      else pos 0
]

unfoldable pub sum_settled : Bytes → Db → List Settlement → ℤ
unfolding settled_cost
sum_settled lease s [] = pos 0
sum_settled lease s (st ∷ sts) = settled_cost lease s st +ℤ sum_settled lease s sts

abbrev pub held_by : Bytes → Reservation → Bool
held_by lease r = is_pending r.status && str_eq r.lease_id lease

unfoldable pub lease_spent : Db → Bytes → ℤ
unfolding sum_settled
lease_spent s i = sum_settled i s s.settlements

unfoldable pub lease_held : Db → Bytes → ℤ
lease_held s i = sum_amounts (held_by i) s.reservations

unfoldable pub lease_usage : Db → Bytes → Result (ℤ × ℤ)
unfolding fit_int64
lease_usage s i = do
  spent ← fit_int64 (lease_spent s i)
  held ← fit_int64 (lease_held s i)
  ok (spent, held)

-- `SpendByRun` and `SpendByPrincipal`
unfoldable pub spend_by_run : Bytes → Db → Result ℤ
unfolding fit_int64
spend_by_run i s = fit_int64 (sum_costs (λ e. str_eq e.run_id i) s.ledger)

unfoldable pub spend_by_principal : Bytes → Db → Result ℤ
unfolding fit_int64
spend_by_principal i s = fit_int64 (sum_costs (λ e. str_eq e.principal_id i) s.ledger)

unfoldable pub pending_reservation_total : Bytes → Db → Result ℤ
unfolding fit_int64
pending_reservation_total i s =
    fit_int64 (sum_amounts (λ r. is_pending r.status && str_eq r.run_id i) s.reservations)
