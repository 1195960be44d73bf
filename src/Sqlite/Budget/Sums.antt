-- ===== src/Sqlite/Budget/Sums.antt =====
-- How the sums of a budget decision change with the rows that they read.
use spendlease.Base.{
  ℕ, ◌≡◌, refl, Bool, true, false, List, [], ◌∷◌, some, arith, Bytes, str_eq, All, update,
}
use spendlease.Base.Int.{pos, ◌+ℤ◌, ◌≤ℤ◌, +ℤ_parts}
use spendlease.Ledger.{Entry}
use spendlease.Store.{Reservation, ReservationStatus, is_pending}
use spendlease.Sqlite.Tables.{find_reservation}
use spendlease.Sqlite.Tree.{contains}
use spendlease.Sqlite.Usage.{sum_costs, sum_amounts, held_in}
use spendlease.Sqlite.Reservations.{resolve_to}

abbrev pub IsNonneg : Reservation → Type 0
IsNonneg r = pos 0 ≤ℤ r.amount

pub sum_costs_ext :
    (p q : Entry → Bool) (es : List Entry)
    → All (λ e. p e ≡ q e) es
    → sum_costs p es ≡ sum_costs q es
unfolding sum_costs
sum_costs_ext p q [] h = refl
sum_costs_ext p q (e ∷ es) h = ground (arith, sum_costs_ext p q es h.1)

pub sum_amounts_ext :
    (p q : Reservation → Bool) (rs : List Reservation)
    → All (λ r. p r ≡ q r) rs
    → sum_amounts p rs ≡ sum_amounts q rs
unfolding sum_amounts
sum_amounts_ext p q [] h = refl
sum_amounts_ext p q (r ∷ rs) h = ground (arith, sum_amounts_ext p q rs h.1)

pub sum_costs_none :
    (p : Entry → Bool) (es : List Entry) → All (λ e. p e ≡ false) es → sum_costs p es ≡ pos 0
unfolding sum_costs
sum_costs_none p [] h = refl
sum_costs_none p (e ∷ es) h = ground (arith, sum_costs_none p es h.1)

pub sum_amounts_none :
    (p : Reservation → Bool) (rs : List Reservation)
    → All (λ r. p r ≡ false) rs
    → sum_amounts p rs ≡ pos 0
unfolding sum_amounts
sum_amounts_none p [] h = refl
sum_amounts_none p (r ∷ rs) h = ground (arith, sum_amounts_none p rs h.1)

pub sum_amounts_nonneg :
    (p : Reservation → Bool) (rs : List Reservation) → All IsNonneg rs → pos 0 ≤ℤ sum_amounts p rs
unfolding sum_amounts
sum_amounts_nonneg p [] h = omega arith
sum_amounts_nonneg p (r ∷ rs) h =
    ground (arith, sum_amounts_nonneg p rs h.1, +ℤ_parts r.amount (sum_amounts p rs))

-- Ending holds, whichever, raises no sum of pending amounts.
pub sum_amounts-resolve :
    (ids : List Bytes) (p : Reservation → Bool) (status : ReservationStatus) (at : ℕ)
    (rs : List Reservation)
    → is_pending status ≡ false
    → All IsNonneg rs
    → sum_amounts (held_in ids) (update p (resolve_to status at) rs) ≤ℤ sum_amounts (held_in ids) rs
unfolding sum_amounts
sum_amounts-resolve ids p status at [] h k = omega arith
sum_amounts-resolve ids p status at (r ∷ rs) h k = ground (
  arith,
  sum_amounts-resolve ids p status at rs h k.1,
  +ℤ_parts r.amount (sum_amounts (held_in ids) rs),
  +ℤ_parts r.amount (sum_amounts (held_in ids) (update p (resolve_to status at) rs)),
)

-- Ending one pending hold takes its amount off.
pub sum_amounts-resolve_one :
    (ids : List Bytes) (i : Bytes) (status : ReservationStatus) (at : ℕ) (r : Reservation)
    (rs : List Reservation)
    → is_pending status ≡ false
    → All IsNonneg rs
    → find_reservation i rs ≡ some r
    → is_pending r.status ≡ true
    → contains r.run_id ids ≡ true
    → sum_amounts (held_in ids) (update (λ o. str_eq o.id i) (resolve_to status at) rs) +ℤ r.amount
      ≤ℤ sum_amounts (held_in ids) rs
unfolding sum_amounts find_reservation
sum_amounts-resolve_one ids i status at r [] h k f p c = cc
sum_amounts-resolve_one ids i status at r (o ∷ rs) h k f p c =
    let after = sum_amounts (held_in ids) (update (λ o. str_eq o.id i) (resolve_to status at) rs) in
    ground (
      arith,
      sum_amounts-resolve ids (λ o. str_eq o.id i) status at rs h k.1,
      sum_amounts-resolve_one ids i status at r rs h k.1,
      +ℤ_parts o.amount (sum_amounts (held_in ids) rs),
      +ℤ_parts o.amount after,
      +ℤ_parts after r.amount,
      +ℤ_parts (o.amount +ℤ after) r.amount,
    )
