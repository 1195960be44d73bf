-- ===== src/Sqlite/Budget/Holds.antt =====
-- Holds and the invariant: an enforced reservation fits below every budget above it, and a hold that
-- ends only gives back.
use mathlib.Core.Path.{subst}
use spendlease.Base.{
  ℕ, ◌≡◌, refl, ◌⊎◌, inl, inr, Bool, true, false, List, [], ◌∷◌, some, arith, Bytes, if◌then◌else◌,
  All, is_some, update, sym,
}
use spendlease.Base.Int.{ℤ, pos, ◌+ℤ◌, ◌≤ℤ◌, +ℤ_parts, eq_of_parts}
use spendlease.Store.{Run, Reservation, ReservationStatus, expired, ok, is_pending}
use spendlease.Sqlite.Tables.{Db, find_run}
use spendlease.Sqlite.Tree.{subtree, contains, ancestors}
use spendlease.Sqlite.Tree.Ancestors.{ancestors-chain}
use spendlease.Sqlite.Tree.Subtree.{subtree-ancestors}
use spendlease.Sqlite.Usage.{sum_amounts, held_in, spent_under, held_under}
use spendlease.Sqlite.Reservations.{
  resolve_reservation, expire_pending_reservations, resolve_to, is_open, is_stale,
}
use spendlease.Sqlite.Reserve.{try_reserve}
use spendlease.Sqlite.Budget.Decision.{
  is_short, exceeds, remaining_of_fits, check_budgets_exact, try_reserve-cases,
  create_reservation_inv,
}
use spendlease.Sqlite.Budget.Sums.{IsNonneg, sum_amounts_nonneg, sum_amounts-resolve}
use spendlease.Sqlite.Budget.Solvent.{
  IsValid, IsHeld, Covers, chain-IsFound, any-chain_false, find_run_self, IsSolvent,
}

-- A run that is not short covers the new hold too, whatever its amount.
not_short-Covers :
    (s : Db) (a : ℤ) (n : Run)
    → IsValid s
    → Covers s n
    → pos 0 ≤ℤ a
    → is_short s a n ≡ false
    → (n.budget ≡ pos 0) ⊎ (a +ℤ held_under s n.id +ℤ spent_under s n.id ≤ℤ n.budget)
unfolding is_short held_under
not_short-Covers s a n v c p h = ground (
  arith,
  +ℤ_parts a (held_under s n.id),
  +ℤ_parts (a +ℤ held_under s n.id) (spent_under s n.id),
  +ℤ_parts (spent_under s n.id) (held_under s n.id),
  +ℤ_parts (spent_under s n.id +ℤ held_under s n.id) a,
  eq_of_parts n.budget (pos 0),
  sum_amounts_nonneg (held_in (subtree s.runs n.id)) s.reservations v.amounts,
  remaining_of_fits n.budget (spent_under s n.id) (held_under s n.id) a,
)

-- The hold that is inserted is counted below exactly the runs of its chain.
held_under-insert :
    (s : Db) (r : Reservation) (i : Bytes)
    → is_pending r.status ≡ true
    → held_under (record s { reservations = r ∷ s.reservations }) i ≡ (
        if contains r.run_id (subtree s.runs i) then r.amount +ℤ held_under s i else held_under s i)
unfolding held_under sum_amounts
held_under-insert s r i p = ground arith

insert-Covers :
    (s : Db) (r : Reservation) (i : Bytes) (n : Run)
    → IsValid s
    → is_pending r.status ≡ true
    → pos 0 ≤ℤ r.amount
    → exceeds s r ≡ false
    → find_run i s.runs ≡ some n
    → Covers s n
    → Covers (record s { reservations = r ∷ s.reservations }) n
unfolding exceeds spent_under
insert-Covers s r i n v p a e f c =
    let here : find_run n.id s.runs ≡ some n = find_run_self i n s.runs f in
    let found = chain-IsFound s.runs r.run_id v.rooted in
    ground (
      arith,
      held_under-insert s r n.id p,
      subtree-ancestors s.runs n.id r.run_id v.rooted,
      any-chain_false (is_short s r.amount) s.runs (ancestors s.runs r.run_id) n
          (rw (ancestors-chain s.runs r.run_id v.rooted) found),
      not_short-Covers s r.amount n v c a,
      +ℤ_parts r.amount (held_under s n.id),
      +ℤ_parts (r.amount +ℤ held_under s n.id) (spent_under s n.id),
      +ℤ_parts (spent_under s n.id) (r.amount +ℤ held_under s n.id),
    )

-- A hold in a valid table keeps it valid.
insert-IsValid :
    (s : Db) (r : Reservation)
    → IsValid s
    → pos 0 ≤ℤ r.amount
    → is_some (find_run r.run_id s.runs) ≡ true
    → IsValid (record s { reservations = r ∷ s.reservations })
insert-IsValid s r v a f = record {
  rooted = v.rooted;
  charged = v.charged;
  held = (f, v.held);
  amounts = (a, v.amounts);
}

-- An enforced TryReserve keeps the invariant of the store, whether it is accepted, blocked or
-- fails: rows refer to runs of the table, parents are older than their children, holds are not
-- negative, and no budget is exceeded by what is settled and held in its subtree.
pub try_reserve-IsSolvent :
    (r : Reservation) (s : Db) → IsSolvent s → IsSolvent (try_reserve r true s).0
try_reserve-IsSolvent r s (v, w) = elim (try_reserve-cases s r true) [
  | inl same ↦ subst IsSolvent (sym same) (v, w)
  | inr (unresolved, created, checked, clear) ↦
      let (same, amount, found) = create_reservation_inv r s (try_reserve r true s).0 created in
      let fits : exceeds s r ≡ false = ground (arith, check_budgets_exact s r checked) in
      subst IsSolvent (sym same) (
        insert-IsValid s r v amount found,
        λ i n f. insert-Covers s r i n v unresolved amount fits f (w i n f),
      )
]

pub All-resolve :
    (p : Reservation → Bool) (status : ReservationStatus) (at : ℕ) (rs : List Reservation)
    (ns : List Run)
    → All (IsHeld ns) rs
    → All IsNonneg rs
    → All (IsHeld ns) (update p (resolve_to status at) rs)
      × All IsNonneg (update p (resolve_to status at) rs)
All-resolve p status at [] ns h k = (tt, tt)
All-resolve p status at (r ∷ rs) ns h k =
    let rest = All-resolve p status at rs ns h.1 k.1 in
    ((ground arith, rest.0), (ground arith, rest.1))

-- Ending holds only gives back.
pub resolve-IsSolvent :
    (p : Reservation → Bool) (status : ReservationStatus) (at : ℕ) (s : Db)
    → is_pending status ≡ false
    → IsSolvent s
    → IsSolvent (record s { reservations = update p (resolve_to status at) s.reservations })
unfolding held_under spent_under
resolve-IsSolvent p status at s h (v, w) =
    let rows = All-resolve p status at s.reservations s.runs v.held v.amounts in
    (
      record { rooted = v.rooted; charged = v.charged; held = rows.0; amounts = rows.1 },
      λ i n f.
          let ids = subtree s.runs n.id in
          let now = sum_amounts (held_in ids) (update p (resolve_to status at) s.reservations) in
          ground (
            arith,
            w i n f,
            sum_amounts-resolve ids p status at s.reservations h v.amounts,
            +ℤ_parts (spent_under s n.id) (sum_amounts (held_in ids) s.reservations),
            +ℤ_parts (spent_under s n.id) now,
          ),
    )

pub resolve_reservation_inv :
    (i : Bytes) (status : ReservationStatus) (at : ℕ) (s s' : Db)
    → resolve_reservation i status at s ≡ ok s'
    → (is_pending status ≡ false)
      × (s' ≡ record s { reservations = update (is_open i) (resolve_to status at) s.reservations })
unfolding resolve_reservation
resolve_reservation_inv i status at s s' h = ground arith

pub resolve_reservation-IsSolvent :
    (i : Bytes) (status : ReservationStatus) (at : ℕ) (s s' : Db)
    → resolve_reservation i status at s ≡ ok s'
    → IsSolvent s
    → IsSolvent s'
resolve_reservation-IsSolvent i status at s s' h v =
    let (ended, same) = resolve_reservation_inv i status at s s' h in
    subst IsSolvent (sym same) (resolve-IsSolvent (is_open i) status at s ended v)

pub expire-IsSolvent :
    (format_time : ℕ → Bytes) (now : ℕ) (s : Db)
    → IsSolvent s
    → IsSolvent (expire_pending_reservations format_time now s).1
unfolding expire_pending_reservations
expire-IsSolvent format_time now s v =
    resolve-IsSolvent (is_stale format_time now) expired now s refl v
