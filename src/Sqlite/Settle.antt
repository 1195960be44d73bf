-- ===== src/Sqlite/Settle.antt =====
-- SettleReservation: one charge in the ledger and the end of its hold, in one transaction.
pub mod Once
use spendlease.Base.{ℕ, not, ◌||◌, ◌∷◌, none, some, Bytes, str_eq, ◌==◌, if◌then◌else◌, any, update}
use spendlease.Ledger.{Platform, Entry}
use spendlease.Store.{
  Reservation, settled, Result, ok, ◌>>=◌, ◌>>◌, guard, is_pending, is_expired, conflict,
}
use spendlease.Sqlite.Tables.{
  Db, Settlement, or_not_found, find_reservation, find_settlement, find_entry,
}
use spendlease.Sqlite.Reservations.{resolve_to}
use spendlease.Sqlite.Append.{append_ledger}

-- INSERT INTO reservation_settlements: `ledger_seq` is unique, and so is `reservation_id`, which the
-- caller has looked up.
unfoldable pub link_settlement : Settlement → Db → Result Db
link_settlement st s = do
  guard (not (any (λ o. o.ledger_seq == st.ledger_seq) s.settlements)) conflict
  ok (record s { settlements = st ∷ s.settlements })

-- Only a pending hold changes its status; an expired one keeps it.
unfoldable pub finish_hold : ℕ → Reservation → Db → Db
finish_hold now r s =
    if is_pending r.status
    then record s {
      reservations = update (λ o. str_eq o.id r.id) (resolve_to settled now) s.reservations;
    }
    else s

-- A first settlement of the hold `r`.
unfoldable pub settle_first : Platform → ℕ → Reservation → Entry → Db → Result (Entry × Db)
settle_first p now r e s = do
  guard (str_eq e.run_id r.run_id) conflict
  guard (is_pending r.status || is_expired r.status) conflict
  (sealed, s1) ← append_ledger p now e s
  s2 ←
      link_settlement (record { reservation_id = r.id; ledger_seq = sealed.seq; created_at = now })
        s1
  ok (sealed, finish_hold now r s2)

unfoldable pub settle_reservation : Platform → ℕ → Bytes → Entry → Db → Result (Entry × Db)
unfolding find_settlement find_entry
settle_reservation p now i e s = elim (find_settlement i s.settlements) [
  | some st ↦ do o ← or_not_found (find_entry st.ledger_seq s.ledger); ok (o, s)
  | none ↦ do r ← or_not_found (find_reservation i s.reservations); settle_first p now r e s
]
