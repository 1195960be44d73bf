-- ===== src/Sqlite/Reservations.antt =====
-- The methods on single holds: createReservation, ResolveReservation, ExpirePendingReservations.
use spendlease.Base.{
  ℕ, Bool, not, ◌&&◌, ◌||◌, ◌∷◌, none, some, Bytes, str_eq, str_leb, if◌then◌else◌, keep, update,
  is_some, length,
}
use spendlease.Base.Int.{pos, ltb_ℤ}
use spendlease.Store.{
  Reservation, ReservationStatus, expired, Result, ok, err, ◌>>◌, guard, reservation_status_valid,
  is_pending, is_empty, not_found, conflict,
}
use spendlease.Sqlite.Tables.{Db, find_run, find_lease, find_reservation}

-- `(status = 'pending') = (resolved_at IS NULL)`
abbrev resolved_matches : Reservation → Bool
resolved_matches r =
    if is_pending r.status then not (is_some r.resolved_at) else is_some r.resolved_at

-- INSERT INTO reservations, with the constraints of the table.
unfoldable pub create_reservation : Reservation → Db → Result Db
unfolding find_lease
create_reservation r s = do
  guard (reservation_status_valid r.status) conflict
  guard (not (ltb_ℤ r.amount (pos 0))) conflict
  guard (resolved_matches r) conflict
  guard (not (is_some (find_reservation r.id s.reservations))) conflict
  guard (is_some (find_run r.run_id s.runs)) not_found
  guard (is_empty r.lease_id || is_some (find_lease r.lease_id s.leases)) not_found
  ok (record s { reservations = r ∷ s.reservations })

abbrev pub is_open : Bytes → Reservation → Bool
is_open i r = str_eq r.id i && is_pending r.status

abbrev pub resolve_to : ReservationStatus → ℕ → Reservation → Reservation
resolve_to status at r = record r { status = status; resolved_at = some at }

unfoldable pub resolve_reservation : Bytes → ReservationStatus → ℕ → Db → Result Db
resolve_reservation i status at s = do
  guard (reservation_status_valid status && not (is_pending status)) conflict
  elim (find_reservation i s.reservations) [
    | none ↦ err not_found
    | some r ↦
        if is_pending r.status
        then ok
            (record s { reservations = update (is_open i) (resolve_to status at) s.reservations })
        else err conflict
  ]

-- `status = 'pending' AND expires_at <= ?`: instants are compared as the texts that are stored.
abbrev pub is_stale : (ℕ → Bytes) → ℕ → Reservation → Bool
is_stale format_time now r =
    is_pending r.status && str_leb (format_time r.expires_at) (format_time now)

unfoldable pub expire_pending_reservations : (ℕ → Bytes) → ℕ → Db → ℕ × Db
expire_pending_reservations format_time now s =
    let stale = is_stale format_time now in
    (
      length (keep stale s.reservations),
      record s { reservations = update stale (resolve_to expired now) s.reservations },
    )
