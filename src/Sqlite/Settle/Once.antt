-- ===== src/Sqlite/Settle/Once.antt =====
-- A hold is charged once: settling it again finds the row that the first settlement stored.
use mathlib.Core.Path.{subst}
use spendlease.Base.{
  ℕ, ◌≡◌, refl, sym, ◌∙◌, inl, inr, true, ap, ◌∷◌, arith, Bytes, str_eq_refl, Option-cases, is_some,
}
use spendlease.Ledger.{Platform, Entry, itemized_usage}
use spendlease.Store.{Reservation, ok, Result-cases}
use spendlease.Sqlite.Tables.{Db, Settlement, find_settlement, find_entry}
use spendlease.Sqlite.Append.{append_ledger}
use spendlease.Sqlite.Append.Rows.{append_ledger_inv, insert_entry_inv}
use spendlease.Sqlite.Settle.{settle_reservation, settle_first, finish_hold, link_settlement}
use spendlease.Sqlite.Budget.Charges.{
  link_settlement_inv, find_reservation-id, settle_reservation-cases,
}

-- The tables with the charge `o` of the hold `i`.
abbrev with_charge : ℕ → Bytes → Entry → Db → Db
with_charge now i o s = record s {
  ledger = record o { usage = itemized_usage o } ∷ s.ledger;
  settlements = record { reservation_id = i; ledger_seq = o.seq; created_at = now } ∷ s.settlements;
}

settle_first_rows :
    (p : Platform) (now : ℕ) (r : Reservation) (e o : Entry) (s s' : Db)
    → settle_first p now r e s ≡ ok (o, s')
    → s' ≡ finish_hold now r (with_charge now r.id o s)
unfolding settle_first
settle_first_rows p now r e o s s' h = elim (Result-cases (append_ledger p now e s)) [
  | inl (x, failed) ↦ absurd (ground arith)
  | inr ((o1, s1), appended) ↦
      let st : Settlement = record {
        reservation_id = r.id;
        ledger_seq = o1.seq;
        created_at = now;
      } in
      elim (Result-cases (link_settlement st s1)) [
        | inl (x, failed) ↦ absurd (ground arith)
        | inr (s2, linked) ↦
            let inserted = (append_ledger_inv p now e o1 s s1 appended).1 in
            ground (arith, link_settlement_inv st s1 s2 linked, insert_entry_inv o1 s s1 inserted)
      ]
]

-- What finds the charge that is newest.
settle_recorded :
    (p : Platform) (now at : ℕ) (r : Reservation) (e o : Entry) (s : Db)
    → let t = finish_hold at r (with_charge at r.id o s) in
      settle_reservation p now r.id e t ≡ ok (record o { usage = itemized_usage o }, t)
unfolding settle_reservation finish_hold find_settlement find_entry
settle_recorded p now at r e o s = ground (arith, str_eq_refl r.id)

-- A recorded charge is found whatever the call asks for.
settle_known :
    (p : Platform) (now later : ℕ) (i : Bytes) (e f : Entry) (s : Db)
    → is_some (find_settlement i s.settlements) ≡ true
    → settle_reservation p later i f s ≡ settle_reservation p now i e s
unfolding settle_reservation
settle_known p now later i e f s h = elim (Option-cases (find_settlement i s.settlements)) [
  | inl missing ↦ absurd (ground arith)
  | inr (st, known) ↦ ground arith
]

-- A settlement that succeeded can be repeated with any charge and at any time: the repetition
-- succeeds too, leaves the store as it is, and returns a row with the sequence number, the cost
-- and the hash of the entry that was returned first, so no hold is charged twice.
pub settle_reservation-settle_reservation :
    (p : Platform) (now later : ℕ) (i : Bytes) (e f o : Entry) (s s' : Db)
    → settle_reservation p now i e s ≡ ok (o, s')
    → (row : Entry) × (settle_reservation p later i f s' ≡ ok (row, s'))
      × (row.seq ≡ o.seq)
      × (row.cost ≡ o.cost)
      × (row.hash ≡ o.hash)
settle_reservation-settle_reservation p now later i e f o s s' h =
    elim (settle_reservation-cases p now i e o s s' h) [
      | inl (known, same) ↦
          let again = settle_known p now later i e f s known ∙ h in
          (
            o,
            subst (λ t. settle_reservation p later i f t ≡ ok (o, t)) (sym same)
                (again ∙ ap (λ t. ok (o, t)) same),
            refl,
            refl,
            refl,
          )
      | inr (r, first, found, done) ↦
          let rows = settle_first_rows p now r e o s s' done in
          let id = find_reservation-id i r s.reservations found in
          let again = settle_recorded p later now r f o s in
          let row = record o { usage = itemized_usage o } in
          (
            row,
            subst (λ t. settle_reservation p later i f t ≡ ok (row, t)) (sym rows)
                (rw (← id) again),
            refl,
            refl,
            refl,
          )
    ]
