-- ===== src/Sqlite/Append/Rows.antt =====
-- What an append adds to the ledger table.
use spendlease.Base.{ℕ, ◌≡◌, refl, inl, inr, true, ◌∷◌, arith, Bytes, is_some}
use spendlease.Base.Int.{pos, ◌≤ℤ◌}
use spendlease.Ledger.{Platform, Entry, seal, itemized_usage}
use spendlease.Store.{ok, Result-cases}
use spendlease.Sqlite.Tables.{Db, find_run}
use spendlease.Sqlite.Append.{insert_entry, append_ledger, place, ledger_head, head_hash}

pub insert_entry_inv :
    (e : Entry) (s s' : Db)
    → insert_entry e s ≡ ok s'
    → (s' ≡ record s { ledger = record e { usage = itemized_usage e } ∷ s.ledger })
      × (is_some (find_run e.run_id s.runs) ≡ true)
      × (pos 0 ≤ℤ e.cost)
unfolding insert_entry
insert_entry_inv e s s' h = ground arith

pub append_ledger_inv :
    (p : Platform) (now : ℕ) (e o : Entry) (s s' : Db)
    → append_ledger p now e s ≡ ok (o, s')
    → (o ≡ seal p (place now s e) (head_hash (ledger_head s.ledger))) × (insert_entry o s ≡ ok s')
unfolding append_ledger
append_ledger_inv p now e o s s' h =
    elim (Result-cases
      (insert_entry (seal p (place now s e) (head_hash (ledger_head s.ledger))) s)) [
        | inl (x, failed) ↦ ground arith
        | inr (t, done) ↦ ground arith
      ]

-- Sealing keeps what is charged, and to which run.
pub seal_keeps :
    (p : Platform) (e : Entry) (prev : Bytes)
    → ((seal p e prev).run_id ≡ e.run_id)
      × ((seal p e prev).cost ≡ e.cost)
      × ((seal p e prev).seq ≡ e.seq)
      × ((seal p e prev).prev_hash ≡ prev)
unfolding seal
seal_keeps p e prev = ground arith

pub place_keeps :
    (now : ℕ) (s : Db) (e : Entry)
    → ((place now s e).run_id ≡ e.run_id) × ((place now s e).cost ≡ e.cost)
unfolding place
place_keeps now s e = (refl, refl)

-- What an append adds: one row, with the run and the cost of the entry.
pub append_ledger_row :
    (p : Platform) (now : ℕ) (e o : Entry) (s s' : Db)
    → append_ledger p now e s ≡ ok (o, s')
    → (row : Entry) × (s' ≡ record s { ledger = row ∷ s.ledger })
      × (row.run_id ≡ e.run_id)
      × (row.cost ≡ e.cost)
      × (is_some (find_run e.run_id s.runs) ≡ true)
append_ledger_row p now e o s s' h =
    let (sealed, inserted) = append_ledger_inv p now e o s s' h in
    let (same, found, cost) = insert_entry_inv o s s' inserted in
    let prev = head_hash (ledger_head s.ledger) in
    let kept = seal_keeps p (place now s e) prev in
    let placed = place_keeps now s e in
    let run : o.run_id ≡ e.run_id = cc (sealed, kept.0, placed.0) in
    (
      record o { usage = itemized_usage o },
      same,
      run,
      cc (sealed, kept.1, placed.1),
      rw (← run) found,
    )
