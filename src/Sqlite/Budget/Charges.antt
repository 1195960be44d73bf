-- ===== src/Sqlite/Budget/Charges.antt =====
-- Settlement and the invariant: a charge that its own pending hold covers keeps every budget.
use mathlib.Core.Path.{subst}
use spendlease.Base.{
  ℕ, ◌≡◌, refl, sym, ◌∙◌, ◌⊎◌, inl, inr, true, List, [], ◌∷◌, none, some, arith, Bytes, str_eq,
  str_eq_iff, if◌then◌else◌, is_some, update, Option-cases, ap,
}
use spendlease.Base.Int.{◌+ℤ◌, ◌≤ℤ◌, +ℤ_parts}
use spendlease.Ledger.{Platform, Entry}
use spendlease.Store.{Run, Reservation, settled, ok, is_pending, Result-cases}
use spendlease.Sqlite.Tables.{
  Db, Settlement, find_run, find_reservation, find_settlement, find_entry,
}
use spendlease.Sqlite.Tree.{subtree, contains}
use spendlease.Sqlite.Usage.{sum_costs, sum_amounts, held_in, charged_in, spent_under, held_under}
use spendlease.Sqlite.Reservations.{resolve_to}
use spendlease.Sqlite.Append.{append_ledger}
use spendlease.Sqlite.Append.Rows.{append_ledger_row}
use spendlease.Sqlite.Settle.{settle_first, settle_reservation, finish_hold, link_settlement}
use spendlease.Sqlite.Budget.Sums.{sum_amounts-resolve, sum_amounts-resolve_one}
use spendlease.Sqlite.Budget.Holds.{All-resolve}
use spendlease.Sqlite.Budget.Solvent.{IsValid, IsSolvent, Covers}

pub link_settlement_inv :
    (st : Settlement) (s s' : Db)
    → link_settlement st s ≡ ok s'
    → s' ≡ record s { settlements = st ∷ s.settlements }
unfolding link_settlement
link_settlement_inv st s s' h = ground arith

-- What a first settlement does to the tables.
pub settle_first_inv :
    (p : Platform) (now : ℕ) (r : Reservation) (e o : Entry) (s s' : Db)
    → settle_first p now r e s ≡ ok (o, s')
    → (row : Entry) × (st : Settlement) × (s'
        ≡ finish_hold now r
            (record s { ledger = row ∷ s.ledger; settlements = st ∷ s.settlements }))
      × (row.run_id ≡ r.run_id)
      × (row.cost ≡ e.cost)
      × (is_some (find_run r.run_id s.runs) ≡ true)
unfolding settle_first
settle_first_inv p now r e o s s' h = elim (Result-cases (append_ledger p now e s)) [
  | inl (x, failed) ↦ absurd (ground arith)
  | inr ((o1, s1), appended) ↦
      let st : Settlement = record {
        reservation_id = r.id;
        ledger_seq = o1.seq;
        created_at = now;
      } in
      elim (Result-cases (link_settlement st s1)) [
        | inl (x, failed) ↦ absurd (ground arith)
        | inr (s2, linked) ↦
            let (row, same, run, cost, found) = append_ledger_row p now e o1 s s1 appended in
            let matching : e.run_id ≡ r.run_id = ground (arith, str_eq_iff e.run_id r.run_id) in
            (
              row,
              st,
              ground (arith, link_settlement_inv st s1 s2 linked),
              run ∙ matching,
              cost,
              rw (← matching) found,
            )
      ]
]

spent_under-charge :
    (s : Db) (row : Entry) (i : Bytes) (sts : List Settlement)
    → spent_under (record s { ledger = row ∷ s.ledger; settlements = sts }) i ≡ (
        if contains row.run_id (subtree s.runs i)
        then row.cost +ℤ spent_under s i
        else spent_under s i)
unfolding spent_under sum_costs
spent_under-charge s row i sts = refl

charged-Covers :
    (s : Db) (now : ℕ) (r : Reservation) (row : Entry) (sts : List Settlement) (n : Run)
    → IsValid s
    → find_reservation r.id s.reservations ≡ some r
    → is_pending r.status ≡ true
    → row.run_id ≡ r.run_id
    → row.cost ≤ℤ r.amount
    → Covers s n
    → Covers (finish_hold now r (record s { ledger = row ∷ s.ledger; settlements = sts })) n
unfolding finish_hold held_under spent_under sum_costs
charged-Covers s now r row sts n v f p run cost c =
    let ids = subtree s.runs n.id in
    let before = sum_amounts (held_in ids) s.reservations in
    let after =
      sum_amounts (held_in ids)
        (update (λ o. str_eq o.id r.id) (resolve_to settled now) s.reservations) in
    let spent = sum_costs (charged_in ids) s.ledger in
    rw p (
      ground (
        arith,
        run,
        sum_amounts-resolve ids (λ o. str_eq o.id r.id) settled now s.reservations refl v.amounts,
        sum_amounts-resolve_one ids r.id settled now r s.reservations refl v.amounts f p,
        +ℤ_parts spent before,
        +ℤ_parts spent after,
        +ℤ_parts after r.amount,
        +ℤ_parts row.cost spent,
        +ℤ_parts (row.cost +ℤ spent) after,
      ))

charged-IsValid :
    (s : Db) (now : ℕ) (r : Reservation) (row : Entry) (sts : List Settlement)
    → IsValid s
    → is_some (find_run row.run_id s.runs) ≡ true
    → is_pending r.status ≡ true
    → IsValid (finish_hold now r (record s { ledger = row ∷ s.ledger; settlements = sts }))
unfolding finish_hold
charged-IsValid s now r row sts v f p =
    let rows =
      All-resolve (λ o. str_eq o.id r.id) settled now s.reservations s.runs v.held v.amounts in
    rw p (record { rooted = v.rooted; charged = (f, v.charged); held = rows.0; amounts = rows.1 })

finish_hold-runs : (now : ℕ) (r : Reservation) (s : Db) → (finish_hold now r s).runs ≡ s.runs
unfolding finish_hold
finish_hold-runs now r s = ground arith

settle_first-IsSolvent :
    (p : Platform) (now : ℕ) (r : Reservation) (e o : Entry) (s s' : Db)
    → settle_first p now r e s ≡ ok (o, s')
    → find_reservation r.id s.reservations ≡ some r
    → is_pending r.status ≡ true
    → e.cost ≤ℤ r.amount
    → IsSolvent s
    → IsSolvent s'
settle_first-IsSolvent p now r e o s s' h f q c (v, within) =
    let (row, st, same, run, cost, found) = settle_first_inv p now r e o s s' h in
    let charged = record s { ledger = row ∷ s.ledger; settlements = st ∷ s.settlements } in
    subst IsSolvent (sym same) (
      charged-IsValid s now r row (st ∷ s.settlements) v (rw run found) q,
      λ i n g.
          charged-Covers s now r row (st ∷ s.settlements) n v f q run (rw cost c)
            (within i n (ap (find_run i) (sym (finish_hold-runs now r charged)) ∙ g)),
    )

pub find_reservation-id :
    (i : Bytes) (r : Reservation) (rs : List Reservation)
    → find_reservation i rs ≡ some r
    → r.id ≡ i
unfolding find_reservation
find_reservation-id i r [] h = cc
find_reservation-id i r (o ∷ rs) h = ground (arith, find_reservation-id i r rs, str_eq_iff o.id i)

-- The charge `e` of the hold `i` is already recorded, or the hold is pending and covers it.
abbrev pub IsCovered : Db → Bytes → Entry → Type 0
IsCovered s i e =
    (is_some (find_settlement i s.settlements) ≡ true)
    ⊎ ((r : Reservation) × (find_reservation i s.reservations ≡ some r)
        × (is_pending r.status ≡ true)
        × (e.cost ≤ℤ r.amount))

-- A settlement returns a recorded charge and changes nothing, or is the first of its hold.
pub settle_reservation-cases :
    (p : Platform) (now : ℕ) (i : Bytes) (e o : Entry) (s s' : Db)
    → settle_reservation p now i e s ≡ ok (o, s')
    → ((is_some (find_settlement i s.settlements) ≡ true) × (s' ≡ s))
      ⊎ ((r : Reservation) × (find_settlement i s.settlements ≡ none)
          × (find_reservation i s.reservations ≡ some r)
          × (settle_first p now r e s ≡ ok (o, s')))
unfolding settle_reservation
settle_reservation-cases p now i e o s s' h =
    elim (Option-cases (find_settlement i s.settlements)) [
      | inr (st, known) ↦ inl (
        ground arith,
        elim (Option-cases (find_entry st.ledger_seq s.ledger)) [
          | inl missing ↦ absurd (ground arith)
          | inr (x, there) ↦ ground arith
        ],
      )
      | inl first ↦ inr (elim (Option-cases (find_reservation i s.reservations)) [
        | inl missing ↦ absurd (ground arith)
        | inr (r, there) ↦ (r, first, there, ground arith)
      ])
    ]

-- A SettleReservation that succeeds keeps the invariant of the store, provided that the charge is
-- already recorded for its hold, or that the hold is pending and its amount is at least the cost
-- that is charged.
pub settle_reservation-IsSolvent :
    (p : Platform) (now : ℕ) (i : Bytes) (e o : Entry) (s s' : Db)
    → settle_reservation p now i e s ≡ ok (o, s')
    → IsCovered s i e
    → IsSolvent s
    → IsSolvent s'
settle_reservation-IsSolvent p now i e o s s' h c v =
    elim (settle_reservation-cases p now i e o s s' h) [
      | inl (known, same) ↦ subst IsSolvent (sym same) v
      | inr (r, first, found, done) ↦ elim c [
        | inl known ↦ absurd (ground arith)
        | inr (r', found', open', fits) ↦
            let eq : r' ≡ r = ground arith in
            settle_first-IsSolvent p now r e o s s' done
              (subst (λ j. find_reservation j s.reservations ≡ some r)
                (sym (find_reservation-id i r s.reservations found)) found)
              (subst (λ x. is_pending x.status ≡ true) eq open')
              (subst (λ x. e.cost ≤ℤ x.amount) eq fits) v
      ]
    ]
