-- ===== src/Sqlite/Append.antt =====
-- Appending to the ledger: appendLedgerTx and the queries that read entries back.
pub mod Rows
pub mod Chained
use spendlease.Base.{
  ℕ, zero, suc, ◌+◌, ◌≡◌, refl, Bool, true, false, not, ◌&&◌, ◌||◌, List, [], ◌∷◌, Option, none,
  some, Bytes, str_eq, str_leb, leb, ◌==◌, if◌then◌else◌, any, keep, is_some,
}
use spendlease.Base.Int.{pos, ltb_ℤ}
use spendlease.Billing.{canonical_json}
use spendlease.Ledger.{Platform, Entry, genesis_hash, itemized_usage, seal, validate_entry}
use spendlease.Store.{Result, ok, err, ◌>>=◌, ◌>>◌, guard, is_empty, not_found, conflict, other}
use spendlease.Sqlite.Tables.{Db, find_run, find_principal}

-- ORDER BY seq DESC LIMIT 1
unfoldable pub ledger_head : List Entry → Option Entry
ledger_head [] = none
ledger_head (e ∷ es) = elim (ledger_head es) [
  | none ↦ some e
  | some h ↦ if leb h.seq e.seq then some e else some h
]

abbrev pub head_seq : Option Entry → ℕ
head_seq none = 0
head_seq (some h) = h.seq

unfoldable pub head_hash : Option Entry → Bytes
head_hash none = genesis_hash
head_hash (some h) = h.hash

abbrev hash_version_checked : Entry → Bool
hash_version_checked e = e.hash_version == 1 || e.hash_version == 2

-- INSERT INTO ledger, with the constraints of the table. The usage is stored as canonical JSON.
unfoldable pub insert_entry : Entry → Db → Result Db
unfolding find_principal itemized_usage
insert_entry e s = do
  guard (not (ltb_ℤ e.input_tokens (pos 0))) conflict
  guard (not (ltb_ℤ e.output_tokens (pos 0))) conflict
  guard (not (ltb_ℤ e.cost (pos 0))) conflict
  guard (hash_version_checked e) conflict
  guard (not (any (λ o. str_eq o.hash e.hash) s.ledger)) conflict
  guard (is_some (find_run e.run_id s.runs)) not_found
  guard (is_some (find_principal e.principal_id s.principals)) not_found
  ok (record s { ledger = record e { usage = itemized_usage e } ∷ s.ledger })

-- The entry with its creation time and its place in the chain, before it is sealed.
unfoldable pub place : ℕ → Db → Entry → Entry
place now s e = record e {
  created_at = if e.created_at == 0 then now else e.created_at;
  seq = head_seq (ledger_head s.ledger) + 1;
}

unfoldable pub append_ledger : Platform → ℕ → Entry → Db → Result (Entry × Db)
append_ledger p now e s = do
  guard (validate_entry (place now s e)) other
  let sealed = seal p (place now s e) (head_hash (ledger_head s.ledger))
  guard (is_some (canonical_json (itemized_usage sealed))) other
  s' ← insert_entry sealed s
  ok (sealed, s')

pub record LedgerFilter : Type 0 where
  pub run_id : Bytes
  pub principal_id : Bytes
  pub since : ℕ
  pub limit : ℕ

unfoldable pub matches : (ℕ → Bytes) → LedgerFilter → Entry → Bool
matches format_time f e =
    (is_empty f.run_id || str_eq e.run_id f.run_id)
    && (is_empty f.principal_id || str_eq e.principal_id f.principal_id)
    && (f.since == 0 || str_leb (format_time f.since) (format_time e.created_at))

insert_by_seq : Entry → List Entry → List Entry
insert_by_seq e [] = e ∷ []
insert_by_seq e (o ∷ es) = if leb e.seq o.seq then e ∷ o ∷ es else o ∷ insert_by_seq e es

-- ORDER BY seq
unfoldable pub sort_by_seq : List Entry → List Entry
unfolding insert_by_seq
sort_by_seq [] = []
sort_by_seq (e ∷ es) = insert_by_seq e (sort_by_seq es)

take_rows : ℕ → List Entry → List Entry
take_rows n [] = []
take_rows zero (e ∷ es) = []
take_rows (suc n) (e ∷ es) = e ∷ take_rows n es

unfoldable pub ledger_entries : (ℕ → Bytes) → LedgerFilter → Db → List Entry
unfolding matches sort_by_seq take_rows
ledger_entries format_time f s =
    let rows = sort_by_seq (keep (matches format_time f) s.ledger) in
    if f.limit == 0 then rows else take_rows f.limit rows
