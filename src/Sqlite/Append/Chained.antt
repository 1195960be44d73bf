-- ===== src/Sqlite/Append/Chained.antt =====
-- The ledger table as a chain: every append adds the next number and the next link, so VerifyChain
-- accepts what the store reads back.
use spendlease.Base.{
  ℕ, suc, ◌+◌, ◌≡◌, refl, sym, ◌∙◌, ap, true, List, [], ◌∷◌, ◌++◌, Option, none, some, arith, Bytes,
  leb, length, keep, All, ◌<◌,
}
use spendlease.Base.Int.{ℤ, pos}
use spendlease.Billing.{
  Usage, normalized, token_usage, input_unit, cached_input_unit, cache_write_5m_unit,
  cache_write_1h_unit, output_unit,
}
use spendlease.Ledger.{
  Platform, Entry, seal, compute_hash, hashed_fields, itemized_usage, version_of,
  hash_version_usage, verify_chain, frames,
}
use spendlease.Ledger.Chain.{IsLinked, head_of, oldest_first, verify_chain-IsLinked}
use spendlease.Store.{ok}
use spendlease.Sqlite.Tables.{Db}
use spendlease.Sqlite.Append.{
  ledger_head, head_seq, head_hash, place, append_ledger, LedgerFilter, matches, insert_by_seq,
  sort_by_seq, ledger_entries,
}
use spendlease.Sqlite.Append.Rows.{append_ledger_inv, insert_entry_inv, seal_keeps}

-- The rows are numbered from one without a gap, the newest first.
abbrev pub IsNumbered : List Entry → Type 0
IsNumbered [] = Unit
IsNumbered (e ∷ es) = (e.seq ≡ suc (length es)) × IsNumbered es

abbrev first_row : List Entry → Option Entry
first_row [] = none
first_row (e ∷ es) = some e

-- In a numbered table the newest row is the head.
pub ledger_head_lem : (es : List Entry) → IsNumbered es → ledger_head es ≡ first_row es
unfolding ledger_head
ledger_head_lem [] n = refl
ledger_head_lem (e ∷ []) n = refl
ledger_head_lem (e ∷ f ∷ es) n = ground (arith, ledger_head_lem (f ∷ es) n.1)

normalized_idem : (u : Usage) → normalized (normalized u) ≡ normalized u
unfolding normalized
normalized_idem [] = refl
normalized_idem (q ∷ u) = ground (arith, normalized_idem u)

normalized-token_usage :
    (a b c d e : ℤ) → normalized (token_usage a b c d e) ≡ token_usage a b c d e
unfolding token_usage
normalized-token_usage a b c d e = normalized_idem (
    (input_unit, a)
    ∷ (cached_input_unit, b)
    ∷ (cache_write_5m_unit, c)
    ∷ (cache_write_1h_unit, d)
    ∷ (output_unit, e)
    ∷ [])

normalized-itemized : (e : Entry) → normalized (itemized_usage e) ≡ itemized_usage e
unfolding itemized_usage
normalized-itemized e = ground (
  arith,
  normalized_idem e.usage,
  normalized-token_usage e.input_tokens (pos 0) (pos 0) (pos 0) e.output_tokens,
)

-- The row as it is stored: the usage that is read back is the itemized one.
abbrev pub stored : Entry → Entry
stored e = record e { usage = itemized_usage e }

itemized-stored :
    (e : Entry) → normalized e.usage ≡ e.usage → itemized_usage (stored e) ≡ itemized_usage e
unfolding itemized_usage
itemized-stored e h =
    ground (arith, normalized-token_usage e.input_tokens (pos 0) (pos 0) (pos 0) e.output_tokens)

-- Sealing normalises the usage of an entry that hashes it.
seal-normalized :
    (p : Platform) (e : Entry) (prev : Bytes)
    → leb hash_version_usage (version_of (seal p e prev)) ≡ true
    → normalized (seal p e prev).usage ≡ (seal p e prev).usage
unfolding seal version_of
seal-normalized p e prev h =
    ground (arith, normalized-itemized e, normalized-itemized (record e { hash_version = 2 }))

seal-hash :
    (p : Platform) (e : Entry) (prev : Bytes)
    → (seal p e prev).hash ≡ compute_hash p (seal p e prev) prev
unfolding seal compute_hash hashed_fields itemized_usage
seal-hash p e prev = refl

hashed_fields-stored :
    (p : Platform) (e : Entry) (prev : Bytes)
    → (leb hash_version_usage (version_of e) ≡ true → normalized e.usage ≡ e.usage)
    → hashed_fields p (stored e) prev ≡ hashed_fields p e prev
unfolding hashed_fields
hashed_fields-stored p e prev h = ground (arith, itemized-stored e)

-- The stored row still has the hash that it was sealed with.
compute_hash-stored :
    (p : Platform) (e : Entry) (prev : Bytes)
    → (seal p e prev).hash ≡ compute_hash p (stored (seal p e prev)) prev
unfolding compute_hash
compute_hash-stored p e prev =
    seal-hash p e prev
    ∙ ap (λ fields. p.digest (frames fields))
        (sym (hashed_fields-stored p (seal p e prev) prev (seal-normalized p e prev)))

-- The ledger table is a chain, numbered without a gap.
abbrev pub IsChained : Platform → List Entry → Type 0
IsChained p es = IsNumbered es × IsLinked p es

head_of-ledger_head : (es : List Entry) → IsNumbered es → head_hash (ledger_head es) ≡ head_of es
head_of-ledger_head [] n = unfold head_hash ledger_head head_of in refl
head_of-ledger_head (e ∷ es) n = rw (ledger_head_lem (e ∷ es) n) (unfold head_hash head_of in refl)

head_seq-ledger_head :
    (es : List Entry) → IsNumbered es → head_seq (ledger_head es) + 1 ≡ suc (length es)
head_seq-ledger_head [] n = unfold ledger_head in omega arith
head_seq-ledger_head (e ∷ es) n = rw (ledger_head_lem (e ∷ es) n) (omega arith)

place-seq :
    (now : ℕ) (s : Db) (e : Entry) → (place now s e).seq ≡ head_seq (ledger_head s.ledger) + 1
unfolding place
place-seq now s e = refl

stored-IsChained :
    (p : Platform) (now : ℕ) (e : Entry) (s : Db)
    → IsChained p s.ledger
    → IsChained p (stored (seal p (place now s e) (head_hash (ledger_head s.ledger))) ∷ s.ledger)
stored-IsChained p now e s (n, l) =
    let prev = head_hash (ledger_head s.ledger) in
    let kept = seal_keeps p (place now s e) prev in
    (
      (kept.2 ∙ place-seq now s e ∙ head_seq-ledger_head s.ledger n, n),
      (
        kept.3 ∙ head_of-ledger_head s.ledger n,
        compute_hash-stored p (place now s e) prev
            ∙ ap (compute_hash p (stored (seal p (place now s e) prev))) (sym kept.3),
        l,
      ),
    )

-- If the ledger table is numbered from one without a gap and each row names the hash of the row
-- before it and bears its own, so is the table after an append that succeeds: the new row, as it
-- is stored with its itemized usage, has the next number and the next link.
pub append_ledger-IsChained :
    (p : Platform) (now : ℕ) (e o : Entry) (s s' : Db)
    → append_ledger p now e s ≡ ok (o, s')
    → IsChained p s.ledger
    → IsChained p s'.ledger
append_ledger-IsChained p now e o s s' h c =
    let (sealed, inserted) = append_ledger_inv p now e o s s' h in
    let (same, _, _) = insert_entry_inv o s s' inserted in
    rw (same, sealed) (stored-IsChained p now e s c)

-- Reading back in sequence order gives the rows oldest first.
insert_by_seq-last :
    (e : Entry) (rows : List Entry)
    → All (λ o. o.seq < e.seq) rows
    → insert_by_seq e rows ≡ rows ++ (e ∷ [])
unfolding insert_by_seq
insert_by_seq-last e [] h = refl
insert_by_seq-last e (o ∷ rows) h = ground (arith, insert_by_seq-last e rows h.1)

All-append :
    (n : ℕ) (xs ys : List Entry)
    → All (λ o. o.seq < n) xs
    → All (λ o. o.seq < n) ys
    → All (λ o. o.seq < n) (xs ++ ys)
All-append n [] ys h k = k
All-append n (x ∷ xs) ys h k = (h.0, All-append n xs ys h.1 k)

numbered_below :
    (n : ℕ) (es : List Entry)
    → IsNumbered es
    → length es < n
    → All (λ o. o.seq < n) (oldest_first es)
unfolding oldest_first
numbered_below n [] k h = tt
numbered_below n (e ∷ es) k h =
    All-append n (oldest_first es) (e ∷ []) (numbered_below n es k.1 (omega arith))
      (omega arith, tt)

sort_by_seq-numbered : (es : List Entry) → IsNumbered es → sort_by_seq es ≡ oldest_first es
unfolding sort_by_seq oldest_first
sort_by_seq-numbered [] n = refl
sort_by_seq-numbered (e ∷ es) n =
    rw (sort_by_seq-numbered es n.1)
      (insert_by_seq-last e (oldest_first es) (numbered_below e.seq es n.1 (omega arith)))

abbrev pub no_filter : LedgerFilter
no_filter = record { run_id = []; principal_id = []; since = 0; limit = 0 }

keep-no_filter :
    (format_time : ℕ → Bytes) (es : List Entry) → keep (matches format_time no_filter) es ≡ es
unfolding matches
keep-no_filter format_time [] = refl
keep-no_filter format_time (e ∷ es) = ap (λ rest. e ∷ rest) (keep-no_filter format_time es)

pub ledger_entries-oldest_first :
    (format_time : ℕ → Bytes) (s : Db)
    → IsNumbered s.ledger
    → ledger_entries format_time no_filter s ≡ oldest_first s.ledger
unfolding ledger_entries
ledger_entries-oldest_first format_time s n =
    ap sort_by_seq (keep-no_filter format_time s.ledger) ∙ sort_by_seq-numbered s.ledger n

-- If the ledger table is numbered from one without a gap and linked, VerifyChain accepts what
-- LedgerEntries reads back without a filter.
pub ledger_entries-verify :
    (p : Platform) (s : Db)
    → IsChained p s.ledger
    → verify_chain p (ledger_entries p.format_time no_filter s) ≡ none
ledger_entries-verify p s (n, l) =
    ap (verify_chain p) (ledger_entries-oldest_first p.format_time s n)
    ∙ (verify_chain-IsLinked p s.ledger).1 l
