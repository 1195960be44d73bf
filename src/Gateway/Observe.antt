-- ===== src/Gateway/Observe.antt =====
-- observe.go: the reader around a response's body, which reads usage out of what passes.
pub mod Passing
pub mod Filtering
use spendlease.Base.{
  ℕ, zero, suc, ◌+◌, ◌≡◌, refl, Bool, true, false, not, ◌&&◌, ◌||◌, List, [], ◌∷◌, ◌++◌, Option,
  none, some, Bytes, codes, str_eq, starts_with, ltb, ◌==◌, if◌then◌else◌, length, is_some,
}
use spendlease.Money.{trim_space, trim_end}
use spendlease.Store.{is_empty}
use spendlease.Gateway.Record.{drop_bytes}

-- 1 MiB
abbrev pub max_observed_body : ℕ
max_observed_body = 1048576

abbrev pub sse_prefix : Bytes
sse_prefix = codes "data:"

abbrev pub event_separator : Bytes
event_separator = 10 ∷ 10 ∷ []

-- The reader. What the callbacks are called with is kept, oldest first: `events` for onEvent, `bodies`
-- for onBody, and `done` for onDone, which the Once guards. `sent` is what the client is given.
pub record Reader : Type 0 where
  pub streaming : Bool
  pub pending : Bytes
  pub body : Bytes
  pub truncated : Bool
  pub overflow : Bool
  pub saw_eof : Bool
  pub events : List Bytes
  pub bodies : List Bytes
  pub done : Option Bool
  pub sent : Bytes

-- `newObservingReader`
abbrev pub new_reader : Bool → Reader
new_reader streaming = record {
  streaming = streaming;
  pending = [];
  body = [];
  truncated = false;
  overflow = false;
  saw_eof = false;
  events = [];
  bodies = [];
  done = none;
  sent = [];
}

-- What one read of the wrapped body gives: bytes, bytes and the end, or bytes and another error.
pub data SourceRead : Type 0 where
  got at_end broke : Bytes → SourceRead

abbrev pub bytes_of : SourceRead → Bytes
bytes_of (got b) = b
bytes_of (at_end b) = b
bytes_of (broke b) = b

-- `strings.TrimRight(line, "\r")`
abbrev pub trim_cr : Bytes → Bytes
trim_cr line = trim_end (λ c. c == 13) line

-- `handleLine`: the payloads that are reported.
unfoldable pub handle_line : Bytes → List Bytes
unfolding drop_bytes
handle_line line =
    let payload = trim_space (drop_bytes sse_prefix line) in
    if not (starts_with sse_prefix line)
    then []
    else if is_empty payload || str_eq payload (codes "[DONE]")
    then []
    else payload ∷ []

-- The lines that a newline ends, and what is behind the last of them.
unfoldable pub split_lines : Bytes → List Bytes × Bytes
split_lines [] = ([], [])
split_lines (c ∷ s) =
    let (lines, rest) = split_lines s in
    if c == 10
    then ([] ∷ lines, rest)
    else elim lines [ [] ↦ ([], c ∷ rest) | l ∷ ls ↦ ((c ∷ l) ∷ ls, rest) ]

unfoldable pub handle_lines : List Bytes → List Bytes
unfolding handle_line
handle_lines [] = []
handle_lines (l ∷ ls) = handle_line (trim_cr l) ++ handle_lines ls

-- The guard of `scanEvents` against a stream without newlines.
abbrev pub guarded : Reader → Reader
guarded o =
    if ltb max_observed_body (length o.pending)
    then record o { pending = []; truncated = true }
    else o

unfoldable pub scan_events : Bytes → Reader → Reader
unfolding split_lines handle_lines
scan_events b o =
    let o' = guarded o in
    let (lines, rest) = split_lines (o'.pending ++ b) in
    record o' { pending = rest; events = o'.events ++ handle_lines lines }

unfoldable pub accumulate : Bytes → Reader → Reader
accumulate b o =
    if o.overflow
    then o
    else if ltb max_observed_body (length o.body + length b)
    then record o { overflow = true; truncated = true; body = [] }
    else record o { body = o.body ++ b }

unfoldable pub observe_bytes : Bytes → Reader → Reader
unfolding scan_events accumulate
observe_bytes b o = if o.streaming then scan_events b o else accumulate b o

unfoldable pub flush : Reader → Reader
unfolding handle_line
flush o =
    let line = trim_end (λ c. c == 13 || c == 10) o.pending in
    if o.streaming
    then record o {
      pending = [];
      events = if is_empty line then o.events else o.events ++ handle_line line;
    }
    else if o.truncated
    then o
    else record o { bodies = o.bodies ++ (o.body ∷ []) }

-- `finish`, once.
unfoldable pub finish_once : Bool → Reader → Reader
finish_once complete o = if is_some o.done then o else record o { done = some complete }

-- `Read`, where nothing is dropped.
unfoldable pub read : SourceRead → Reader → Reader
unfolding observe_bytes flush finish_once
read (got b) o = let o' = observe_bytes b o in record o' { sent = o.sent ++ b }
read (broke b) o = let o' = observe_bytes b o in record o' { sent = o.sent ++ b }
read (at_end b) o =
    let o' = flush (observe_bytes b o) in
    finish_once true (record o' { saw_eof = true; sent = o.sent ++ b })

unfoldable pub read_all : List SourceRead → Reader → Reader
unfolding read
read_all [] o = o
read_all (r ∷ rs) o = read_all rs (read r o)

-- `Close`. A read that ends the stream notes it in `saw_eof`, so the last error adds nothing.
unfoldable pub close : Reader → Reader
unfolding finish_once
close o = finish_once o.saw_eof o

-- `bytes.Split(block, "\n")`
unfoldable pub pieces : Bytes → List Bytes
unfolding split_lines
pieces s = let (lines, rest) = split_lines s in lines ++ (rest ∷ [])

unfoldable pub first_payload : List Bytes → Option Bytes
unfolding drop_bytes
first_payload [] = none
first_payload (l ∷ ls) =
    let later = first_payload ls in
    let payload = trim_space (drop_bytes sse_prefix (trim_cr l)) in
    if starts_with sse_prefix (trim_cr l) && not (is_empty payload) then some payload else later

unfoldable pub event_payload : Bytes → Option Bytes
unfolding pieces first_payload
event_payload block = first_payload (pieces block)

-- What one block adds: an event for its payload, and the block itself unless it is dropped.
unfoldable pub block_events : Bytes → List Bytes
unfolding event_payload handle_line
block_events block = elim (event_payload block) [
  | none ↦ []
  | some payload ↦ handle_line (sse_prefix ++ payload)
]

unfoldable pub is_dropped : (Bytes → Bool) → Bytes → Bool
unfolding event_payload
is_dropped drop block = elim (event_payload block) [ none ↦ false | some payload ↦ drop payload ]

unfoldable pub pass_block : (Bytes → Bool) → Bytes → Reader → Reader
unfolding block_events is_dropped
pass_block drop block o = record o {
  events = o.events ++ block_events block;
  sent = if is_dropped drop block then o.sent else o.sent ++ block;
}

-- The first block with its separator, and what is behind it.
unfoldable pub cut_block : Bytes → Option (Bytes × Bytes)
cut_block [] = none
cut_block (c ∷ s) =
    let rest = cut_block s in
    if starts_with event_separator (c ∷ s)
    then some (event_separator, drop_bytes event_separator (c ∷ s))
    else elim rest [ none ↦ none | some (block, after) ↦ some (c ∷ block, after) ]

-- The loop of `consumeEvents`, on fuel: each round takes bytes off `pending`.
unfoldable pub consume_blocks : ℕ → (Bytes → Bool) → Reader → Reader
unfolding cut_block pass_block
consume_blocks zero drop o = o
consume_blocks (suc n) drop o = elim (cut_block o.pending) [
  | none ↦ o
  | some (block, after) ↦
      consume_blocks n drop (pass_block drop block (record o { pending = after }))
]

unfoldable pub consume_events : (Bytes → Bool) → Bytes → Reader → Reader
unfolding consume_blocks
consume_events drop b o =
    let buffered = record o { pending = o.pending ++ b } in
    consume_blocks (length buffered.pending) drop buffered

unfoldable pub flush_remainder : (Bytes → Bool) → Reader → Reader
unfolding pass_block
flush_remainder drop o =
    if is_empty o.pending then o else pass_block drop o.pending (record o { pending = [] })

-- `readFiltered`: one read of the source; `sent` is what has been put into the buffer for the client,
-- and the end is reported when that buffer is empty.
unfoldable pub read_filtered : (Bytes → Bool) → SourceRead → Reader → Reader
unfolding consume_events flush_remainder finish_once
read_filtered drop (got b) o = consume_events drop b o
read_filtered drop (broke b) o = flush_remainder drop (consume_events drop b o)
read_filtered drop (at_end b) o =
    let o' = flush_remainder drop (consume_events drop b o) in
    finish_once true (record o' { saw_eof = true })

unfoldable pub filter_all : (Bytes → Bool) → List SourceRead → Reader → Reader
unfolding read_filtered
filter_all drop [] o = o
filter_all drop (r ∷ rs) o = filter_all drop rs (read_filtered drop r o)
