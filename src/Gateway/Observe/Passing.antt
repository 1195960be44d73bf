-- ===== src/Gateway/Observe/Passing.antt =====
-- observe.go: what passes through the reader unchanged, and what it reads out of it.
use mathlib.Core.List.{append_assoc}
use mathlib.Core.Path.{subst}
use spendlease.Base.{
  append_nil, joined, suc, ◌+◌, ◌≤◌, ◌≡◌, refl, sym, ap, ◌∙◌, ◌⊎◌, inl, inr, Bool, true, false,
  ◌||◌, List, [], ◌∷◌, ◌++◌, none, some, Bytes, ltb, ◌==◌, if◌then◌else◌, length, length-append,
  any, arith, Bool-cases,
}
use spendlease.Money.{trim_end}
use spendlease.Store.{is_empty}
use spendlease.Gateway.Observe.{
  Reader, new_reader, SourceRead, got, at_end, broke, bytes_of, read, read_all, close, scan_events,
  accumulate, observe_bytes, flush, finish_once, split_lines, handle_line, handle_lines,
  max_observed_body, trim_cr,
}

-- All bytes of the reads, in order.
abbrev pub all_bytes : List SourceRead → Bytes
all_bytes [] = []
all_bytes (r ∷ rs) = bytes_of r ++ all_bytes rs

read-sent : (r : SourceRead) (o : Reader) → (read r o).sent ≡ o.sent ++ bytes_of r
unfolding read finish_once
read-sent (got b) o = refl
read-sent (broke b) o = refl
read-sent (at_end b) o = ground arith

-- Where nothing is dropped, the client is given exactly the bytes that the upstream body gives,
-- in their order, however the reads cut them and whether they end with an error.
pub read_all-sent :
    (rs : List SourceRead) (o : Reader) → (read_all rs o).sent ≡ o.sent ++ all_bytes rs
unfolding read_all
read_all-sent [] o = sym (append_nil o.sent)
read_all-sent (r ∷ rs) o =
    read_all-sent rs (read r o)
    ∙ (ap (λ x. x ++ all_bytes rs) (read-sent r o)
        ∙ append_assoc o.sent (bytes_of r) (all_bytes rs))

split_lines-append :
    (a b : Bytes)
    → split_lines (a ++ b) ≡ (
      (split_lines a).0 ++ (split_lines ((split_lines a).1 ++ b)).0,
      (split_lines ((split_lines a).1 ++ b)).1,
    )
unfolding split_lines
split_lines-append [] b = refl
split_lines-append (c ∷ a) b = ground (arith, split_lines-append a b)

handle_lines-append : (a b : List Bytes) → handle_lines (a ++ b) ≡ handle_lines a ++ handle_lines b
unfolding handle_lines
handle_lines-append [] b = refl
handle_lines-append (l ∷ a) b =
    ap (λ x. handle_line (trim_cr l) ++ x) (handle_lines-append a b)
    ∙ sym (append_assoc (handle_line (trim_cr l)) (handle_lines a) (handle_lines b))

-- The reader has read `seen` of a stream.
abbrev IsScanned : Bytes → Reader → Type 0
IsScanned seen o =
    (o.streaming ≡ true)
    × (o.pending ≡ (split_lines seen).1)
    × (o.events ≡ handle_lines (split_lines seen).0)

scan_events_short :
    (b : Bytes) (o : Reader)
    → length o.pending ≤ max_observed_body
    → scan_events b o ≡ record o {
      pending = (split_lines (o.pending ++ b)).1;
      events = o.events ++ handle_lines (split_lines (o.pending ++ b)).0;
    }
unfolding scan_events
scan_events_short b o short = ground arith

scan_events-IsScanned :
    (seen b : Bytes) (o : Reader)
    → length (split_lines seen).1 ≤ max_observed_body
    → IsScanned seen o
    → IsScanned (seen ++ b) (scan_events b o)
scan_events-IsScanned seen b o short (streams, held, told) =
    let scanned =
      scan_events_short b o (subst (λ x. length x ≤ max_observed_body) (sym held) short) in
    let tail = ap (λ x. split_lines (x ++ b)) held in
    let whole = split_lines-append seen b in
    (
      ap (λ r. r.streaming) scanned ∙ streams,
      ap (λ r. r.pending) scanned ∙ (ap (λ x. x.1) tail ∙ sym (ap (λ x. x.1) whole)),
      ap (λ r. r.events) scanned
          ∙ (ap (λ x. x ++ handle_lines (split_lines (o.pending ++ b)).0) told
              ∙ (ap (λ x. handle_lines (split_lines seen).0 ++ handle_lines x.0) tail
                  ∙ (sym (
                        handle_lines-append (split_lines seen).0
                          (split_lines ((split_lines seen).1 ++ b)).0)
                      ∙ sym (ap (λ x. handle_lines x.0) whole)))),
    )

read-got-IsScanned :
    (seen b : Bytes) (o : Reader)
    → length (split_lines seen).1 ≤ max_observed_body
    → IsScanned seen o
    → IsScanned (seen ++ b) (read (got b) o)
unfolding read observe_bytes
read-got-IsScanned seen b o short v =
    let next = scan_events-IsScanned seen b o short v in ground (arith, next, v.0)

-- The chunks as reads before the end.
abbrev pub all_got : List Bytes → List SourceRead
all_got [] = []
all_got (b ∷ bs) = got b ∷ all_got bs

-- Before each chunk, the line that is not ended yet fits the cap.
abbrev pub IsShort : Bytes → List Bytes → Type 0
IsShort seen [] = Unit
IsShort seen (b ∷ bs) = (length (split_lines seen).1 ≤ max_observed_body) × IsShort (seen ++ b) bs

read_all-IsScanned :
    (seen : Bytes) (bs : List Bytes) (o : Reader)
    → IsShort seen bs
    → IsScanned seen o
    → IsScanned (seen ++ joined bs) (read_all (all_got bs) o)
unfolding read_all
read_all-IsScanned seen [] o short v = subst (λ x. IsScanned x o) (sym (append_nil seen)) v
read_all-IsScanned seen (b ∷ bs) o short v =
    subst (λ x. IsScanned x (read_all (all_got bs) (read (got b) o)))
      (append_assoc seen b (joined bs))
      (read_all-IsScanned (seen ++ b) bs (read (got b) o) short.1
        (read-got-IsScanned seen b o short.0 v))

-- The events of a whole stream, its last line included.
unfoldable pub stream_events : Bytes → List Bytes
stream_events s =
    let (lines, rest) = split_lines s in
    let line = trim_end (λ c. c == 13 || c == 10) rest in
    if is_empty line then handle_lines lines else handle_lines lines ++ handle_line line

at_end-events :
    (seen b : Bytes) (o : Reader)
    → length (split_lines seen).1 ≤ max_observed_body
    → IsScanned seen o
    → (read (at_end b) o).events ≡ stream_events (seen ++ b)
unfolding read observe_bytes flush finish_once stream_events
at_end-events seen b o short v =
    let (streams, held, told) = scan_events-IsScanned seen b o short v in
    ground (arith, streams, held, told, v.0)

-- The events that are reported for a stream that is read to its end are those of its concatenated
-- bytes, split at newlines: where the reads cut the stream does not matter, provided that no line
-- that is unfinished after a read but the last is longer than the cap of one MiB.
pub read_all-stream_events :
    (bs : List Bytes) (b : Bytes)
    → IsShort [] bs
    → length (split_lines (joined bs)).1 ≤ max_observed_body
    → (read (at_end b) (read_all (all_got bs) (new_reader true))).events
      ≡ stream_events (joined bs ++ b)
unfolding split_lines handle_lines
read_all-stream_events bs b short last =
    at_end-events (joined bs) b (read_all (all_got bs) (new_reader true)) last
      (read_all-IsScanned [] bs (new_reader true) short (refl, refl, refl))

-- A response that is not streamed has been kept whole, or has outgrown the cap.
abbrev IsGathered : Bytes → Reader → Type 0
IsGathered seen o =
    (o.streaming ≡ false)
    × (o.bodies ≡ [])
    × (((o.overflow ≡ false)
          × (o.truncated ≡ false)
          × (o.body ≡ seen)
          × (length seen ≤ max_observed_body))
        ⊎ ((o.overflow ≡ true) × (o.truncated ≡ true) × (suc max_observed_body ≤ length seen)))

accumulate-IsGathered :
    (seen b : Bytes) (o : Reader) → IsGathered seen o → IsGathered (seen ++ b) (accumulate b o)
unfolding accumulate
accumulate-IsGathered seen b o (streams, told, inl (flows, whole, held, fits)) =
    let size = length-append seen b in
    let kept = ap length held in
    elim (Bool-cases (ltb max_observed_body (length o.body + length b))) [
      | inl over ↦
          (ground arith, ground arith, inr (ground arith, ground arith, ground (arith, size, kept)))
      | inr under ↦ (
        ground arith,
        ground arith,
        inl (ground arith, ground arith, ground arith, ground (arith, size, kept)),
      )
    ]
accumulate-IsGathered seen b o (streams, told, inr (flows, cut, long)) = (
  ground arith,
  ground arith,
  inr (ground arith, ground arith, ground (arith, length-append seen b)),
)

read-got-IsGathered :
    (seen b : Bytes) (o : Reader) → IsGathered seen o → IsGathered (seen ++ b) (read (got b) o)
unfolding read observe_bytes
read-got-IsGathered seen b o v =
    let same : read (got b) o ≡ record (accumulate b o) { sent = o.sent ++ b } =
      ground (arith, v.0) in
    subst (IsGathered (seen ++ b)) (sym same) (accumulate-IsGathered seen b o v)

read_all-IsGathered :
    (seen : Bytes) (bs : List Bytes) (o : Reader)
    → IsGathered seen o
    → IsGathered (seen ++ joined bs) (read_all (all_got bs) o)
unfolding read_all
read_all-IsGathered seen [] o v = subst (λ x. IsGathered x o) (sym (append_nil seen)) v
read_all-IsGathered seen (b ∷ bs) o v =
    subst (λ x. IsGathered x (read_all (all_got bs) (read (got b) o)))
      (append_assoc seen b (joined bs))
      (read_all-IsGathered (seen ++ b) bs (read (got b) o) (read-got-IsGathered seen b o v))

at_end-bodies :
    (seen b : Bytes) (o : Reader)
    → IsGathered seen o
    → (read (at_end b) o).bodies
      ≡ (if ltb max_observed_body (length (seen ++ b)) then [] else (seen ++ b) ∷ [])
unfolding read observe_bytes flush finish_once
at_end-bodies seen b o v =
    let (streams, told, gathered) = accumulate-IsGathered seen b o v in
    elim gathered [
      | inl (flows, whole, held, fits) ↦ ground (arith, v.0)
      | inr (flows, cut, long) ↦ ground (arith, v.0)
    ]

-- When a response that is not streamed has been read to its end, onBody has been called once with
-- the whole body, or never if the body is longer than the cap of one MiB, however the reads cut
-- it.
pub read_all-bodies :
    (bs : List Bytes) (b : Bytes)
    → let whole = joined bs ++ b in
      (read (at_end b) (read_all (all_got bs) (new_reader false))).bodies
      ≡ (if ltb max_observed_body (length whole) then [] else whole ∷ [])
read_all-bodies bs b =
    at_end-bodies (joined bs) b (read_all (all_got bs) (new_reader false)) (
      read_all-IsGathered [] bs (new_reader false)
        (refl, refl, inl (refl, refl, refl, omega arith)))

abbrev pub ends : SourceRead → Bool
ends (got _) = false
ends (broke _) = false
ends (at_end _) = true

-- onDone has been called exactly if the end was seen, and then with true.
abbrev IsTold : Reader → Type 0
IsTold o = o.done ≡ (if o.saw_eof then some true else none)

observe_bytes_flags :
    (b : Bytes) (o : Reader)
    → ((observe_bytes b o).done ≡ o.done) × ((observe_bytes b o).saw_eof ≡ o.saw_eof)
unfolding observe_bytes scan_events accumulate
observe_bytes_flags b o = (ground arith, ground arith)

flush_flags : (o : Reader) → (flush o).done ≡ o.done
unfolding flush
flush_flags o = ground arith

read-IsTold :
    (r : SourceRead) (o : Reader)
    → IsTold o
    → IsTold (read r o) × ((read r o).saw_eof ≡ o.saw_eof || ends r)
unfolding read finish_once
read-IsTold (got b) o t =
    (ground (arith, observe_bytes_flags b o), ground (arith, observe_bytes_flags b o))
read-IsTold (broke b) o t =
    (ground (arith, observe_bytes_flags b o), ground (arith, observe_bytes_flags b o))
read-IsTold (at_end b) o t = (
  ground (arith, observe_bytes_flags b o, flush_flags (observe_bytes b o)),
  ground (arith, observe_bytes_flags b o, flush_flags (observe_bytes b o)),
)

read_all-IsTold :
    (rs : List SourceRead) (o : Reader)
    → IsTold o
    → IsTold (read_all rs o) × ((read_all rs o).saw_eof ≡ o.saw_eof || any ends rs)
unfolding read_all
read_all-IsTold [] o t = (t, ground arith)
read_all-IsTold (r ∷ rs) o t =
    let (told, seen) = read-IsTold r o t in
    let (rest, all_seen) = read_all-IsTold rs (read r o) told in (rest, ground arith)

-- After any reads of a new reader and Close, onDone has been called, and it was told that the
-- response is complete exactly if some read has reached the end.
pub read_all-close :
    (rs : List SourceRead) (streaming : Bool)
    → (close (read_all rs (new_reader streaming))).done ≡ some (any ends rs)
unfolding close finish_once
read_all-close rs streaming =
    let (told, seen) = read_all-IsTold rs (new_reader streaming) refl in ground arith
