-- ===== src/Gateway/Observe/Filtering.antt =====
-- observe.go: the filter of a stream is a choice among its blocks.
use mathlib.Core.List.{append_assoc}
use mathlib.Core.Path.{subst}
use spendlease.Base.{
  append_nil, joined, ℕ, zero, suc, ◌≤◌, ◌≡◌, refl, sym, ap, ◌∙◌, inl, inr, Bool, true, ◌||◌, List,
  [], ◌∷◌, ◌++◌, none, some, Bytes, if◌then◌else◌, length, length-append, All, arith, Bool-cases,
  Option-cases, starts_with,
}
use spendlease.Store.{is_empty}
use spendlease.Gateway.Record.{drop_bytes}
use spendlease.Gateway.Observe.{
  Reader, new_reader, at_end, read_filtered, filter_all, pass_block, cut_block, consume_blocks,
  consume_events, flush_remainder, block_events, is_dropped, event_separator, finish_once,
}
use spendlease.Gateway.Observe.Passing.{all_got}

starts_with-drop_bytes : (p s : Bytes) → starts_with p s ≡ true → p ++ drop_bytes p s ≡ s
unfolding starts_with drop_bytes
starts_with-drop_bytes [] s h = refl
starts_with-drop_bytes (x ∷ p) [] h = absurd (cc h)
starts_with-drop_bytes (x ∷ p) (c ∷ s) h = ground (arith, starts_with-drop_bytes p s)

cut_block-joins : (s block after : Bytes) → cut_block s ≡ some (block, after) → block ++ after ≡ s
unfolding cut_block
cut_block-joins [] block after h = absurd (cc h)
cut_block-joins (c ∷ s) block after h = elim (Bool-cases (starts_with event_separator (c ∷ s))) [
  | inl here ↦ ground (arith, starts_with-drop_bytes event_separator (c ∷ s) here)
  | inr later ↦ elim (Option-cases (cut_block s)) [
    | inl n ↦ absurd (ground arith)
    | inr ((p, q), n) ↦ let rest = cut_block-joins s p q n in ground arith
  ]
]

-- A block ends with a separator.
abbrev pub IsEnded : Bytes → Type 0
IsEnded block = (text : Bytes) × (block ≡ text ++ event_separator)

cut_block-IsEnded : (s block after : Bytes) → cut_block s ≡ some (block, after) → IsEnded block
unfolding cut_block
cut_block-IsEnded [] block after h = absurd (cc h)
cut_block-IsEnded (c ∷ s) block after h = elim (Bool-cases (starts_with event_separator (c ∷ s))) [
  | inl here ↦ ([], ground arith)
  | inr later ↦ elim (Option-cases (cut_block s)) [
    | inl n ↦ absurd (ground arith)
    | inr ((p, q), n) ↦ let (text, same) = cut_block-IsEnded s p q n in (c ∷ text, ground arith)
  ]
]

cut_block-shorter :
    (s block after : Bytes) → cut_block s ≡ some (block, after) → suc (length after) ≤ length s
cut_block-shorter s block after h =
    let (text, same) = cut_block-IsEnded s block after h in
    let size = ap length (cut_block-joins s block after h) in
    omega
      (arith, size, length-append block after, ap length same, length-append text event_separator)

All-append {ℓ} :
    {A : Type ℓ} (P : A → Type 0) (xs : List A) (x : A) → All P xs → P x → All P (xs ++ (x ∷ []))
All-append P [] x ps p = (p, tt)
All-append P (y ∷ xs) x ps p = (ps.0, All-append P xs x ps.1 p)

-- The events and the output of a list of blocks.
abbrev pub events_of_blocks : List Bytes → List Bytes
events_of_blocks [] = []
events_of_blocks (b ∷ bs) = block_events b ++ events_of_blocks bs

abbrev pub kept_of_blocks : (Bytes → Bool) → List Bytes → Bytes
kept_of_blocks drop [] = []
kept_of_blocks drop (b ∷ bs) =
    let rest = kept_of_blocks drop bs in if is_dropped drop b then rest else b ++ rest

-- The reader has taken `seen` apart into blocks and what is pending.
record IsParted (drop : Bytes → Bool) (seen : Bytes) (o : Reader) : Type 0 where
  blocks : List Bytes
  ended : All IsEnded blocks
  split : joined blocks ++ o.pending ≡ seen
  told : o.events ≡ events_of_blocks blocks
  kept : o.sent ≡ kept_of_blocks drop blocks

joined-append : (a : List Bytes) (b : Bytes) → joined (a ++ (b ∷ [])) ≡ joined a ++ b
joined-append [] b = append_nil b
joined-append (x ∷ a) b = ap (λ s. x ++ s) (joined-append a b) ∙ sym (append_assoc x (joined a) b)

events_of_blocks-append :
    (a : List Bytes) (b : Bytes)
    → events_of_blocks (a ++ (b ∷ [])) ≡ events_of_blocks a ++ block_events b
events_of_blocks-append [] b = append_nil (block_events b)
events_of_blocks-append (x ∷ a) b =
    ap (λ s. block_events x ++ s) (events_of_blocks-append a b)
    ∙ sym (append_assoc (block_events x) (events_of_blocks a) (block_events b))

kept_of_blocks-append :
    (drop : Bytes → Bool) (a : List Bytes) (b : Bytes)
    → kept_of_blocks drop (a ++ (b ∷ []))
      ≡ (if is_dropped drop b then kept_of_blocks drop a else kept_of_blocks drop a ++ b)
kept_of_blocks-append drop [] b = ground (arith, append_nil b)
kept_of_blocks-append drop (x ∷ a) b =
    ground (arith, kept_of_blocks-append drop a b, append_assoc x (kept_of_blocks drop a) b)

-- One block moves from what is pending to what is parted.
pass_block-IsParted :
    (drop : Bytes → Bool) (seen block after : Bytes) (o : Reader)
    → block ++ after ≡ o.pending
    → IsEnded block
    → IsParted drop seen o
    → IsParted drop seen (pass_block drop block (record o { pending = after }))
unfolding pass_block
pass_block-IsParted drop seen block after o h e v = record {
  blocks = v.blocks ++ (block ∷ []);
  ended = All-append IsEnded v.blocks block v.ended e;
  split =
      ap (λ x. x ++ after) (joined-append v.blocks block)
      ∙ (append_assoc (joined v.blocks) block after ∙ (ap (λ x. joined v.blocks ++ x) h ∙ v.split));
  told = ap (λ x. x ++ block_events block) v.told ∙ sym (events_of_blocks-append v.blocks block);
  kept =
      ap (λ x. if is_dropped drop block then x else x ++ block) v.kept
      ∙ sym (kept_of_blocks-append drop v.blocks block);
}

consume_blocks-IsParted :
    (n : ℕ) (drop : Bytes → Bool) (seen : Bytes) (o : Reader)
    → IsParted drop seen o
    → IsParted drop seen (consume_blocks n drop o)
unfolding consume_blocks
consume_blocks-IsParted zero drop seen o v = v
consume_blocks-IsParted (suc n) drop seen o v = elim (Option-cases (cut_block o.pending)) [
  | inl e ↦
      let same : consume_blocks (suc n) drop o ≡ o = ground arith in
      subst (IsParted drop seen) (sym same) v
  | inr ((block, after), e) ↦
      let passed = pass_block drop block (record o { pending = after }) in
      let same : consume_blocks (suc n) drop o ≡ consume_blocks n drop passed = ground arith in
      subst (IsParted drop seen) (sym same) (
        consume_blocks-IsParted n drop seen passed (
          pass_block-IsParted drop seen block after o (cut_block-joins o.pending block after e)
            (cut_block-IsEnded o.pending block after e) v))
]

-- Enough fuel: no separator is left.
consume_blocks-cut_block :
    (n : ℕ) (drop : Bytes → Bool) (o : Reader)
    → length o.pending ≤ n
    → cut_block (consume_blocks n drop o).pending ≡ none
unfolding consume_blocks pass_block
consume_blocks-cut_block zero drop o short = elim (Option-cases (cut_block o.pending)) [
  | inl e ↦ e
  | inr ((block, after), e) ↦
      absurd (omega (arith, short, cut_block-shorter o.pending block after e))
]
consume_blocks-cut_block (suc n) drop o short = elim (Option-cases (cut_block o.pending)) [
  | inl e ↦
      let same : consume_blocks (suc n) drop o ≡ o = ground arith in
      ap (λ r. cut_block r.pending) same ∙ e
  | inr ((block, after), e) ↦
      let passed = pass_block drop block (record o { pending = after }) in
      let same : consume_blocks (suc n) drop o ≡ consume_blocks n drop passed = ground arith in
      ap (λ r. cut_block r.pending) same
      ∙ consume_blocks-cut_block n drop passed
          (omega (arith, short, cut_block-shorter o.pending block after e))
]

consume_events-IsParted :
    (drop : Bytes → Bool) (seen b : Bytes) (o : Reader)
    → IsParted drop seen o
    → IsParted drop (seen ++ b) (consume_events drop b o)
unfolding consume_events
consume_events-IsParted drop seen b o v =
    consume_blocks-IsParted (length (o.pending ++ b)) drop (seen ++ b)
      (record o { pending = o.pending ++ b })
      (record {
        blocks = v.blocks;
        ended = v.ended;
        split = sym (append_assoc (joined v.blocks) o.pending b) ∙ ap (λ x. x ++ b) v.split;
        told = v.told;
        kept = v.kept;
      })

consume_events-cut_block :
    (drop : Bytes → Bool) (b : Bytes) (o : Reader)
    → cut_block (consume_events drop b o).pending ≡ none
unfolding consume_events
consume_events-cut_block drop b o =
    consume_blocks-cut_block (length (o.pending ++ b)) drop (record o { pending = o.pending ++ b })
      (omega arith)

-- The chunks as reads before the end.
filter_all-IsParted :
    (drop : Bytes → Bool) (seen : Bytes) (bs : List Bytes) (o : Reader)
    → IsParted drop seen o
    → IsParted drop (seen ++ joined bs) (filter_all drop (all_got bs) o)
unfolding filter_all read_filtered
filter_all-IsParted drop seen [] o v = subst (λ x. IsParted drop x o) (sym (append_nil seen)) v
filter_all-IsParted drop seen (b ∷ bs) o v =
    let o' = consume_events drop b o in
    subst (λ x. IsParted drop x (filter_all drop (all_got bs) o')) (append_assoc seen b (joined bs))
      (filter_all-IsParted drop (seen ++ b) bs o' (consume_events-IsParted drop seen b o v))

-- The stream is a sequence of ended blocks and a rest without a separator, which may be empty. What
-- is reported and what is sent is that of the blocks and of the rest.
abbrev pub IsFiltered : (Bytes → Bool) → Bytes → Reader → Type 0
IsFiltered drop whole o =
    (blocks : List Bytes) × (rest : Bytes) × (joined blocks ++ rest ≡ whole)
    × All IsEnded blocks
    × (cut_block rest ≡ none)
    × (o.events ≡ events_of_blocks blocks ++ (if is_empty rest then [] else block_events rest))
    × (o.sent
        ≡ kept_of_blocks drop blocks
          ++ (if is_empty rest || is_dropped drop rest then [] else rest))

flush_remainder_outcome :
    (drop : Bytes → Bool) (o : Reader)
    → ((flush_remainder drop o).events
        ≡ o.events ++ (if is_empty o.pending then [] else block_events o.pending))
      × ((flush_remainder drop o).sent
          ≡ o.sent ++ (if is_empty o.pending || is_dropped drop o.pending then [] else o.pending))
unfolding flush_remainder pass_block
flush_remainder_outcome drop o =
    (ground (arith, append_nil o.events), ground (arith, append_nil o.sent))

ended-IsFiltered :
    (drop : Bytes → Bool) (seen b : Bytes) (o : Reader)
    → IsParted drop seen o
    → IsFiltered drop (seen ++ b) (read_filtered drop (at_end b) o)
unfolding read_filtered finish_once
ended-IsFiltered drop seen b o v =
    let o' = consume_events drop b o in
    let parted = consume_events-IsParted drop seen b o v in
    let (events, sent) = flush_remainder_outcome drop o' in
    (
      parted.blocks,
      o'.pending,
      parted.split,
      parted.ended,
      consume_events-cut_block drop b o,
      ground (arith, parted.told, events),
      ground (arith, parted.kept, sent),
    )

-- When the filter has read a stream to its end, however the reads cut it, the stream is a
-- sequence of blocks that end with an empty line and a rest without one; the events are those of
-- the blocks and of a rest that is not empty, and what is sent is those blocks and that rest
-- which the predicate does not drop, unchanged and in order.
pub filter_all-IsFiltered :
    (drop : Bytes → Bool) (bs : List Bytes) (b : Bytes)
    → IsFiltered drop
        (joined bs ++ b)
        (read_filtered drop (at_end b) (filter_all drop (all_got bs) (new_reader true)))
filter_all-IsFiltered drop bs b =
    ended-IsFiltered drop (joined bs) b (filter_all drop (all_got bs) (new_reader true)) (
      filter_all-IsParted drop [] bs (new_reader true)
        (record { blocks = []; ended = tt; split = refl; told = refl; kept = refl }))
