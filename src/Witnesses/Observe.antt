-- ===== src/Witnesses/Observe.antt =====
-- The theorems on the reader of a response, at a short event stream that is cut within an event.
use spendlease.Base.{
  joined, ◌≡◌, ◌≤◌, refl, true, false, List, [], ◌∷◌, ◌++◌, some, Bytes, codes, str_eq, starts_with,
  length, any, arith,
}
use spendlease.Money.{trim_space, trim_left, trim_end}
use spendlease.Gateway.Record.{drop_bytes}
use spendlease.Gateway.Observe.{
  new_reader, got, at_end, broke, read_all, close, handle_line, handle_lines, split_lines,
  filter_all, read_filtered, consume_events, consume_blocks, cut_block, pass_block, block_events,
  is_dropped, event_payload, first_payload, pieces, flush_remainder, finish_once, max_observed_body,
}
use spendlease.Gateway.Observe.Passing.{read_all-close, stream_events, all_got, ends}
use spendlease.Gateway.Observe.Filtering.{filter_all-IsFiltered, IsFiltered}

abbrev newline : Bytes
newline = 10 ∷ []

abbrev chunks : List Bytes
chunks = (codes "data: {1}" ++ newline) ∷ codes "da" ∷ []

abbrev last_chunk : Bytes
last_chunk = codes "ta: {2}" ++ newline ++ codes "data: [DONE]"

two_events : stream_events (joined chunks ++ last_chunk) ≡ codes "{1}" ∷ codes "{2}" ∷ []
unfolding stream_events split_lines handle_lines handle_line drop_bytes trim_space trim_left
    trim_end starts_with str_eq
two_events = refl

short_chunks :
    (length (split_lines (joined chunks)).1 ≤ max_observed_body)
    × (length (split_lines (codes "data: {1}" ++ newline)).1 ≤ max_observed_body)
unfolding split_lines
short_chunks = (omega arith, omega arith)

read_all-close_example :
    (close (read_all (got (codes "a") ∷ broke (codes "b") ∷ []) (new_reader true))).done
    ≡ some (any ends (got (codes "a") ∷ broke (codes "b") ∷ []))
read_all-close_example = read_all-close (got (codes "a") ∷ broke (codes "b") ∷ []) true

-- The usage chunk of a stream is withheld.
abbrev usage_block : Bytes
usage_block = codes "data: {u}" ++ newline ++ newline

filters_usage :
    (read_filtered
      (λ p. str_eq p (codes "{u}"))
      (at_end (codes "x"))
      (filter_all
        (λ p. str_eq p (codes "{u}"))
        (all_got (usage_block ∷ []))
        (new_reader true))).sent
    ≡ codes "x"
unfolding read_filtered filter_all consume_events consume_blocks cut_block pass_block block_events
    is_dropped event_payload first_payload pieces split_lines flush_remainder finish_once drop_bytes
    trim_space trim_left trim_end starts_with str_eq
filters_usage = refl

filter_all-IsFiltered_example :
    IsFiltered
      (λ p. str_eq p (codes "{u}"))
      (joined (usage_block ∷ []) ++ codes "x")
      (read_filtered
        (λ p. str_eq p (codes "{u}"))
        (at_end (codes "x"))
        (filter_all (λ p. str_eq p (codes "{u}")) (all_got (usage_block ∷ [])) (new_reader true)))
filter_all-IsFiltered_example =
    filter_all-IsFiltered (λ p. str_eq p (codes "{u}")) (usage_block ∷ []) (codes "x")

-- Two events with CRLF line ends are one block to the filter, and only the first is reported.
abbrev crlf_stream : Bytes
crlf_stream =
    codes "data: {1}" ++ (13 ∷ 10 ∷ 13 ∷ 10 ∷ []) ++ codes "data: {2}" ++ (13 ∷ 10 ∷ 13 ∷ 10 ∷ [])

misses_crlf_event :
    (read_filtered (λ _. false) (at_end crlf_stream) (new_reader true)).events ≡ codes "{1}" ∷ []
unfolding read_filtered consume_events consume_blocks cut_block pass_block block_events is_dropped
    event_payload first_payload pieces split_lines flush_remainder finish_once drop_bytes
    handle_line trim_space trim_left trim_end starts_with str_eq
misses_crlf_event = refl
