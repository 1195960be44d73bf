-- ===== src/Postgres.antt =====
-- internal/store/postgres/driver.go: rebind, which rewrites the parameters of a query.
pub mod Quotes
use spendlease.Base.{
  ℕ, ◌+◌, Bool, true, false, ◌||◌, List, [], ◌∷◌, ◌++◌, Option, none, some, Bytes, ◌==◌, any,
  if◌then◌else◌,
}
use spendlease.Base.Decimal.{format_nat}

abbrev pub is_quote : ℕ → Bool
is_quote c = c == b'\'' || c == b'"'

abbrev pub is_parameter : ℕ → Bool
is_parameter c = c == b'?'

-- The loop over the bytes, with the number of the next parameter and the quote that is open. A quote that
-- stands twice inside a quoted text is passed on at once.
unfoldable pub rebind_from : ℕ → Option ℕ → Bytes → Bytes
rebind_from n quote [] = []
rebind_from n none (c ∷ s) =
    let quoted = rebind_from n (some c) s in
    let numbered = rebind_from (n + 1) none s in
    let rest = rebind_from n none s in
    if is_quote c
    then c ∷ quoted
    else if is_parameter c
    then b'$' ∷ (format_nat n ++ numbered)
    else c ∷ rest
rebind_from n (some q) (c ∷ []) = c ∷ []
rebind_from n (some q) (c ∷ d ∷ s) =
    let doubled = rebind_from n (some q) s in
    let ended = rebind_from n none (d ∷ s) in
    let rest = rebind_from n (some q) (d ∷ s) in
    if c == q then (if d == q then c ∷ d ∷ doubled else c ∷ ended) else c ∷ rest

unfoldable pub rebind : Bytes → Bytes
unfolding rebind_from
rebind query = if any is_parameter query then rebind_from 1 none query else query
