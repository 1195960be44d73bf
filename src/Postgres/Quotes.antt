-- ===== src/Postgres/Quotes.antt =====
-- driver.go: the rewriting does not have to look ahead.
use spendlease.Base.{
  ℕ, ◌+◌, ◌≡◌, refl, sym, ap, ◌∙◌, inl, inr, Bool, true, false, [], ◌∷◌, ◌++◌, Option, none, some,
  Bytes, ◌==◌, any, if◌then◌else◌, arith, Bool-cases,
}
use spendlease.Base.Decimal.{format_nat}
use spendlease.Postgres.{is_quote, is_parameter, rebind_from, rebind}

-- A reader that closes a quoted text at each of its quotes: a doubled quote closes it and opens the next.
unfoldable pub numbered_from : ℕ → Option ℕ → Bytes → Bytes
numbered_from n quote [] = []
numbered_from n none (c ∷ s) =
    let quoted = numbered_from n (some c) s in
    let numbered = numbered_from (n + 1) none s in
    let rest = numbered_from n none s in
    if is_quote c
    then c ∷ quoted
    else if is_parameter c
    then b'$' ∷ (format_nat n ++ numbered)
    else c ∷ rest
numbered_from n (some q) (c ∷ s) =
    let ended = numbered_from n none s in
    let rest = numbered_from n (some q) s in if c == q then c ∷ ended else c ∷ rest

abbrev is_open : Option ℕ → Bool
is_open none = true
is_open (some q) = is_quote q

rebind_doubled :
    (n q c d : ℕ) (s : Bytes)
    → (c == q) ≡ true
    → (d == q) ≡ true
    → rebind_from n (some q) (c ∷ d ∷ s) ≡ c ∷ d ∷ rebind_from n (some q) s
unfolding rebind_from
rebind_doubled n q c d s h k = simp (h, k)

numbered_open :
    (n d : ℕ) (s : Bytes)
    → is_quote d ≡ true
    → numbered_from n none (d ∷ s) ≡ d ∷ numbered_from n (some d) s
unfolding numbered_from
numbered_open n d s h = simp h

numbered_close :
    (n q c : ℕ) (s : Bytes)
    → (c == q) ≡ true
    → numbered_from n (some q) (c ∷ s) ≡ c ∷ numbered_from n none s
unfolding numbered_from
numbered_close n q c s h = simp h

numbered_doubled :
    (n q c d : ℕ) (s : Bytes)
    → (c == q) ≡ true
    → (d == q) ≡ true
    → is_quote q ≡ true
    → numbered_from n (some q) (c ∷ d ∷ s) ≡ c ∷ d ∷ numbered_from n (some q) s
numbered_doubled n q c d s h k v =
    let same : d ≡ q = ground arith in
    let closed = numbered_close n q c (d ∷ s) h in
    closed
    ∙ ap (λ t. c ∷ t)
        (numbered_open n d s (ap is_quote same ∙ v) ∙ ap (λ e. d ∷ numbered_from n (some e) s) same)

rebind_from-numbered_from :
    (n : ℕ) (quote : Option ℕ) (s : Bytes)
    → is_open quote ≡ true
    → rebind_from n quote s ≡ numbered_from n quote s
unfolding rebind_from numbered_from
rebind_from-numbered_from n none [] h = refl
rebind_from-numbered_from n (some q) [] h = refl
rebind_from-numbered_from n none (c ∷ s) h = elim (Bool-cases (is_quote c)) [
  | inl quoted ↦ ground (arith, rebind_from-numbered_from n (some c) s quoted)
  | inr other ↦ ground (
    arith,
    rebind_from-numbered_from (n + 1) none s refl,
    rebind_from-numbered_from n none s refl,
  )
]
rebind_from-numbered_from n (some q) (c ∷ []) h = ground arith
rebind_from-numbered_from n (some q) (c ∷ d ∷ s) h = elim (Bool-cases (c == q)) [
  | inr inside ↦ ground (arith, rebind_from-numbered_from n (some q) (d ∷ s) h)
  | inl ending ↦ elim (Bool-cases (d == q)) [
    | inl doubled ↦
        rebind_doubled n q c d s ending doubled
        ∙ (ap (λ t. c ∷ d ∷ t) (rebind_from-numbered_from n (some q) s h)
            ∙ sym (numbered_doubled n q c d s ending doubled h))
    | inr ended ↦ ground (arith, rebind_from-numbered_from n none (d ∷ s) refl)
  ]
]

numbered_from_plain :
    (n : ℕ) (quote : Option ℕ) (s : Bytes)
    → any is_parameter s ≡ false
    → numbered_from n quote s ≡ s
unfolding numbered_from
numbered_from_plain n none [] h = refl
numbered_from_plain n (some q) [] h = refl
numbered_from_plain n none (c ∷ s) h =
    ground (arith, numbered_from_plain n (some c) s, numbered_from_plain n none s)
numbered_from_plain n (some q) (c ∷ s) h =
    ground (arith, numbered_from_plain n (some q) s, numbered_from_plain n none s)

pub rebind-numbered_from : (query : Bytes) → rebind query ≡ numbered_from 1 none query
unfolding rebind
rebind-numbered_from query = elim (Bool-cases (any is_parameter query)) [
  | inl some_parameter ↦ ground (arith, rebind_from-numbered_from 1 none query refl)
  | inr plain ↦ ground (arith, numbered_from_plain 1 none query plain)
]
