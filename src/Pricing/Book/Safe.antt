-- ===== src/Pricing/Book/Safe.antt =====
-- book.go: what validation promises of every price that a lookup finds.
use mathlib.Core.Path.{subst}
use spendlease.Base.{
  entry_of, ℕ, ◌≡◌, refl, sym, ap, ◌∙◌, ◌⊎◌, inl, inr, true, false, List, [], ◌∷◌, Option, none,
  some, Bytes, All, arith, Option-cases, Bool-cases, str_eq, any,
}
use spendlease.Base.Int.{ℤ, pos, ◌<ℤ◌, ◌+ℤ◌, wrap64, eq_ℤ, eq_of_parts}
use spendlease.Pricing.{Price, Usage, cost, cost_at, rate, is_long}
use spendlease.Pricing.Book.{
  File, Model, Provider, Book, BookError, first_error, by_alias, file_price, price_of,
  validate_file, validate_provider, validate_model, newest_price, lookup_known, rate_or,
  nonzero_rate, has_rate,
}
use spendlease.Pricing.Book.Load.{Decoder, DirEntry, reload, files_of}
use spendlease.Pricing.Book.Reload.{IsValid, reload-IsLoaded, lookup_files}

first_error-entry_of {ℓ} :
    {A : Type ℓ} (check : A → Option BookError) (k : Bytes) (a : A) (xs : List (Bytes × A))
    → first_error check xs ≡ none
    → entry_of k xs ≡ some a
    → check a ≡ none
unfolding first_error entry_of
first_error-entry_of check k a [] h f = absurd (cc f)
first_error-entry_of check k a ((j, b) ∷ xs) h f = elim (Option-cases (check b)) [
  | inr (e, bad) ↦ absurd (ground arith)
  | inl good ↦ elim (Bool-cases (str_eq j k)) [
    | inl same ↦ ground arith
    | inr other ↦ first_error-entry_of check k a xs (ground arith) (ground arith)
  ]
]

first_error-by_alias :
    (check : Model → Option BookError) (k j : Bytes) (a : Model) (xs : List (Bytes × Model))
    → first_error check xs ≡ none
    → by_alias k xs ≡ some (j, a)
    → check a ≡ none
unfolding first_error by_alias
first_error-by_alias check k j a [] h f = absurd (cc f)
first_error-by_alias check k j a ((i, b) ∷ xs) h f = elim (Option-cases (check b)) [
  | inr (e, bad) ↦ absurd (ground arith)
  | inl good ↦ elim (Bool-cases (any (λ x. str_eq x k) b.aliases)) [
    | inl same ↦ ground arith
    | inr other ↦ first_error-by_alias check k j a xs (ground arith) (ground arith)
  ]
]

-- The price is that of an entry that passed validation.
abbrev pub IsVetted : Price → Type 0
IsVetted q =
    (provider name source : Bytes) × (m : Model) × (f : File) × (validate_model f.version m ≡ none)
    × (q ≡ price_of provider name m f source)

validate_file-providers :
    (f : File)
    → validate_file f ≡ none
    → first_error (validate_provider f.version) f.providers ≡ none
unfolding validate_file
validate_file-providers f h = ground arith

validate_provider-models :
    (v : ℤ) (p : Provider)
    → validate_provider v p ≡ none
    → first_error (validate_model v) p.models ≡ none
unfolding validate_provider
validate_provider-models v p h = ground arith

file_price-IsVetted :
    (provider model : Bytes) (f : File) (q : Price)
    → validate_file f ≡ none
    → file_price provider model f ≡ some q
    → IsVetted q
unfolding file_price
file_price-IsVetted provider model f q v h = elim (Option-cases (entry_of provider f.providers)) [
  | inl e ↦ absurd (ground arith)
  | inr (p, e) ↦
      let checked = validate_provider-models f.version p (
        first_error-entry_of (validate_provider f.version) provider p f.providers
          (validate_file-providers f v) e) in
      elim (Option-cases (entry_of model p.models)) [
        | inr (m, exact) ↦ (
          provider,
          model,
          p.source,
          m,
          f,
          first_error-entry_of (validate_model f.version) model m p.models checked exact,
          ground arith,
        )
        | inl no_exact ↦ elim (Option-cases (by_alias model p.models)) [
          | inl no_alias ↦ absurd (ground arith)
          | inr ((name, m), alias) ↦ (
            provider,
            name,
            p.source,
            m,
            f,
            first_error-by_alias (validate_model f.version) model name m p.models checked alias,
            ground arith,
          )
        ]
      ]
]

newest_price-IsVetted :
    (provider model : Bytes) (at : ℕ) (fs : List File) (q : Price)
    → All IsValid fs
    → newest_price provider model at fs ≡ some q
    → IsVetted q
unfolding newest_price
newest_price-IsVetted provider model at [] q v h = absurd (cc h)
newest_price-IsVetted provider model at (f ∷ fs) q v h =
    elim (Option-cases (newest_price provider model at fs)) [
      | inl e ↦ file_price-IsVetted provider model f q v.0 (ground arith)
      | inr (p, e) ↦ newest_price-IsVetted provider model at fs q v.1 (ground arith)
    ]

-- What the pricing and the reservations rely on.
pub record IsSound (p : Price) : Type 0 where
  pub ceiling : pos 0 <ℤ p.default_max_tokens
  pub charged :
      ((p.free ≡ false) × (pos 0 <ℤ p.input_per_1m) × (pos 0 <ℤ p.output_per_1m))
      ⊎ ((p.free ≡ true) × ((u : Usage) → cost p u ≡ pos 0))

rate-zero : (t : ℤ) → rate t (pos 0) ≡ pos 0
unfolding rate
rate-zero t = ground arith

cost_at-zero : (u : Usage) → cost_at (pos 0) (pos 0) (pos 0) (pos 0) (pos 0) u ≡ pos 0
unfolding cost_at wrap64 ◌+ℤ◌
cost_at-zero u =
    rw
      (
        rate-zero u.input_tokens,
        rate-zero u.cached_input_tokens,
        rate-zero u.cache_write_5m_tokens,
        rate-zero u.cache_write_1h_tokens,
        rate-zero u.output_tokens,
      )
      refl

rate_or-zero : (r : Option ℤ) → nonzero_rate r ≡ false → rate_or r (pos 0) ≡ pos 0
unfolding nonzero_rate rate_or
rate_or-zero none h = refl
rate_or-zero (some q) h = ground (arith, eq_of_parts q (pos 0))

is_long-no_threshold :
    (p : Price) (u : Usage) → p.long_context_threshold ≡ pos 0 → is_long p u ≡ false
unfolding is_long
is_long-no_threshold p u h = ground arith

eq_ℤ-zero : (q : ℤ) → eq_ℤ q (pos 0) ≡ true → q ≡ pos 0
eq_ℤ-zero q h = ground (arith, eq_of_parts q (pos 0))

cost-short :
    (p : Price) (u : Usage)
    → p.long_context_threshold ≡ pos 0
    → cost p u
      ≡ cost_at p.input_per_1m p.cached_input_per_1m p.cache_write_5m_per_1m p.cache_write_1h_per_1m
          p.output_per_1m u
unfolding cost
cost-short p u h = ground (arith, is_long-no_threshold p u h)

free-has_rate : (v : ℤ) (m : Model) → validate_model v m ≡ none → m.free ≡ true → has_rate m ≡ false
unfolding validate_model
free-has_rate v m h k = ground arith

-- A free model has no rate.
record IsUnrated (m : Model) : Type 0 where
  input : eq_ℤ m.input_per_1m (pos 0) ≡ true
  output : eq_ℤ m.output_per_1m (pos 0) ≡ true
  threshold : eq_ℤ m.long_context_threshold (pos 0) ≡ true
  cached : nonzero_rate m.cached_input_per_1m ≡ false
  write_5m : nonzero_rate m.cache_write_5m_per_1m ≡ false
  write_1h : nonzero_rate m.cache_write_1h_per_1m ≡ false

has_rate-IsUnrated : (m : Model) → has_rate m ≡ false → IsUnrated m
unfolding has_rate
has_rate-IsUnrated m h = record {
  input = ground arith;
  output = ground arith;
  threshold = ground arith;
  cached = ground arith;
  write_5m = ground arith;
  write_1h = ground arith;
}

price_of-free :
    (provider name source : Bytes) (m : Model) (f : File) (u : Usage)
    → validate_model f.version m ≡ none
    → m.free ≡ true
    → cost (price_of provider name m f source) u ≡ pos 0
unfolding price_of
price_of-free provider name source m f u v h =
    let none_set = has_rate-IsUnrated m (free-has_rate f.version m v h) in
    let input = eq_ℤ-zero m.input_per_1m none_set.input in
    let output = eq_ℤ-zero m.output_per_1m none_set.output in
    let threshold = eq_ℤ-zero m.long_context_threshold none_set.threshold in
    let cached =
      ap (rate_or m.cached_input_per_1m) input
      ∙ rate_or-zero m.cached_input_per_1m none_set.cached in
    let write_5m =
      ap (rate_or m.cache_write_5m_per_1m) input
      ∙ rate_or-zero m.cache_write_5m_per_1m none_set.write_5m in
    let write_1h =
      ap (rate_or m.cache_write_1h_per_1m) write_5m
      ∙ rate_or-zero m.cache_write_1h_per_1m none_set.write_1h in
    cost-short (price_of provider name m f source) u threshold
    ∙ (rw (write_1h, write_5m, cached, input, output) (cost_at-zero u))

price_of-IsSound :
    (provider name source : Bytes) (m : Model) (f : File)
    → validate_model f.version m ≡ none
    → IsSound (price_of provider name m f source)
unfolding price_of validate_model
price_of-IsSound provider name source m f v = record {
  ceiling = ground arith;
  charged = elim (Bool-cases m.free) [
    | inl h ↦ inr (h, λ u. price_of-free provider name source m f u v h)
    | inr h ↦ inl (h, ground arith, ground arith)
  ];
}

-- A price that LookupKnown finds in a book after a Reload without an error has a positive default
-- output ceiling; it is marked free and costs nothing for every usage, or is not free and has
-- positive input and output rates.
pub lookup_known-IsSound :
    (d : Decoder) (dir : Option (List DirEntry)) (now at : ℕ) (b c : Book) (provider model : Bytes)
    (p : Price)
    → reload d dir now b ≡ (c, none)
    → lookup_known c provider model at ≡ some p
    → IsSound p
lookup_known-IsSound d dir now at b c provider model p h k =
    let (_, _, valid) = reload-IsLoaded d dir now b c h in
    let (_, _, _, _, _, vetted, same) =
      newest_price-IsVetted provider model at (files_of c) p valid
        (sym (lookup_files c provider model at) ∙ k) in
    subst IsSound (sym same) (price_of-IsSound _ _ _ _ _ vetted)
