-- ===== src/Providers/Routing/Texts.antt =====
-- providers.go: the texts of paths, prefixes and names, and the lists that they are looked up in.
use spendlease.Base.{
  ◌≡◌, refl, sym, ap, ◌∙◌, ◌⊎◌, inl, inr, Bool, true, false, ◌||◌, List, [], ◌∷◌, ◌++◌, none, some,
  Bytes, codes, str_eq, starts_with, ◌==◌, any, find, if◌then◌else◌, arith, Option-cases,
  Bool-cases,
}
use spendlease.Providers.{cut_slash, trim_slash, trim_leading_slash}

abbrev pub IsIn : {A : Type 0} → A → List A → Type 0
IsIn x [] = ⊥
IsIn x (y ∷ ys) = (x ≡ y) ⊎ IsIn x ys

abbrev pub has_slash : Bytes → Bool
has_slash s = any (λ c. c == b'/') s

-- The path with the slash that it starts with, or without one.
abbrev pub IsPath : Bytes → Bytes → Type 0
IsPath path s = (path ≡ b'/' ∷ s) ⊎ ((starts_with (codes "/") path ≡ false) × (path ≡ s))

abbrev pub ends_in_slash : Bytes → Bool
ends_in_slash [] = false
ends_in_slash (c ∷ []) = c == b'/'
ends_in_slash (c ∷ d ∷ s) = ends_in_slash (d ∷ s)

-- The path is the prefix, or lies below it; a slash at the end of the prefix does not matter.
abbrev pub lies_below : Bytes → Bytes → Bool
lies_below path prefix =
    str_eq path prefix
    || starts_with (if ends_in_slash prefix then prefix else prefix ++ codes "/") path

pub find-IsIn :
    {A : Type 0} (t : A → Bool) (xs : List A) (x : A)
    → find t xs ≡ some x
    → IsIn x xs × (t x ≡ true)
find-IsIn t [] x h = absurd (ground arith)
find-IsIn t (y ∷ ys) x h = elim (Bool-cases (t y)) [
  | inl passes ↦ let same : y ≡ x = ground arith in (inl (sym same), sym (ap t same) ∙ passes)
  | inr fails ↦
      let rest : find t ys ≡ some x = ground arith in
      let (among, passed) = find-IsIn t ys x rest in (inr among, passed)
]

pub any-IsIn :
    {A : Type 0} (t : A → Bool) (xs : List A) → any t xs ≡ true → (x : A) × IsIn x xs × (t x ≡ true)
any-IsIn t [] h = absurd (ground arith)
any-IsIn t (y ∷ ys) h = elim (Bool-cases (t y)) [
  | inl passes ↦ (y, inl refl, passes)
  | inr fails ↦ let (x, among, passed) = any-IsIn t ys (ground arith) in (x, inr among, passed)
]

pub any_missing : {A : Type 0} (t : A → Bool) (xs : List A) → find t xs ≡ none → any t xs ≡ false
any_missing t [] h = refl
any_missing t (x ∷ xs) h = ground (arith, any_missing t xs)

pub any_found :
    {A : Type 0} (t : A → Bool) (xs : List A) (x : A) → find t xs ≡ some x → any t xs ≡ true
any_found t [] x h = absurd (ground arith)
any_found t (y ∷ ys) x h = ground (arith, any_found t ys x)

pub starts_with-append : (s t : Bytes) → starts_with s t ≡ true → (tail : Bytes) × (t ≡ s ++ tail)
unfolding starts_with
starts_with-append [] t h = (t, refl)
starts_with-append (c ∷ s) [] h = absurd (ground arith)
starts_with-append (c ∷ s) (d ∷ t) h =
    let (tail, parts) = starts_with-append s t (ground arith) in (tail, ground arith)

pub trim_slash_lem :
    (s : Bytes) → trim_slash s ++ codes "/" ≡ (if ends_in_slash s then s else s ++ codes "/")
unfolding trim_slash
trim_slash_lem [] = refl
trim_slash_lem (c ∷ []) = elim (Bool-cases (c == b'/')) [
  | inl slash ↦ ground arith
  | inr other ↦ ground arith
]
trim_slash_lem (c ∷ d ∷ s) =
    let same : trim_slash (c ∷ d ∷ s) ≡ c ∷ trim_slash (d ∷ s) = ground arith in
    let rest = trim_slash_lem (d ∷ s) in
    elim (Bool-cases (ends_in_slash (d ∷ s))) [
      | inl slash ↦ ground arith
      | inr plain ↦ ground arith
    ]

pub trim_leading_slash-IsPath : (path : Bytes) → IsPath path (trim_leading_slash path)
unfolding starts_with
trim_leading_slash-IsPath [] = inr (refl, refl)
trim_leading_slash-IsPath (c ∷ s) = elim (Bool-cases (c == b'/')) [
  | inl slash ↦ inl (ground arith)
  | inr other ↦ inr (ground arith, ground arith)
]

pub cut_slash_parts :
    (s name rest : Bytes)
    → cut_slash s ≡ some (name, rest)
    → (s ≡ name ++ (b'/' ∷ rest)) × (has_slash name ≡ false)
unfolding cut_slash
cut_slash_parts [] name rest h = absurd (ground arith)
cut_slash_parts (c ∷ s) name rest h = elim (Bool-cases (c == b'/')) [
  | inl slash ↦
      let before : [] ≡ name = ground arith in
      let after : s ≡ rest = ground arith in (ground arith, ap has_slash (sym before))
  | inr other ↦ elim (Option-cases (cut_slash s)) [
    | inl n ↦ absurd (ground arith)
    | inr ((first, after), found) ↦
        let before : c ∷ first ≡ name = ground arith in
        let behind : after ≡ rest = ground arith in
        let (parts, plain) = cut_slash_parts s first after found in
        let whole : c ∷ s ≡ (c ∷ first) ++ (b'/' ∷ after) = ap (λ t. c ∷ t) parts in
        let none_there : has_slash (c ∷ first) ≡ false = ground arith in
        (
          whole ∙ (ap (λ t. t ++ (b'/' ∷ after)) before ∙ ap (λ t. name ++ (b'/' ∷ t)) behind),
          ap has_slash (sym before) ∙ none_there,
        )
  ]
]

pub cut_slash-append :
    (name rest : Bytes)
    → has_slash name ≡ false
    → cut_slash (name ++ (b'/' ∷ rest)) ≡ some (name, rest)
unfolding cut_slash
cut_slash-append [] rest h = refl
cut_slash-append (c ∷ name) rest h = ground (arith, cut_slash-append name rest)
