-- ===== src/Providers/Routing.antt =====
-- providers.go: where Resolve sends a request, told by the texts of the path and of the prefixes.
pub mod Texts
pub mod Choice
use mathlib.Core.List.{append_assoc}
use mathlib.Core.Path.{subst}
use spendlease.Base.{
  ◌≡◌, refl, sym, ap, ◌∙◌, ◌⊎◌, inl, inr, Bool, true, false, not, ◌&&◌, ◌||◌, List, [], ◌∷◌, ◌++◌,
  Option, none, some, Bytes, codes, str_eq, str_eq_refl, str_eq_iff, starts_with, ◌==◌, any, find,
  keep, length, is_some, if◌then◌else◌, arith, Option-cases, Bool-cases,
}
use spendlease.Providers.{
  Provider, Registry, resolve, explicit_prefix, cut_slash, provider_named, matching, claims_path,
  pick, trim_slash, trim_leading_slash,
}
use spendlease.Providers.Routing.Texts.{
  IsIn, has_slash, IsPath, ends_in_slash, lies_below, find-IsIn, any-IsIn, any_missing, any_found,
  starts_with-append, trim_slash_lem, trim_leading_slash-IsPath, cut_slash_parts, cut_slash-append,
}
use spendlease.Providers.Routing.Choice.{is_preferred, IsPicked, pick-IsPicked, lone-IsPicked}

-- The providers with a prefix of the path.
abbrev pub claimants : Bytes → List Provider → List Provider
claimants path ps = keep (λ q. any (lies_below path) q.paths) ps

-- The path starts with the name of the provider, between slashes.
abbrev pub names_provider : Bytes → Provider → Bool
names_provider path q =
    not (has_slash q.name)
    && (starts_with (codes "/" ++ (q.name ++ codes "/")) path
        || (not (starts_with (codes "/") path) && starts_with (q.name ++ codes "/") path))

any_claims :
    (path : Bytes) (prefixes : List Bytes)
    → any (claims_path path) prefixes ≡ any (lies_below path) prefixes
unfolding claims_path
any_claims path [] = refl
any_claims path (x ∷ xs) =
    let same = ap (λ t. str_eq path x || starts_with t path) (trim_slash_lem x) in
    ground (arith, any_claims path xs)

matching-claimants : (path : Bytes) (ps : List Provider) → matching path ps ≡ claimants path ps
unfolding matching
matching-claimants path [] = refl
matching-claimants path (q ∷ ps) =
    ground (arith, any_claims path q.paths, matching-claimants path ps)

-- What the explicit prefix of a path is.
abbrev pub IsPrefixed : Registry → Bytes → Provider → Bytes → Type 0
IsPrefixed g path p rest =
    (tail : Bytes) × IsIn p g.order
    × (has_slash p.name ≡ false)
    × IsPath path (p.name ++ (b'/' ∷ tail))
    × (rest ≡ b'/' ∷ tail)

explicit_prefix-IsPrefixed :
    (g : Registry) (path rest : Bytes) (p : Provider)
    → explicit_prefix g path ≡ some (p, rest)
    → IsPrefixed g path p rest
unfolding explicit_prefix provider_named
explicit_prefix-IsPrefixed g path rest p h =
    elim (Option-cases (cut_slash (trim_leading_slash path))) [
      | inl e ↦ absurd (ground arith)
      | inr ((name, tail), e) ↦ elim (Option-cases (find (λ q. str_eq q.name name) g.order)) [
        | inl n ↦ absurd (ground arith)
        | inr (q, n) ↦
            let (among, named) = find-IsIn (λ q. str_eq q.name name) g.order q n in
            let chosen : q ≡ p = ground arith in
            let kept : b'/' ∷ tail ≡ rest = ground arith in
            let same : name ≡ p.name =
              sym ((str_eq_iff q.name name).0 named) ∙ ap (λ x. x.name) chosen in
            let (parts, plain) = cut_slash_parts (trim_leading_slash path) name tail e in
            (
              tail,
              subst (λ x. IsIn x g.order) chosen among,
              ap has_slash (sym same) ∙ plain,
              subst (IsPath path) (parts ∙ ap (λ x. x ++ (b'/' ∷ tail)) same)
                  (trim_leading_slash-IsPath path),
              sym kept,
            )
      ]
    ]

named_is_some :
    (name : Bytes) (q : Provider) (ps : List Provider)
    → IsIn q ps
    → str_eq q.name name ≡ true
    → is_some (find (λ x. str_eq x.name name) ps) ≡ true
named_is_some name q [] h k = absurd h
named_is_some name q (x ∷ ps) (inl same) k =
    let named = ap (λ y. str_eq y.name name) (sym same) ∙ k in ground arith
named_is_some name q (x ∷ ps) (inr more) k = ground (arith, named_is_some name q ps more k)

names_provider-trimmed :
    (path : Bytes) (q : Provider)
    → names_provider path q ≡ true
    → (has_slash q.name ≡ false)
      × (starts_with (q.name ++ codes "/") (trim_leading_slash path) ≡ true)
unfolding starts_with
names_provider-trimmed [] q h = (ground arith, ground arith)
names_provider-trimmed (c ∷ s) q h = elim (Bool-cases (c == b'/')) [
  | inl slash ↦ (ground arith, ground arith)
  | inr other ↦ (ground arith, ground arith)
]

explicit_prefix-none :
    (g : Registry) (path : Bytes)
    → explicit_prefix g path ≡ none
    → any (names_provider path) g.order ≡ false
unfolding explicit_prefix provider_named
explicit_prefix-none g path h = elim (Bool-cases (any (names_provider path) g.order)) [
  | inr unnamed ↦ unnamed
  | inl named ↦
      let (q, among, names) = any-IsIn (names_provider path) g.order named in
      let (plain, starts) = names_provider-trimmed path q names in
      let (tail, parts) =
        starts_with-append (q.name ++ codes "/") (trim_leading_slash path) starts in
      let whole = parts ∙ append_assoc q.name (codes "/") tail in
      let cut = ap cut_slash whole ∙ cut_slash-append q.name tail plain in
      let known = named_is_some q.name q g.order among (str_eq_refl q.name) in
      absurd (elim (Option-cases (find (λ x. str_eq x.name q.name) g.order)) as (λ _. ⊥) [
        | inl n ↦ ground arith
        | inr (x, n) ↦ ground arith
      ])
]

-- Where a request goes: by an explicit prefix; else, unless no provider is named or claims the path, to
-- the preferred one of the claimants, with the path as it is.
abbrev pub IsRouted : Registry → Bytes → Bytes → Option (Provider × Bytes) → Type 0
IsRouted g path version none =
    (any (names_provider path) g.order ≡ false) × (claimants path g.order ≡ [])
IsRouted g path version (some (p, rest)) =
    IsPrefixed g path p rest
    ⊎ ((any (names_provider path) g.order ≡ false)
        × (rest ≡ path)
        × IsPicked g version (claimants path g.order) p)

chosen-IsRouted :
    (g : Registry) (path version : Bytes) (ms : List Provider) (p : Provider)
    → explicit_prefix g path ≡ none
    → matching path g.order ≡ ms
    → IsPicked g version ms p
    → IsRouted g path version (some (p, path))
chosen-IsRouted g path version ms p e m picked =
    let listed = sym (matching-claimants path g.order) ∙ m in
    inr
      (explicit_prefix-none g path e, refl, subst (λ l. IsPicked g version l p) (sym listed) picked)

claimed-IsRouted :
    (g : Registry) (path version : Bytes) (ms : List Provider)
    → explicit_prefix g path ≡ none
    → matching path g.order ≡ ms
    → IsRouted g path version (resolve g path version)
unfolding resolve
claimed-IsRouted g path version [] e m =
    let found : resolve g path version ≡ none = ground arith in
    subst (IsRouted g path version) (sym found)
      (explicit_prefix-none g path e, sym (matching-claimants path g.order) ∙ m)
claimed-IsRouted g path version (q ∷ []) e m =
    let found : resolve g path version ≡ some (q, path) = ground arith in
    subst (IsRouted g path version) (sym found)
      (chosen-IsRouted g path version (q ∷ []) q e m (lone-IsPicked g version q))
claimed-IsRouted g path version (q ∷ r ∷ ms) e m =
    let p = pick g version q (q ∷ r ∷ ms) in
    let found : resolve g path version ≡ some (p, path) = ground arith in
    subst (IsRouted g path version) (sym found)
      (chosen-IsRouted g path version (q ∷ r ∷ ms) p e m (pick-IsPicked g version q (r ∷ ms)))

-- Resolve sends a request by an explicit prefix, to a registered provider whose name, between
-- slashes, starts the path, with that prefix taken off; or no provider of the registry is named
-- so, the path is kept, and the provider is one of those with a prefix that is the path or that
-- the path lies below: for a request with an anthropic-version the one named anthropic, if it is
-- among them, else the fallback, if it is, else the first of them. It sends a request nowhere
-- only if no provider is named so and none claims the path.
pub resolve-IsRouted :
    (g : Registry) (path version : Bytes) → IsRouted g path version (resolve g path version)
unfolding resolve
resolve-IsRouted g path version = elim (Option-cases (explicit_prefix g path)) [
  | inl e ↦ claimed-IsRouted g path version (matching path g.order) e refl
  | inr ((p, rest), e) ↦
      let found : resolve g path version ≡ some (p, rest) = ground arith in
      subst (IsRouted g path version) (sym found) (inl (explicit_prefix-IsPrefixed g path rest p e))
]
