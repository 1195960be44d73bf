-- ===== src/Providers/Routing/Choice.antt =====
-- providers.go: which of several claimants Resolve picks.
use mathlib.Core.Path.{subst}
use spendlease.Base.{
  ◌≡◌, refl, sym, ap, ◌∙◌, inl, inr, Bool, true, false, not, ◌&&◌, List, [], ◌∷◌, Bytes, codes,
  str_eq, str_eq_refl, ◌==◌, any, find, length, if◌then◌else◌, arith, Option-cases, Bool-cases,
}
use spendlease.Providers.{Provider, Registry, provider_named, pick}
use spendlease.Providers.Routing.Texts.{IsIn, find-IsIn, any_missing, any_found}

-- Among several claimants: Anthropic's, if the request has a version for it; else the fallback; else
-- the first.
abbrev pub is_preferred : Registry → Bytes → List Provider → Provider → Bool
is_preferred g version [] p = false
is_preferred g version (first ∷ ms) p =
    if not (length version == 0) && any (λ q. str_eq q.name (codes "anthropic")) (first ∷ ms)
    then str_eq p.name (codes "anthropic")
    else if any (λ q. str_eq q.name g.fallback.name) (first ∷ ms)
    then str_eq p.name g.fallback.name
    else str_eq p.name first.name

-- The claimant that is picked.
abbrev pub IsPicked : Registry → Bytes → List Provider → Provider → Type 0
IsPicked g version ms p = IsIn p ms × (is_preferred g version ms p ≡ true)

-- The fallback, or else the first.
fallback-IsPicked :
    (g : Registry) (version : Bytes) (first : Provider) (ms : List Provider)
    → not (length version == 0) && any (λ q. str_eq q.name (codes "anthropic")) (first ∷ ms) ≡ false
    → pick g version first (first ∷ ms) ≡ pick g [] first (first ∷ ms)
    → IsPicked g version (first ∷ ms) (pick g version first (first ∷ ms))
unfolding pick provider_named
fallback-IsPicked g version first ms ordinary same =
    elim (Option-cases (find (λ q. str_eq q.name g.fallback.name) (first ∷ ms))) [
      | inl missing ↦
          let chosen : pick g version first (first ∷ ms) ≡ first = ground arith in
          let unclaimed = any_missing (λ q. str_eq q.name g.fallback.name) (first ∷ ms) missing in
          let itself = str_eq_refl first.name in
          let preferred : is_preferred g version (first ∷ ms) first ≡ true =
            rw (ordinary, unclaimed) itself in
          subst (IsPicked g version (first ∷ ms)) (sym chosen) (inl refl, preferred)
      | inr (q, found) ↦
          let chosen : pick g version first (first ∷ ms) ≡ q = ground arith in
          let claimed = any_found (λ x. str_eq x.name g.fallback.name) (first ∷ ms) q found in
          let (among, named) =
            find-IsIn (λ x. str_eq x.name g.fallback.name) (first ∷ ms) q found in
          let preferred : is_preferred g version (first ∷ ms) q ≡ true =
            rw (ordinary, claimed) named in
          subst (IsPicked g version (first ∷ ms)) (sym chosen) (among, preferred)
    ]

pub pick-IsPicked :
    (g : Registry) (version : Bytes) (first : Provider) (ms : List Provider)
    → IsPicked g version (first ∷ ms) (pick g version first (first ∷ ms))
unfolding pick provider_named
pick-IsPicked g version first ms =
    let vendors = λ (q : Provider). str_eq q.name (codes "anthropic") in
    elim (Bool-cases (length version == 0)) [
      | inl absent ↦ fallback-IsPicked g version first ms (ground arith) (ground arith)
      | inr asked ↦ elim (Option-cases (find vendors (first ∷ ms))) [
        | inl missing ↦
            fallback-IsPicked g version first ms
              (ground (arith, any_missing vendors (first ∷ ms) missing)) (ground arith)
        | inr (q, found) ↦
            let chosen : pick g version first (first ∷ ms) ≡ q = ground arith in
            let (among, named) = find-IsIn vendors (first ∷ ms) q found in
            let special : not (length version == 0) && any vendors (first ∷ ms) ≡ true =
              ground (arith, any_found vendors (first ∷ ms) q found) in
            let preferred : is_preferred g version (first ∷ ms) q ≡ true = rw special named in
            subst (IsPicked g version (first ∷ ms)) (sym chosen) (among, preferred)
      ]
    ]

pub lone-IsPicked : (g : Registry) (version : Bytes) (q : Provider) → IsPicked g version (q ∷ []) q
lone-IsPicked g version q =
    let (among, preferred) = pick-IsPicked g version q [] in
    let same : pick g version q (q ∷ []) ≡ q = elim among [
      | inl here ↦ here
      | inr more ↦ absurd more
    ] in
    (inl refl, ap (is_preferred g version (q ∷ [])) (sym same) ∙ preferred)
