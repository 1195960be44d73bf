-- ===== src/Reconcile/Totals.antt =====
-- reconcile.go: the totals of a group are the exact sums of its entries.
use mathlib.Core.Path.{subst}
use spendlease.Base.{
  ℕ, suc, ◌+◌, ◌-◌, ◌<◌, ◌^◌, ◌≡◌, refl, sym, ap, ◌∙◌, inl, inr, Bool, true, false, ◌&&◌, List, [],
  ◌∷◌, some, str_eq, str_eq_iff, str_eq_comm, arith, Option-cases, Bool-cases, if◌then◌else◌,
}
use spendlease.Base.Int.{ℤ, pos, negsuc, pos_part, ◌+ℤ◌, ◌-ℤ◌, ◌≤ℤ◌, wrap64}
use spendlease.Pricing.Rate.{+ℤ-pos, wrap64-pos}
use spendlease.Reconcile.{
  StatementEntry, ReconcileOptions, Aggregate, GroupKey, Groups, same_key, value_of, put_group,
  add_to, add, add_all, in_period, key_of, max_int64, add_usage,
}

same_key_iff_left : (a b c : GroupKey) → same_key a b ≡ true → same_key a c ≡ same_key b c
unfolding same_key
same_key_iff_left a b c h =
    let p = (str_eq_iff a.provider b.provider).0 (ground arith) in
    let m = (str_eq_iff a.model b.model).0 (ground arith) in
    ap (λ x. str_eq x c.provider && str_eq a.model c.model) p
    ∙ ap (λ x. str_eq b.provider c.provider && str_eq x c.model) m

same_key_comm : (a b : GroupKey) → same_key a b ≡ same_key b a
unfolding same_key
same_key_comm a b =
    ap (λ x. x && str_eq a.model b.model) (str_eq_comm a.provider b.provider)
    ∙ ap (λ x. str_eq b.provider a.provider && x) (str_eq_comm a.model b.model)

value_of-put_group :
    (k j : GroupKey) (a : Aggregate) (gs : Groups)
    → value_of j (put_group k a gs) ≡ (if same_key k j then a else value_of j gs)
unfolding value_of put_group
value_of-put_group k j a [] = refl
value_of-put_group k j a ((i, b) ∷ gs) = elim (Bool-cases (same_key i k)) [
  | inl e ↦ ground (arith, same_key_iff_left i k j e)
  | inr e ↦ elim (Bool-cases (same_key i j)) [
    | inl f ↦
        let apart : same_key k j ≡ false =
          same_key_comm k j ∙ (sym (same_key_iff_left i j k f) ∙ e) in
        ground arith
    | inr f ↦ ground (arith, value_of-put_group k j a gs)
  ]
]

value_of-same : (k j : GroupKey) (gs : Groups) → same_key k j ≡ true → value_of k gs ≡ value_of j gs
unfolding value_of
value_of-same k j [] h = refl
value_of-same k j ((i, a) ∷ gs) h =
    ground (
      arith,
      value_of-same k j gs h,
      same_key_iff_left k j i h,
      same_key_comm i k,
      same_key_comm i j,
    )

add_inv :
    (e : StatementEntry) (gs gs' : Groups)
    → add e gs ≡ some gs'
    → (pos 0 ≤ℤ e.cost)
      × (a : Aggregate) × (add_to e (value_of (key_of e) gs) ≡ some a)
      × (gs' ≡ put_group (key_of e) a gs)
unfolding add
add_inv e gs gs' h = elim (Option-cases (add_to e (value_of (key_of e) gs))) [
  | inl n ↦ absurd (ground arith)
  | inr (a, n) ↦ (ground arith, a, n, ground arith)
]

add_to_inv :
    (e : StatementEntry) (a b : Aggregate)
    → add_to e a ≡ some b
    → (a.cost ≤ℤ wrap64 (max_int64 -ℤ e.cost))
      × (b.records ≡ suc a.records)
      × (b.cost ≡ wrap64 (a.cost +ℤ e.cost))
unfolding add_to
add_to_inv e a b h = elim (Option-cases (add_usage a.usage e.usage)) [
  | inl n ↦ absurd (ground arith)
  | inr (u, n) ↦ (ground arith, ground arith, ground arith)
]

max_less : (n : ℕ) → n < 2 ^ 63 → max_int64 -ℤ pos n ≡ pos (9223372036854775807 - n)
unfolding ◌-ℤ◌
max_less n h = ground arith

-- A sum that the check lets pass is exact.
add_exact :
    (m : ℕ) (c : ℤ)
    → pos 0 ≤ℤ c
    → pos_part c < 2 ^ 63
    → pos m ≤ℤ wrap64 (max_int64 -ℤ c)
    → (m + pos_part c < 2 ^ 63) × (wrap64 (pos m +ℤ c) ≡ pos (m + pos_part c))
add_exact m (pos n) z w h =
    let room = ap wrap64 (max_less n w) ∙ wrap64-pos (9223372036854775807 - n) (omega arith) in
    let fits : pos m ≤ℤ pos (9223372036854775807 - n) = subst (λ x. pos m ≤ℤ x) room h in
    let sum : m + n < 2 ^ 63 = omega (arith, fits) in
    (sum, ap wrap64 (+ℤ-pos m n) ∙ wrap64-pos (m + n) sum)
add_exact m (negsuc n) z w h = absurd (omega arith)

-- The entries of the period that have the key: their number, and the sum of their costs.
abbrev pub counts : ReconcileOptions → GroupKey → StatementEntry → Bool
counts o j e = in_period o e.occurred_at && same_key (key_of e) j

unfoldable pub count_of : ReconcileOptions → GroupKey → List StatementEntry → ℕ
count_of o j [] = 0
count_of o j (e ∷ es) = let rest = count_of o j es in if counts o j e then suc rest else rest

unfoldable pub cost_sum : ReconcileOptions → GroupKey → List StatementEntry → ℕ
cost_sum o j [] = 0
cost_sum o j (e ∷ es) =
    let rest = cost_sum o j es in if counts o j e then pos_part e.cost + rest else rest

-- Every cost is an int64.
abbrev pub HasCosts : List StatementEntry → Type 0
HasCosts [] = Unit
HasCosts (e ∷ es) = (pos_part e.cost < 2 ^ 63) × HasCosts es

add_all_total :
    (o : ReconcileOptions) (j : GroupKey) (es : List StatementEntry) (gs gs' : Groups) (m : ℕ)
    → HasCosts es
    → (value_of j gs).cost ≡ pos m
    → m < 2 ^ 63
    → add_all o es gs ≡ some gs'
    → (m + cost_sum o j es < 2 ^ 63)
      × ((value_of j gs').cost ≡ pos (m + cost_sum o j es))
      × ((value_of j gs').records ≡ (value_of j gs).records + count_of o j es)
unfolding add_all cost_sum count_of
add_all_total o j [] gs gs' m w c b h = (omega arith, ground arith, ground arith)
add_all_total o j (e ∷ es) gs gs' m w c b h = elim (Bool-cases (in_period o e.occurred_at)) [
  | inr out ↦ let rest = add_all_total o j es gs gs' m w.1 c b (ground arith) in ground arith
  | inl within ↦ elim (Option-cases (add e gs)) [
    | inl n ↦ absurd (ground arith)
    | inr (g, n) ↦
        let (z, a, taken, put) = add_inv e gs g n in
        let (room, more, sum) = add_to_inv e (value_of (key_of e) gs) a taken in
        let placed = ap (value_of j) put ∙ value_of-put_group (key_of e) j a gs in
        let later : add_all o es g ≡ some gs' = ground arith in
        elim (Bool-cases (same_key (key_of e) j)) [
          | inr other ↦
              let same : value_of j g ≡ value_of j gs = ground arith in
              let rest = add_all_total o j es g gs' m w.1 (ap (λ x. x.cost) same ∙ c) b later in
              ground arith
          | inl mine ↦
              let same : value_of j g ≡ a = ground arith in
              let equal : value_of (key_of e) gs ≡ value_of j gs =
                value_of-same (key_of e) j gs mine in
              let start = ap (λ x. x.cost) equal ∙ c in
              let (fits, exact) =
                add_exact m e.cost z w.0
                  (subst (λ x. x ≤ℤ wrap64 (max_int64 -ℤ e.cost)) start room) in
              let cost =
                ap (λ x. x.cost) same ∙ (sum ∙ (ap (λ x. wrap64 (x +ℤ e.cost)) start ∙ exact)) in
              let (below, total, number) =
                add_all_total o j es g gs' (m + pos_part e.cost) w.1 cost fits later in
              let counted = ap (λ x. x.records) same ∙ (more ∙ ap (λ x. suc x.records) equal) in
              let taken_in : counts o j e ≡ true = ground arith in
              rw taken_in (
                omega (arith, below),
                total ∙ ap pos (omega arith),
                number ∙ (ap (λ x. x + count_of o j es) counted ∙ omega arith),
              )
        ]
  ]
]

-- If Build adds up all entries of one source without an error, every cost being an int64, then
-- for every provider and model the group's cost is the exact sum of the costs of the entries of
-- the period that have that key, this sum is an int64, and the group's number of records is the
-- number of those entries.
pub add_all-cost_sum :
    (o : ReconcileOptions) (j : GroupKey) (es : List StatementEntry) (gs : Groups)
    → HasCosts es
    → add_all o es [] ≡ some gs
    → (cost_sum o j es < 2 ^ 63)
      × ((value_of j gs).cost ≡ pos (cost_sum o j es))
      × ((value_of j gs).records ≡ count_of o j es)
unfolding value_of
add_all-cost_sum o j es gs w h =
    let (below, total, number) = add_all_total o j es [] gs 0 w refl (omega arith) h in
    (omega (arith, below), total ∙ ap pos (omega arith), number ∙ omega arith)
