-- ===== src/Base/Sort.antt =====
-- ORDER BY: insertion by a test that says which of two rows stands first.
use mathlib.Core.Path.{◌≡◌, refl, sym, subst}
use mathlib.Core.Logic.{inl, inr}
use mathlib.Core.Bool.{Bool, ◌||◌}
use mathlib.Core.List.{List, [], ◌∷◌, map}
use native.Mathlib.Omega.{arith}
use spendlease.Base.Tests.{if◌then◌else◌, Bool-cases}
use spendlease.Base.Lists.{any, keep, length, All}

module _ {ℓ} {A : Type ℓ} where
  unfoldable pub insert_row : (A → A → Bool) → A → List A → List A
  insert_row before x [] = x ∷ []
  insert_row before x (y ∷ ys) = if before x y then x ∷ y ∷ ys else y ∷ insert_row before x ys

  unfoldable pub sort_rows : (A → A → Bool) → List A → List A
  unfolding insert_row
  sort_rows before [] = []
  sort_rows before (x ∷ xs) = insert_row before x (sort_rows before xs)

  any-insert_row :
      (before : A → A → Bool) (p : A → Bool) (x : A) (ys : List A)
      → any p (insert_row before x ys) ≡ (p x || any p ys)
  unfolding insert_row
  any-insert_row before p x [] = refl
  any-insert_row before p x (y ∷ ys) = ground (arith, any-insert_row before p x ys)

  -- The order takes no row away, and adds none.
  pub any-sort_rows :
      (before : A → A → Bool) (p : A → Bool) (xs : List A) → any p (sort_rows before xs) ≡ any p xs
  unfolding sort_rows
  any-sort_rows before p [] = refl
  any-sort_rows before p (x ∷ xs) =
      ground (arith, any-insert_row before p x (sort_rows before xs), any-sort_rows before p xs)

module _ {A : Type 0} (before : A → A → Bool) where
  length-insert_row : (x : A) (ys : List A) → length (insert_row before x ys) ≡ length (x ∷ ys)
  unfolding insert_row
  length-insert_row x [] = refl
  length-insert_row x (y ∷ ys) = ground (arith, length-insert_row x ys)

  pub length-sort_rows : (xs : List A) → length (sort_rows before xs) ≡ length xs
  unfolding sort_rows
  length-sort_rows [] = refl
  length-sort_rows (x ∷ xs) =
      ground (arith, length-insert_row x (sort_rows before xs), length-sort_rows xs)

  count-insert_row :
      (p : A → Bool) (x : A) (ys : List A)
      → length (keep p (insert_row before x ys)) ≡ length (keep p (x ∷ ys))
  unfolding insert_row
  count-insert_row p x [] = refl
  count-insert_row p x (y ∷ ys) = ground (arith, count-insert_row p x ys)

  pub count-sort_rows :
      (p : A → Bool) (xs : List A) → length (keep p (sort_rows before xs)) ≡ length (keep p xs)
  unfolding sort_rows
  count-sort_rows p [] = refl
  count-sort_rows p (x ∷ xs) =
      ground (arith, count-insert_row p x (sort_rows before xs), count-sort_rows p xs)

  All-insert_row :
      (P : A → Type 0) (x : A) (ys : List A) → P x → All P ys → All P (insert_row before x ys)
  unfolding insert_row
  All-insert_row P x [] h hs = (h, tt)
  All-insert_row P x (y ∷ ys) h (k, ks) = elim (Bool-cases (before x y)) [
    | inl first ↦
        let same : insert_row before x (y ∷ ys) ≡ x ∷ y ∷ ys = ground arith in
        subst (All P) (sym same) (h, (k, ks))
    | inr later ↦
        let same : insert_row before x (y ∷ ys) ≡ y ∷ insert_row before x ys = ground arith in
        subst (All P) (sym same) (k, All-insert_row P x ys h ks)
  ]

  pub All-sort_rows : (P : A → Type 0) (xs : List A) → All P xs → All P (sort_rows before xs)
  unfolding sort_rows
  All-sort_rows P [] hs = tt
  All-sort_rows P (x ∷ xs) (h, hs) =
      All-insert_row P x (sort_rows before xs) h (All-sort_rows P xs hs)

pub All-map :
    {A B : Type 0} (P : B → Type 0) (f : A → B) (xs : List A)
    → ((x : A) → P (f x))
    → All P (map f xs)
All-map P f [] h = tt
All-map P f (x ∷ xs) h = (h x, All-map P f xs h)

pub length-map : {A B : Type 0} (f : A → B) (xs : List A) → length (map f xs) ≡ length xs
length-map f [] = refl
length-map f (x ∷ xs) = ground (arith, length-map f xs)
