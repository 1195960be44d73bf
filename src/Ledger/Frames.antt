-- ===== src/Ledger/Frames.antt =====
-- The length prefixes of `ComputeHash`: the bytes that are hashed determine the fields.
use spendlease.Base.{
  ℕ, ◌≡◌, ◌≢◌, refl, sym, ◌∙◌, true, List, [], ◌∷◌, ◌++◌, arith, Bytes, length, all,
}
use spendlease.Base.Decimal.{format_nat, format_nat_inj, all-format_nat, is_digit}
use spendlease.Ledger.{frame, frames}
use mathlib.Core.List.{append_assoc}

-- Two runs of digits that end at a colon, and what follows it.
split_colon :
    (a b x y : Bytes)
    → all is_digit a ≡ true
    → all is_digit b ≡ true
    → a ++ (b':' ∷ x) ≡ b ++ (b':' ∷ y)
    → (a ≡ b) × (x ≡ y)
split_colon [] [] x y p q h = (refl, ground arith)
split_colon [] (d ∷ b) x y p q h = ground arith
split_colon (c ∷ a) [] x y p q h = ground arith
split_colon (c ∷ a) (d ∷ b) x y p q h = ground (arith, split_colon a b x y)

-- Texts of one length, and what follows them.
split_length : (a b x y : Bytes) → length a ≡ length b → a ++ x ≡ b ++ y → (a ≡ b) × (x ≡ y)
split_length [] [] x y l h = (refl, h)
split_length [] (d ∷ b) x y l h = absurd (omega arith)
split_length (c ∷ a) [] x y l h = absurd (omega arith)
split_length (c ∷ a) (d ∷ b) x y l h = ground (arith, split_length a b x y)

frame-append : (s r : Bytes) → frame s ++ r ≡ format_nat (length s) ++ (b':' ∷ (s ++ r))
unfolding frame
frame-append s r = append_assoc (format_nat (length s)) (b':' ∷ s) r

frame_inj : (s t x y : Bytes) → frame s ++ x ≡ frame t ++ y → (s ≡ t) × (x ≡ y)
frame_inj s t x y h =
    let digits =
      split_colon (format_nat (length s)) (format_nat (length t)) (s ++ x) (t ++ y)
        (all-format_nat (length s)) (all-format_nat (length t))
        (cc (frame-append s x, frame-append t y)) in
    split_length s t x y (format_nat_inj (length s) (length t) digits.0) digits.1

append-ne-nil : (a y : Bytes) (c : ℕ) → a ++ (c ∷ y) ≢ []
append-ne-nil [] y c h = ground arith
append-ne-nil (d ∷ a) y c h = ground arith

frame-ne-nil : (s x : Bytes) → frame s ++ x ≢ []
frame-ne-nil s x h =
    append-ne-nil (format_nat (length s)) (s ++ x) b':' (sym (frame-append s x) ∙ h)

-- The bytes that ComputeHash writes determine its fields: two lists of fields with the same
-- framed bytes are equal.
pub frames_inj : (xs ys : List Bytes) → frames xs ≡ frames ys → xs ≡ ys
unfolding frames
frames_inj [] [] h = refl
frames_inj [] (y ∷ ys) h = absurd (frame-ne-nil y (frames ys) (sym h))
frames_inj (x ∷ xs) [] h = absurd (frame-ne-nil x (frames xs) h)
frames_inj (x ∷ xs) (y ∷ ys) h =
    let (same, rest) = frame_inj x y (frames xs) (frames ys) h in cc (frames_inj xs ys rest)
