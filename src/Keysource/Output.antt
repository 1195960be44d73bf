-- ===== src/Keysource/Output.antt =====
-- keysource.go: the output of a command is kept whole, or the command fails.
use mathlib.Core.List.{append_assoc}
use spendlease.Base.{
  append_nil, joined, ℕ, zero, suc, ◌-◌, ◌≤◌, ◌<◌, ◌≡◌, refl, sym, ap, ◌∙◌, Bool, not, ◌&&◌, List,
  [], ◌∷◌, ◌++◌, none, some, Bytes, ltb, leb, length, if◌then◌else◌, arith, inl, inr, Bool-cases,
  length-append,
}
use spendlease.Keysource.{
  first_bytes, LimitedBuffer, write, write_all, run_command, max_source_bytes,
}

first_bytes-append :
    (n : ℕ) (s t : Bytes)
    → first_bytes n (s ++ t) ≡ first_bytes n s ++ first_bytes (n - length (first_bytes n s)) t
unfolding first_bytes
first_bytes-append zero s t = refl
first_bytes-append (suc n) [] t = ground arith
first_bytes-append (suc n) (c ∷ s) t = ground (arith, first_bytes-append n s t)

first_bytes_none : (s : Bytes) → first_bytes 0 s ≡ []
unfolding first_bytes
first_bytes_none s = refl

length-first_bytes :
    (n : ℕ) (s : Bytes) → length (first_bytes n s) ≡ (if ltb n (length s) then n else length s)
unfolding first_bytes
length-first_bytes zero [] = refl
length-first_bytes zero (c ∷ s) = ground arith
length-first_bytes (suc n) [] = ground arith
length-first_bytes (suc n) (c ∷ s) = ground (arith, length-first_bytes n s)

first_bytes_whole : (n : ℕ) (s : Bytes) → length s ≤ n → first_bytes n s ≡ s
unfolding first_bytes
first_bytes_whole zero [] h = refl
first_bytes_whole zero (c ∷ s) h = absurd (omega arith)
first_bytes_whole (suc n) [] h = refl
first_bytes_whole (suc n) (c ∷ s) h = ground (arith, first_bytes_whole n s)

-- A prefix that is shorter than its bound is the whole text.
pub first_bytes_short : (n : ℕ) (s : Bytes) → length (first_bytes n s) < n → first_bytes n s ≡ s
first_bytes_short n s h = ground (arith, first_bytes_whole n s, length-first_bytes n s)

-- The buffer after some bytes were written.
abbrev after : ℕ → Bytes → LimitedBuffer
after limit s = record { buf = first_bytes limit s; overflow = ltb limit (length s) }

same_buffer : (a b : LimitedBuffer) → a.buf ≡ b.buf → a.overflow ≡ b.overflow → a ≡ b
same_buffer a b h k = ground arith

write_buf :
    (limit : ℕ) (s p : Bytes) → (write limit (after limit s) p).buf ≡ first_bytes limit (s ++ p)
unfolding write
write_buf limit s p =
    let parts = first_bytes-append limit s p in
    elim (Bool-cases (ltb 0 (limit - length (first_bytes limit s)))) [
      | inl room ↦ ground arith
      | inr full ↦
          let none_left : limit - length (first_bytes limit s) ≡ 0 = ground arith in
          let nothing : first_bytes (limit - length (first_bytes limit s)) p ≡ [] =
            ap (λ n. first_bytes n p) none_left ∙ first_bytes_none p in
          ground (arith, append_nil (first_bytes limit s))
    ]

write_overflow :
    (limit : ℕ) (s p : Bytes)
    → (write limit (after limit s) p).overflow ≡ ltb limit (length (s ++ p))
unfolding write
write_overflow limit s p =
    let total = length-append s p in
    let kept = length-first_bytes limit s in
    elim (Bool-cases (ltb limit (length s))) [ inl over ↦ ground arith | inr fits ↦ ground arith ]

write-after : (limit : ℕ) (s p : Bytes) → write limit (after limit s) p ≡ after limit (s ++ p)
write-after limit s p =
    same_buffer (write limit (after limit s) p) (after limit (s ++ p)) (write_buf limit s p)
      (write_overflow limit s p)

write_all-after :
    (limit : ℕ) (s : Bytes) (ps : List Bytes)
    → write_all limit (after limit s) ps ≡ after limit (s ++ joined ps)
unfolding write_all
write_all-after limit s [] = ap (after limit) (sym (append_nil s))
write_all-after limit s (p ∷ ps) =
    ap (λ b. write_all limit b ps) (write-after limit s p)
    ∙ write_all-after limit (s ++ p) ps
    ∙ ap (after limit) (append_assoc s p (joined ps))

kept_output :
    (limit : ℕ) (s : Bytes) (exited : Bool)
    → (if not exited
        then none
        else if ltb limit (length s)
        then none
        else some (first_bytes limit s))
      ≡ (if exited && leb (length s) limit then some s else none)
kept_output limit s exited = elim (Bool-cases (leb (length s) limit)) [
  | inl fits ↦ let whole = first_bytes_whole limit s (ground arith) in ground arith
  | inr over ↦ ground arith
]

pub run_command_output :
    (chunks : List Bytes) (exited : Bool)
    → run_command (chunks, exited) ≡ (
        if exited && leb (length (joined chunks)) max_source_bytes
        then some (joined chunks)
        else none)
unfolding run_command first_bytes
run_command_output chunks exited =
    ap (λ (b : LimitedBuffer). if not exited then none else if b.overflow then none else some b.buf)
      (write_all-after max_source_bytes [] chunks)
    ∙ kept_output max_source_bytes (joined chunks) exited
