-- ===== src/Pricing/Book/Newest.antt =====
-- book.go: which file decides a lookup.
use spendlease.Base.{
  entry_of, ℕ, ◌≤◌, ◌≡◌, refl, inl, inr, Bool, true, false, not, ◌&&◌, ◌||◌, List, [], ◌∷◌, none,
  some, Bytes, str_eq, leb, any, is_some, All, arith, all, Option-cases, Bool-cases,
}
use spendlease.Pricing.{Price}
use spendlease.Pricing.Book.{File, Model, by_alias, file_price, price_of, in_force, newest_price}
use spendlease.Pricing.Book.Load.{file_leb, insert_file, sort_files}

-- The entry has the model as its name or as an alias.
abbrev pub has_name : Bytes → Bytes × Model → Bool
has_name model entry = str_eq entry.0 model || any (λ a. str_eq a model) entry.1.aliases

-- The file has an entry for the model under the provider.
abbrev pub names : Bytes → Bytes → File → Bool
unfolding entry_of
names provider model f = elim (entry_of provider f.providers) [
  | none ↦ false
  | some p ↦ any (has_name model) p.models
]

any-has_name :
    (model : Bytes) (ms : List (Bytes × Model))
    → any (has_name model) ms ≡ is_some (entry_of model ms) || is_some (by_alias model ms)
unfolding entry_of by_alias
any-has_name model [] = refl
any-has_name model ((k, m) ∷ ms) = ground (arith, any-has_name model ms)

file_price-names :
    (provider model : Bytes) (f : File)
    → is_some (file_price provider model f) ≡ names provider model f
unfolding file_price
file_price-names provider model f = elim (Option-cases (entry_of provider f.providers)) [
  | inl e ↦ ground arith
  | inr (p, e) ↦ ground (arith, any-has_name model p.models)
]

file_price_dated :
    (provider model : Bytes) (f : File) (p : Price)
    → file_price provider model f ≡ some p
    → p.effective ≡ f.effective
unfolding file_price price_of
file_price_dated provider model f p h = ground arith

-- Each file is no later than those behind it.
abbrev pub IsDated : List File → Type 0
IsDated [] = Unit
IsDated (f ∷ fs) = All (λ g. f.effective ≤ g.effective) fs × IsDated fs

pub All-insert_file :
    (P : File → Type 0) (f : File) (gs : List File) → P f → All P gs → All P (insert_file f gs)
unfolding insert_file
All-insert_file P f [] p ps = (p, tt)
All-insert_file P f (g ∷ gs) p ps = elim (Bool-cases (file_leb f g)) [
  | inl e ↦ rw e (p, ps)
  | inr e ↦ rw e (ps.0, All-insert_file P f gs p ps.1)
]

pub All-sort_files : (P : File → Type 0) (fs : List File) → All P fs → All P (sort_files fs)
unfolding sort_files
All-sort_files P [] ps = tt
All-sort_files P (f ∷ fs) ps = All-insert_file P f (sort_files fs) ps.0 (All-sort_files P fs ps.1)

file_leb_dated : (f g : File) → file_leb f g ≡ true → f.effective ≤ g.effective
unfolding file_leb
file_leb_dated f g h = ground arith

file_leb_back : (f g : File) → file_leb f g ≡ false → g.effective ≤ f.effective
unfolding file_leb
file_leb_back f g h = ground arith

All-later :
    (n m : ℕ) (fs : List File)
    → n ≤ m
    → All (λ g. m ≤ g.effective) fs
    → All (λ g. n ≤ g.effective) fs
All-later n m [] h a = tt
All-later n m (f ∷ fs) h a = (omega (arith, a.0), All-later n m fs h a.1)

insert_file-IsDated : (f : File) (gs : List File) → IsDated gs → IsDated (insert_file f gs)
unfolding insert_file
insert_file-IsDated f [] d = (tt, tt)
insert_file-IsDated f (g ∷ gs) d = elim (Bool-cases (file_leb f g)) [
  | inl e ↦
      let below = file_leb_dated f g e in
      rw e ((below, All-later f.effective g.effective gs below d.0), d)
  | inr e ↦ rw e (
    All-insert_file (λ h. g.effective ≤ h.effective) f gs (file_leb_back f g e) d.0,
    insert_file-IsDated f gs d.1,
  )
]

pub sort_files-IsDated : (fs : List File) → IsDated (sort_files fs)
unfolding sort_files
sort_files-IsDated [] = tt
sort_files-IsDated (f ∷ fs) = insert_file-IsDated f (sort_files fs) (sort_files-IsDated fs)

newest_price_from :
    (provider model : Bytes) (at n : ℕ) (fs : List File) (p : Price)
    → All (λ g. n ≤ g.effective) fs
    → newest_price provider model at fs ≡ some p
    → n ≤ p.effective
unfolding newest_price
newest_price_from provider model at n [] p a h = cc
newest_price_from provider model at n (f ∷ fs) p a h =
    ground (arith, newest_price_from provider model at n fs p, file_price_dated provider model f p)

-- What a price that is dated `n` may hide: nothing newer that is in force and has the model.
abbrev pub IsNewest : Bytes → Bytes → ℕ → ℕ → List File → Type 0
IsNewest provider model at n fs =
    all (λ f. not (in_force at f && names provider model f) || leb f.effective n) fs ≡ true

newest_price-none :
    (provider model : Bytes) (at n : ℕ) (fs : List File)
    → newest_price provider model at fs ≡ none
    → IsNewest provider model at n fs
unfolding newest_price
newest_price-none provider model at n [] h = refl
newest_price-none provider model at n (f ∷ fs) h =
    let rest = newest_price-none provider model at n fs (ground arith) in
    ground (arith, file_price-names provider model f)

pub newest_price-IsNewest :
    (provider model : Bytes) (at : ℕ) (fs : List File) (p : Price)
    → IsDated fs
    → newest_price provider model at fs ≡ some p
    → (p.effective ≤ at) × IsNewest provider model at p.effective fs
unfolding newest_price
newest_price-IsNewest provider model at [] p d h = absurd (cc h)
newest_price-IsNewest provider model at (f ∷ fs) p d h =
    elim (Option-cases (newest_price provider model at fs)) [
      | inl e ↦
          let dated = file_price_dated provider model f p (ground arith) in
          let rest = newest_price-none provider model at p.effective fs e in
          (ground arith, ground arith)
      | inr (q, e) ↦
          let same : newest_price provider model at fs ≡ some p = ground arith in
          let (i, newest) = newest_price-IsNewest provider model at fs p d.1 same in
          let below = newest_price_from provider model at f.effective fs p d.0 same in
          (i, ground arith)
    ]
