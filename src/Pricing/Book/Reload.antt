-- ===== src/Pricing/Book/Reload.antt =====
-- book.go: what a reload leaves behind, and the lookups after it.
use mathlib.Core.Path.{subst}
use spendlease.Base.{
  ℕ, suc, ◌≤◌, ◌≡◌, ◌≢◌, refl, sym, ap, ◌∙◌, ◌⊎◌, inl, inr, List, [], ◌∷◌, Option, none, some,
  Bytes, ◌==◌, All, arith, Option-cases, sum_cases, Bool-cases, length,
}
use spendlease.Pricing.{Price}
use spendlease.Pricing.Book.{
  File, Book, BookError, unreadable, no_prices, newest_price, Snapshot, validate_file, lookup_known,
}
use spendlease.Pricing.Book.Load.{
  Decoder, DirEntry, read_file, read_dir, insert_file, sort_files, reload, files_of, is_price_file,
}
use spendlease.Pricing.Book.Newest.{
  All-sort_files, IsDated, sort_files-IsDated, IsNewest, newest_price-IsNewest,
}

read_file-IsValid :
    (d : Decoder) (e : DirEntry) (f : File) → read_file d e ≡ inr f → validate_file f ≡ none
unfolding read_file
read_file-IsValid d e f h = elim (Option-cases e.content) [
  | inl c ↦ absurd (ground arith)
  | inr (raw, c) ↦ elim (Option-cases (d.parse_yaml raw)) [
    | inl y ↦ absurd (ground arith)
    | inr (parsed, y) ↦
        elim (Option-cases
          (validate_file (record parsed { name = e.name; digest = d.digest raw }))) [
            | inl v ↦ ground arith
            | inr (x, v) ↦ absurd (ground arith)
          ]
  ]
]

abbrev pub IsValid : File → Type 0
IsValid f = validate_file f ≡ none

read_dir-IsValid :
    (d : Decoder) (es : List DirEntry) (fs : List File) → read_dir d es ≡ inr fs → All IsValid fs
unfolding read_dir
read_dir-IsValid d [] [] h = tt
read_dir-IsValid d [] (f ∷ fs) h = absurd (cc h)
read_dir-IsValid d (e ∷ es) [] h = tt
read_dir-IsValid d (e ∷ es) (f ∷ fs) h = elim (Bool-cases (is_price_file e)) [
  | inr skipped ↦ read_dir-IsValid d es (f ∷ fs) (ground arith)
  | inl taken ↦ elim (sum_cases (read_file d e)) [
    | inl (x, failed) ↦ absurd (ground arith)
    | inr (g, read) ↦ elim (sum_cases (read_dir d es)) [
      | inl (x, failed) ↦ absurd (ground arith)
      | inr (gs, rest) ↦
          (ground (arith, read_file-IsValid d e g), read_dir-IsValid d es fs (ground arith))
    ]
  ]
]

length-insert_file : (f : File) (gs : List File) → length (insert_file f gs) ≡ suc (length gs)
unfolding insert_file
length-insert_file f [] = refl
length-insert_file f (g ∷ gs) = ground (arith, length-insert_file f gs)

length-sort_files : (fs : List File) → length (sort_files fs) ≡ length fs
unfolding sort_files
length-sort_files [] = refl
length-sort_files (f ∷ fs) = length-insert_file f (sort_files fs) ∙ ap suc (length-sort_files fs)

-- The files of a snapshot: some, in the order of their dates, and each one valid.
abbrev pub IsLoaded : List File → Type 0
IsLoaded fs = (length fs ≢ 0) × IsDated fs × All IsValid fs

sort_files-IsLoaded : (fs : List File) → length fs ≢ 0 → All IsValid fs → IsLoaded (sort_files fs)
sort_files-IsLoaded fs some_files valid =
    (ground (arith, length-sort_files fs), sort_files-IsDated fs, All-sort_files IsValid fs valid)

-- A Reload either reports an error and leaves the book as it was, or reports none and replaces
-- the snapshot by at least one file, all of them valid and in the order of their dates, loaded at
-- the instant of the call; the options stay.
pub reload_outcome :
    (d : Decoder) (dir : Option (List DirEntry)) (now : ℕ) (b : Book)
    → ((e : BookError) × (reload d dir now b ≡ (b, some e)))
      ⊎ ((snap : Snapshot) × (reload d dir now b ≡ (record b { snapshot = some snap }, none))
          × IsLoaded snap.files
          × (snap.loaded_at ≡ now))
unfolding reload
reload_outcome d dir now b = elim (Option-cases dir) [
  | inl none_read ↦ inl (unreadable, rw none_read refl)
  | inr (es, listed) ↦ elim (sum_cases (read_dir d es)) [
    | inl (x, failed) ↦ inl (x, ground arith)
    | inr (fs, read) ↦ elim (Bool-cases (length fs == 0)) [
      | inl no_files ↦ inl (no_prices, ground arith)
      | inr some_files ↦ inr (
        record { files = sort_files fs; loaded_at = now },
        ground arith,
        sort_files-IsLoaded fs (ground arith) (read_dir-IsValid d es fs read),
        refl,
      )
    ]
  ]
]

-- The files of a book after a reload without an error.
pub reload-IsLoaded :
    (d : Decoder) (dir : Option (List DirEntry)) (now : ℕ) (b c : Book)
    → reload d dir now b ≡ (c, none)
    → IsLoaded (files_of c)
reload-IsLoaded d dir now b c h = elim (reload_outcome d dir now b) [
  | inl (e, failed) ↦ absurd (ground arith)
  | inr (snap, same, valid, _) ↦
      subst (λ x. IsLoaded (files_of x)) (ap (λ x. x.0) (sym same ∙ h)) valid
]

pub lookup_files :
    (b : Book) (provider model : Bytes) (at : ℕ)
    → lookup_known b provider model at ≡ newest_price provider model at (files_of b)
unfolding lookup_known newest_price
lookup_files b provider model at = ground arith

-- A price that LookupKnown finds in a book after a Reload without an error took effect no later
-- than the instant asked for, and no file in force at that instant that names the model, exactly
-- or by an alias, is dated later.
pub lookup_known-IsNewest :
    (d : Decoder) (dir : Option (List DirEntry)) (now at : ℕ) (b c : Book) (provider model : Bytes)
    (p : Price)
    → reload d dir now b ≡ (c, none)
    → lookup_known c provider model at ≡ some p
    → (p.effective ≤ at) × IsNewest provider model at p.effective (files_of c)
lookup_known-IsNewest d dir now at b c provider model p h k =
    let (_, dated, _) = reload-IsLoaded d dir now b c h in
    newest_price-IsNewest provider model at (files_of c) p dated
      (sym (lookup_files c provider model at) ∙ k)
