-- ===== src/Pricing/Book/Load.antt =====
-- book.go: reading the files of a directory, replacing the snapshot, and the listings over it.
use spendlease.Base.{
  entry_of, ℕ, suc, Bool, true, not, ◌&&◌, ◌||◌, List, [], ◌∷◌, ◌++◌, Option, none, some, Bytes,
  codes, str_eq, str_leb, ltb, ◌==◌, if◌then◌else◌, length, any, ◌⊎◌, inl, inr,
}
use spendlease.Base.Int.{pos, eq_ℤ}
use spendlease.Billing.{sort_strings}
use spendlease.Pricing.{Price}
use spendlease.Pricing.Book.{
  BookError, unreadable, unparsable, no_prices, File, Fallback, default_fallback, Options, Book,
  validate_file, in_force, lookup_known,
}

-- What the book takes from outside the repository: the YAML decoder and SHA-256 in hexadecimal.
pub record Decoder : Type 0 where
  pub parse_yaml : Bytes → Option File
  pub digest : Bytes → Bytes

-- One entry of the directory; a file that cannot be read has no content.
pub record DirEntry : Type 0 where
  pub name : Bytes
  pub is_dir : Bool
  pub content : Option Bytes

-- `strings.HasSuffix`, the suffix first.
unfoldable pub ends_with : Bytes → Bytes → Bool
ends_with suffix [] = str_eq [] suffix
ends_with suffix (c ∷ s) = str_eq (c ∷ s) suffix || ends_with suffix s

abbrev pub is_price_file : DirEntry → Bool
unfolding ends_with
is_price_file e =
    not e.is_dir && (ends_with (codes ".yaml") e.name || ends_with (codes ".yml") e.name)

unfoldable pub read_file : Decoder → DirEntry → BookError ⊎ File
read_file d e = elim e.content [
  | none ↦ inl unreadable
  | some raw ↦ elim (d.parse_yaml raw) [
    | none ↦ inl unparsable
    | some parsed ↦
        let f = record parsed { name = e.name; digest = d.digest raw } in
        elim (validate_file f) [ some invalid ↦ inl invalid | none ↦ inr f ]
  ]
]

unfoldable pub read_dir : Decoder → List DirEntry → BookError ⊎ List File
unfolding read_file
read_dir d [] = inr []
read_dir d (e ∷ es) =
    let rest = read_dir d es in
    if not (is_price_file e) then rest else elim (read_file d e) [
      | inl failed ↦ inl failed
      | inr f ↦ elim rest [ inl failed ↦ inl failed | inr fs ↦ inr (f ∷ fs) ]
    ]

-- The order of the files: by date, and by name on one date.
unfoldable pub file_leb : File → File → Bool
file_leb f g =
    if f.effective == g.effective then str_leb f.name g.name else ltb f.effective g.effective

unfoldable pub insert_file : File → List File → List File
insert_file f [] = f ∷ []
insert_file f (g ∷ gs) = if file_leb f g then f ∷ g ∷ gs else g ∷ insert_file f gs

unfoldable pub sort_files : List File → List File
unfolding insert_file file_leb
sort_files [] = []
sort_files (f ∷ fs) = insert_file f (sort_files fs)

-- The book after the call, and the error; `dir` is none when the directory cannot be listed.
unfoldable pub reload : Decoder → Option (List DirEntry) → ℕ → Book → Book × Option BookError
unfolding read_dir sort_files
reload d dir now b = elim dir [
  | none ↦ (b, some unreadable)
  | some entries ↦ elim (read_dir d entries) [
    | inl failed ↦ (b, some failed)
    | inr files ↦ if length files == 0 then (b, some no_prices) else (
      record b { snapshot = some (record { files = sort_files files; loaded_at = now }) },
      none,
    )
  ]
]

-- `opts.Fallback == (Fallback{})`
abbrev pub is_zero_fallback : Fallback → Bool
is_zero_fallback f =
    eq_ℤ f.input_per_1m (pos 0) && eq_ℤ f.output_per_1m (pos 0) && eq_ℤ f.default_max_tokens (pos 0)

unfoldable pub load : Decoder → Option (List DirEntry) → ℕ → Options → BookError ⊎ Book
unfolding reload
load d dir now o =
    let o' = if is_zero_fallback o.fallback then record o { fallback = default_fallback } else o in
    let (b, failed) = reload d dir now (record { snapshot = none; opts = o' }) in
    elim failed [ some e ↦ inl e | none ↦ inr b ]

-- `seen[name] = true`
unfoldable pub add_name : Bytes → List Bytes → List Bytes
add_name k ks = if any (λ j. str_eq j k) ks then ks else k ∷ ks

unfoldable pub add_keys {ℓ} : {A : Type ℓ} → List (Bytes × A) → List Bytes → List Bytes
unfolding add_name
add_keys [] seen = seen
add_keys ((k, _) ∷ rest) seen = add_name k (add_keys rest seen)

unfoldable pub models_seen : Bytes → ℕ → List File → List Bytes
unfolding add_keys entry_of
models_seen provider at [] = []
models_seen provider at (f ∷ fs) =
    let rest = models_seen provider at fs in
    if in_force at f
    then elim (entry_of provider f.providers) [ none ↦ rest | some p ↦ add_keys p.models rest ]
    else rest

abbrev pub files_of : Book → List File
files_of b = elim b.snapshot [ none ↦ [] | some snap ↦ snap.files ]

unfoldable pub models : Book → Bytes → ℕ → List Bytes
unfolding models_seen sort_strings
models b provider at = sort_strings (models_seen provider at (files_of b))

unfoldable pub providers_seen : (File → Bool) → List File → List Bytes
unfolding add_keys
providers_seen p [] = []
providers_seen p (f ∷ fs) =
    let rest = providers_seen p fs in if p f then add_keys f.providers rest else rest

unfoldable pub providers : Book → List Bytes
unfolding providers_seen sort_strings
providers b = sort_strings (providers_seen (λ _. true) (files_of b))

-- The models of one provider that have a price.
unfoldable pub entries_of : Book → Bytes → ℕ → List Bytes → List Price
unfolding lookup_known
entries_of b provider at [] = []
entries_of b provider at (model ∷ ms) =
    let rest = entries_of b provider at ms in
    elim (lookup_known b provider model at) [ none ↦ rest | some p ↦ p ∷ rest ]

unfoldable pub entries_from : Book → ℕ → List Bytes → List Price
unfolding entries_of models
entries_from b at [] = []
entries_from b at (p ∷ ps) = entries_of b p at (models b p at) ++ entries_from b at ps

unfoldable pub entries : Book → ℕ → List Price
unfolding entries_from providers
entries b at = entries_from b at (providers b)

pub record Metadata : Type 0 where
  pub revision : Bytes
  pub loaded_at : ℕ
  pub latest_effective : ℕ
  pub oldest_verified : ℕ
  pub unverified_models : ℕ
  pub future_verified_models : ℕ
  pub providers : ℕ
  pub models : ℕ

-- What is hashed: the name and the digest of each file in force, each with a zero byte after it.
unfoldable pub revision_text : ℕ → List File → Bytes
revision_text at [] = []
revision_text at (f ∷ fs) =
    let rest = revision_text at fs in
    if in_force at f then f.name ++ (0 ∷ (f.digest ++ (0 ∷ rest))) else rest

unfoldable pub latest_effective : ℕ → List File → ℕ → ℕ
latest_effective at [] latest = latest
latest_effective at (f ∷ fs) latest =
    latest_effective at fs (if in_force at f && ltb latest f.effective then f.effective else latest)

-- The counts over the active entries, one entry after the other.
unfoldable pub count_entries : ℕ → List Price → Metadata → Metadata
count_entries at [] m = m
count_entries at (e ∷ es) m =
    let older = m.oldest_verified == 0 || ltb e.verified m.oldest_verified in
    let counted =
      if e.verified == 0
      then record m { models = suc m.models; unverified_models = suc m.unverified_models }
      else record m {
        models = suc m.models;
        future_verified_models =
            if ltb at e.verified then suc m.future_verified_models else m.future_verified_models;
        oldest_verified = if older then e.verified else m.oldest_verified;
      } in
    count_entries at es counted

abbrev no_metadata : Metadata
no_metadata = record {
  revision = [];
  loaded_at = 0;
  latest_effective = 0;
  oldest_verified = 0;
  unverified_models = 0;
  future_verified_models = 0;
  providers = 0;
  models = 0;
}

unfoldable pub metadata : (Bytes → Bytes) → Book → ℕ → Metadata
unfolding revision_text latest_effective count_entries providers_seen entries
metadata digest b at = elim b.snapshot [
  | none ↦ no_metadata
  | some snap ↦ count_entries at (entries b at) (record no_metadata {
    revision = digest (revision_text at snap.files);
    loaded_at = snap.loaded_at;
    latest_effective = latest_effective at snap.files 0;
    providers = length (providers_seen (in_force at) snap.files);
  })
]
