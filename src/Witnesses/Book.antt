-- ===== src/Witnesses/Book.antt =====
-- The theorems on the price book, at a directory with two files.
use spendlease.Base.{
  ℕ, ◌≤◌, ◌≡◌, refl, false, List, [], ◌∷◌, Option, some, none, Bytes, codes, str_eq, str_leb,
  entry_of,
}
use spendlease.Base.Int.{pos}
use spendlease.Money.{trim_space, trim_left, trim_end}
use spendlease.Pricing.{Price}
use spendlease.Pricing.Book.{
  Book, File, Model, Provider, default_fallback, validate_file, validate_provider, validate_model,
  has_rate, first_error, nonzero_rate, rate_or, price_of, by_alias, file_price, newest_price,
  lookup_known,
}
use spendlease.Pricing.Book.Load.{
  Decoder, DirEntry, ends_with, read_file, read_dir, file_leb, insert_file, sort_files, reload,
}
use spendlease.Pricing.Book.Newest.{IsNewest}
use spendlease.Pricing.Book.Reload.{lookup_known-IsNewest}

abbrev pub gpt : Model
gpt = record {
  input_per_1m = pos 1000000000;
  output_per_1m = pos 2000000000;
  cached_input_per_1m = none;
  cache_write_5m_per_1m = none;
  cache_write_1h_per_1m = none;
  long_context_threshold = pos 0;
  long_input_per_1m = none;
  long_cached_input_per_1m = none;
  long_cache_write_per_1m = none;
  long_output_per_1m = none;
  free = false;
  default_max_tokens = pos 100;
  aliases = codes "gpt-latest" ∷ [];
  note = [];
}

abbrev vendor : Model → Provider
vendor m = record { source = codes "https://vendor"; models = (codes "gpt", m) ∷ [] }

abbrev parsed_file : ℕ → Model → File
parsed_file effective m = record {
  version = pos 1;
  effective = effective;
  verified = 0;
  providers = (codes "openai", vendor m) ∷ [];
  name = [];
  digest = [];
}

-- A document is one byte: the date on which its prices take effect.
abbrev parse_date : Bytes → Option File
parse_date [] = none
parse_date (c ∷ _) = some (parsed_file c gpt)

abbrev pub decoder : Decoder
decoder = record { parse_yaml = parse_date; digest = λ b. b }

abbrev two_documents : List DirEntry
two_documents =
    record { name = codes "b.yaml"; is_dir = false; content = some (7 ∷ []) }
    ∷ record { name = codes "a.yml"; is_dir = false; content = some (3 ∷ []) }
    ∷ record { name = codes "README"; is_dir = false; content = none }
    ∷ []

abbrev no_book : Book
no_book = record {
  snapshot = none;
  opts = record { fallback = default_fallback; disable_fallback = false };
}

abbrev loaded_files : List File
loaded_files =
    record (parsed_file 3 gpt) { name = codes "a.yml"; digest = 3 ∷ [] }
    ∷ record (parsed_file 7 gpt) { name = codes "b.yaml"; digest = 7 ∷ [] }
    ∷ []

abbrev pub book : Book
book = record no_book { snapshot = some (record { files = loaded_files; loaded_at = 9 }) }

reloaded : reload decoder (some two_documents) 9 no_book ≡ (book, none)
unfolding reload read_dir read_file ends_with str_eq validate_file validate_provider validate_model
    has_rate first_error nonzero_rate sort_files insert_file file_leb str_leb trim_space trim_left
    trim_end
reloaded = refl

abbrev gpt_price : ℕ → Price
unfolding rate_or price_of
gpt_price at =
    price_of (codes "openai") (codes "gpt") gpt (parsed_file at gpt) (codes "https://vendor")

found_alias : lookup_known book (codes "openai") (codes "gpt-latest") 8 ≡ some (gpt_price 7)
unfolding lookup_known newest_price file_price entry_of by_alias price_of str_eq rate_or
found_alias = refl

lookup_known-IsNewest_example :
    ((gpt_price 7).effective ≤ 8) × IsNewest (codes "openai") (codes "gpt-latest") 8 7 loaded_files
unfolding price_of
lookup_known-IsNewest_example =
    lookup_known-IsNewest decoder (some two_documents) 9 8 no_book book (codes "openai")
      (codes "gpt-latest") (gpt_price 7) reloaded found_alias
