-- ===== src/Sqlite/Migrate.antt =====
-- internal/store/sqlite/migrate.go: the order of the migrations, and each in a transaction of its own. What
-- a migration does is a parameter: `exec` runs its text on a schema, and is `none` if the database refuses.
pub mod Outcome
use spendlease.Base.{
  ℕ, Bool, true, false, not, ◌&&◌, ◌||◌, List, [], ◌∷◌, ◌++◌, Option, none, some, Bytes, codes,
  str_eq, leb, ◌==◌, any, keep, find, is_some, if◌then◌else◌, sort_rows,
}
use spendlease.Pricing.Book.Load.{ends_with}

pub record Migration : Type 0 where
  pub version : ℕ
  pub name : Bytes
  pub sql : Bytes

-- An entry of the embedded directory.
pub record EmbeddedFile : Type 0 where
  pub name : Bytes
  pub is_directory : Bool
  pub body : Bytes

-- `strings.Cut(name, "_")`: what stands before the first underscore.
unfoldable pub version_prefix : Bytes → Option Bytes
version_prefix [] = none
version_prefix (c ∷ s) =
    let rest = version_prefix s in
    if c == b'_' then some [] else elim rest [ none ↦ none | some p ↦ some (c ∷ p) ]

-- The version of a file name, by `strconv.Atoi`.
abbrev pub version_of : (Bytes → Option ℕ) → Bytes → Option ℕ
version_of atoi name = elim (version_prefix name) [ none ↦ none | some p ↦ atoi p ]

-- The loop over the entries, with the versions that were seen.
unfoldable pub read_migrations :
    (Bytes → Option ℕ) → List ℕ → List EmbeddedFile → Option (List Migration)
unfolding version_prefix ends_with
read_migrations atoi seen [] = some []
read_migrations atoi seen (e ∷ es) =
    let skipped = read_migrations atoi seen es in
    if e.is_directory || not (ends_with (codes ".sql") e.name)
    then skipped
    else elim (version_of atoi e.name) [
      | none ↦ none
      | some n ↦
          if any (λ v. v == n) seen then none else elim (read_migrations atoi (n ∷ seen) es) [
            | none ↦ none
            | some ms ↦ some (record { version = n; name = e.name; sql = e.body } ∷ ms)
          ]
    ]

unfoldable pub load_migrations : (Bytes → Option ℕ) → List EmbeddedFile → Option (List Migration)
unfolding read_migrations
load_migrations atoi es = elim (read_migrations atoi [] es) [
  | none ↦ none
  | some ms ↦ some (sort_rows (λ a b. leb a.version b.version) ms)
]

-- The schema, and the versions in schema_migrations, the newest first.
pub record Migrated (S : Type 0) : Type 0 where
  pub schema : S
  pub versions : List ℕ

module _ {S : Type 0} (exec : Bytes → S → Option S) where
  abbrev pub is_applied : Migrated S → Migration → Bool
  is_applied s m = any (λ v. v == m.version) s.versions

  -- The text and the row of its version, or neither: the version is a primary key.
  unfoldable pub apply_one : Migration → Migrated S → Option (Migrated S)
  apply_one m s = elim (exec m.sql s.schema) [
    | none ↦ none
    | some schema ↦
        if is_applied s m
        then none
        else some (record { schema = schema; versions = m.version ∷ s.versions })
  ]

  -- The loop of `migrate` over those that are not applied: the state, and whether it went through.
  unfoldable pub apply_all : (Migration → Bool) → List Migration → Migrated S → Migrated S × Bool
  unfolding apply_one
  apply_all applied [] s = (s, true)
  apply_all applied (m ∷ ms) s =
      let skipped = apply_all applied ms s in
      if applied m
      then skipped
      else elim (apply_one m s) [ none ↦ (s, false) | some s' ↦ apply_all applied ms s' ]

  -- The versions are read once, before the loop.
  unfoldable pub migrate : List Migration → Migrated S → Migrated S × Bool
  unfolding apply_all
  migrate ms s = apply_all (is_applied s) ms s
