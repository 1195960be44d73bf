-- ===== src/Keysource.antt =====
-- internal/keysource/keysource.go, with ParseMasterKey of internal/vault/vault.go: where a master key comes
-- from. Reading the environment, files, the output of a command, a JSON array and hexadecimal are parameters.
pub mod Output
pub mod Whole
use spendlease.Base.{
  ℕ, zero, suc, ◌-◌, Bool, true, false, not, ◌&&◌, ◌||◌, List, [], ◌∷◌, ◌++◌, Option, none, some,
  Bytes, codes, ltb, leb, ◌==◌, length, if◌then◌else◌,
}
use spendlease.Money.{trim_space}
use spendlease.Store.{is_empty}

abbrev pub max_source_bytes : ℕ
max_source_bytes = 4096

abbrev pub key_size : ℕ
key_size = 32

pub record Spec : Type 0 where
  pub value_env : Bytes
  pub file_env : Bytes
  pub command_env : Bytes
  pub required : Bool

pub data Kind : Type 0 where
  environment file command : Kind

pub record ConfiguredSource : Type 0 where
  pub kind : Kind
  pub name : Bytes
  pub value : Bytes

-- A command gives the blocks that it writes, and whether it exits without an error.
pub record Resolver : Type 0 where
  pub lookup_env : Bytes → Option Bytes
  pub file_contents : Bytes → Option Bytes
  pub decode_argv : Bytes → Option (List Bytes)
  pub run : List Bytes → List Bytes × Bool
  pub unhex : Bytes → Option Bytes
  pub base_name : Bytes → Bytes

-- The first bytes of a text.
unfoldable pub first_bytes : ℕ → Bytes → Bytes
first_bytes zero s = []
first_bytes (suc n) [] = []
first_bytes (suc n) (c ∷ s) = c ∷ first_bytes n s

-- `readLimitedFile`, of the contents of the file.
abbrev pub read_limited_file : Option Bytes → Option Bytes
read_limited_file none = none
read_limited_file (some s) = some (first_bytes 4097 s)

pub record LimitedBuffer : Type 0 where
  pub buf : Bytes
  pub overflow : Bool

-- `Write`: what is left of the limit is kept, and the rest is noted.
unfoldable pub write : ℕ → LimitedBuffer → Bytes → LimitedBuffer
unfolding first_bytes
write limit b p =
    let remaining = limit - length b.buf in
    let kept = if ltb 0 remaining then b.buf ++ first_bytes remaining p else b.buf in
    record { buf = kept; overflow = b.overflow || ltb remaining (length p) }

-- The writes of a process, one after the other.
unfoldable pub write_all : ℕ → LimitedBuffer → List Bytes → LimitedBuffer
unfolding write
write_all limit b [] = b
write_all limit b (p ∷ ps) = write_all limit (write limit b p) ps

unfoldable pub run_command : List Bytes × Bool → Option Bytes
unfolding write_all
run_command (chunks, exited) =
    let b = write_all max_source_bytes (record { buf = []; overflow = false }) chunks in
    if not exited then none else if b.overflow then none else some b.buf

unfoldable pub parse_command : Resolver → Bytes → Option (List Bytes)
parse_command r raw = elim (r.decode_argv raw) [
  | none ↦ none
  | some argv ↦ elim argv [
    | [] ↦ none
    | name ∷ args ↦ if is_empty (trim_space name) then none else some (name ∷ args)
  ]
]

unfoldable pub parse_master_key : Resolver → Bytes → Option Bytes
parse_master_key r s = elim (r.unhex s) [
  | none ↦ none
  | some k ↦ if length k == key_size then some k else none
]

-- The loop over the three sources of a key: those whose value is not blank.
unfoldable pub configured_from : Resolver → List (Kind × Bytes) → List ConfiguredSource
configured_from r [] = []
configured_from r ((kind, name) ∷ sources) =
    let rest = configured_from r sources in
    elim (r.lookup_env name) [
      | none ↦ rest
      | some v ↦
          if is_empty (trim_space v)
          then rest
          else record { kind = kind; name = name; value = trim_space v } ∷ rest
    ]

unfoldable pub configured : Resolver → Spec → List ConfiguredSource
unfolding configured_from
configured r s =
    configured_from r
      ((environment, s.value_env) ∷ (file, s.file_env) ∷ (command, s.command_env) ∷ [])

-- The bytes of a source, and the description of it.
unfoldable pub read_source : Resolver → ConfiguredSource → Option (Bytes × Bytes)
unfolding run_command parse_command
read_source r src = elim src.kind [
  | environment ↦ some (src.value, codes "environment " ++ src.name)
  | file ↦ elim (read_limited_file (r.file_contents src.value)) [
    | none ↦ none
    | some raw ↦ some (raw, codes "file " ++ src.value)
  ]
  | command ↦ elim (parse_command r src.value) [
    | none ↦ none
    | some argv ↦ elim (run_command (r.run argv)) [
      | none ↦ none
      | some raw ↦
          some (raw, codes "command " ++ elim argv [ [] ↦ [] | name ∷ args ↦ r.base_name name ])
    ]
  ]
]

pub data Resolved : Type 0 where
  failed absent : Resolved
  present : Bytes → Bytes → Resolved

unfoldable pub parse_source : Resolver → Bytes → Bytes → Resolved
unfolding parse_master_key
parse_source r raw description =
    if ltb max_source_bytes (length raw)
    then failed
    else elim (parse_master_key r (trim_space raw)) [
      | none ↦ failed
      | some k ↦ present k description
    ]

-- `Resolve`
unfoldable pub resolve_key : Resolver → Spec → Resolved
unfolding configured read_source parse_source
resolve_key r spec = elim (configured r spec) [
  | [] ↦ if spec.required then failed else absent
  | src ∷ more ↦ elim more [
    | _ ∷ _ ↦ failed
    | [] ↦ elim (read_source r src) [
      | none ↦ failed
      | some (raw, description) ↦ parse_source r raw description
    ]
  ]
]
