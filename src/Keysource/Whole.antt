-- ===== src/Keysource/Whole.antt =====
-- keysource.go: a key is read from the only source that is set, and from all that the source holds.
use mathlib.Core.Path.{subst}
use spendlease.Base.{
  ◌≤◌, ◌<◌, ◌≡◌, refl, sym, ap, ◌∙◌, inl, inr, Bool, List, [], ◌∷◌, Option, none, some, Bytes,
  length, if◌then◌else◌, arith, Option-cases, joined,
}
use spendlease.Money.{trim_space}
use spendlease.Keysource.{
  Spec, Kind, environment, file, command, ConfiguredSource, Resolver, Resolved, failed, present,
  first_bytes, read_limited_file, run_command, parse_command, parse_master_key, configured,
  read_source, parse_source, resolve_key, max_source_bytes, key_size,
}
use spendlease.Keysource.Output.{first_bytes_short, run_command_output}

-- All that a source holds: nothing is cut off.
abbrev pub whole_output : Resolver → ConfiguredSource → Option Bytes
whole_output r src = elim src.kind [
  | environment ↦ some src.value
  | file ↦ r.file_contents src.value
  | command ↦ elim (parse_command r src.value) [
    | none ↦ none
    | some argv ↦ if (r.run argv).1 then some (joined (r.run argv).0) else none
  ]
]

file_whole :
    (contents : Option Bytes) (raw : Bytes)
    → read_limited_file contents ≡ some raw
    → length raw ≤ max_source_bytes
    → contents ≡ some raw
file_whole none raw h k = absurd (ground arith)
file_whole (some s) raw h k =
    let prefix : first_bytes 4097 s ≡ raw = ground arith in
    let whole =
      first_bytes_short 4097 s (subst (λ t. length t < 4097) (sym prefix) (omega arith)) in
    ap some (sym whole ∙ prefix)

command_whole :
    (out : List Bytes × Bool) (raw : Bytes)
    → run_command out ≡ some raw
    → (if out.1 then some (joined out.0) else none) ≡ some raw
command_whole (chunks, exited) raw h = let output = run_command_output chunks exited in ground arith

read_source_whole :
    (r : Resolver) (kind : Kind) (name value raw description : Bytes)
    → read_source r (record { kind = kind; name = name; value = value }) ≡ some (raw, description)
    → length raw ≤ max_source_bytes
    → whole_output r (record { kind = kind; name = name; value = value }) ≡ some raw
unfolding read_source
read_source_whole r environment name value raw description h k = ground arith
read_source_whole r file name value raw description h k =
    elim (Option-cases (read_limited_file (r.file_contents value))) [
      | inl n ↦ absurd (ground arith)
      | inr (got, found) ↦
          let same : got ≡ raw = ground arith in
          file_whole (r.file_contents value) raw (found ∙ ap some same) k
    ]
read_source_whole r command name value raw description h k =
    elim (Option-cases (parse_command r value)) [
      | inl n ↦ absurd (ground arith)
      | inr (argv, parsed) ↦ elim (Option-cases (run_command (r.run argv))) [
        | inl n ↦ absurd (ground arith)
        | inr (got, found) ↦
            let same : got ≡ raw = ground arith in
            let all = command_whole (r.run argv) raw (found ∙ ap some same) in ground arith
      ]
    ]

parse_source_inv :
    (r : Resolver) (raw description key told : Bytes)
    → parse_source r raw description ≡ present key told
    → (length raw ≤ max_source_bytes)
      × (description ≡ told)
      × (r.unhex (trim_space raw) ≡ some key)
      × (length key ≡ key_size)
unfolding parse_source parse_master_key
parse_source_inv r raw description key told h = elim (Option-cases (r.unhex (trim_space raw))) [
  | inl n ↦ absurd (ground arith)
  | inr (k, found) ↦ (ground arith, ground arith, ground arith, ground arith)
]

-- What a resolved key comes from.
abbrev pub IsResolved : Resolver → Spec → Bytes → Type 0
IsResolved r spec key =
    (src : ConfiguredSource) × (raw : Bytes) × (configured r spec ≡ src ∷ [])
    × (whole_output r src ≡ some raw)
    × (length raw ≤ max_source_bytes)
    × (r.unhex (trim_space raw) ≡ some key)
    × (length key ≡ key_size)

resolved_from :
    (r : Resolver) (spec : Spec) (src : ConfiguredSource) (read : Option (Bytes × Bytes))
    (key told : Bytes)
    → configured r spec ≡ src ∷ []
    → read_source r src ≡ read
    → (elim read as (λ _. Resolved) [
      | none ↦ failed
      | some (raw, description) ↦ parse_source r raw description
    ])
      ≡ present key told
    → IsResolved r spec key
resolved_from r spec src none key told only read h = absurd (ground arith)
resolved_from r spec src (some (raw, description)) key told only read h =
    let (short, described, decoded, size) = parse_source_inv r raw description key told h in
    (
      src,
      raw,
      only,
      read_source_whole r src.kind src.name src.value raw description read short,
      short,
      decoded,
      size,
    )

resolve_from :
    (r : Resolver) (spec : Spec) (sources : List ConfiguredSource) (key told : Bytes)
    → configured r spec ≡ sources
    → resolve_key r spec ≡ present key told
    → IsResolved r spec key
unfolding resolve_key
resolve_from r spec [] key told found h = absurd (ground arith)
resolve_from r spec (src ∷ x ∷ more) key told found h = absurd (ground arith)
resolve_from r spec (src ∷ []) key told found h =
    resolved_from r spec src (read_source r src) key told found refl (ground arith)

-- If Resolve gives a master key, then exactly one of the three sources of the key is set, the key
-- is decoded from all that this source holds (the value, the whole contents of the file, or
-- everything that the command wrote, and the command exited without an error), which is at most
-- 4096 bytes, and it has 32 bytes.
pub resolve_key-IsResolved :
    (r : Resolver) (spec : Spec) (key told : Bytes)
    → resolve_key r spec ≡ present key told
    → IsResolved r spec key
resolve_key-IsResolved r spec key told h = resolve_from r spec (configured r spec) key told refl h
