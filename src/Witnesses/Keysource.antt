-- ===== src/Witnesses/Keysource.antt =====
-- A key in a file, which is the only source that is set.
use spendlease.Base.{
  [], some, none, codes, true, false, refl, ◌≡◌, str_eq, replicate, if◌then◌else◌,
}
use spendlease.Money.{trim_space, trim_left, trim_end}
use spendlease.Keysource.{
  Spec, Resolver, present, resolve_key, configured, configured_from, read_source, first_bytes,
  parse_source, parse_master_key,
}
use spendlease.Keysource.Whole.{IsResolved, resolve_key-IsResolved}

abbrev key_file : Resolver
key_file = record {
  lookup_env = λ name. if str_eq name (codes "KEY_FILE") then some (codes " /run/key ") else none;
  file_contents = λ path. some (codes "0707\n");
  decode_argv = λ raw. none;
  run = λ argv. ([], false);
  unhex = λ s. if str_eq s (codes "0707") then some (replicate 32 7) else none;
  base_name = λ s. s;
}

abbrev master_key : Spec
master_key = record {
  value_env = codes "KEY";
  file_env = codes "KEY_FILE";
  command_env = codes "KEY_COMMAND";
  required = true;
}

key_found : resolve_key key_file master_key ≡ present (replicate 32 7) (codes "file /run/key")
unfolding resolve_key configured configured_from read_source first_bytes parse_source
    parse_master_key str_eq trim_space trim_left trim_end
key_found = refl

resolve_key-IsResolved_example : IsResolved key_file master_key (replicate 32 7)
resolve_key-IsResolved_example =
    resolve_key-IsResolved key_file master_key (replicate 32 7) (codes "file /run/key") key_found
