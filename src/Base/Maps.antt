-- ===== src/Base/Maps.antt =====
-- Go maps with string keys: lists of pairs.
use mathlib.Core.List.{List, [], ◌∷◌}
use mathlib.Core.Option.{Option, none, some}
use spendlease.Base.Tests.{if◌then◌else◌}
use spendlease.Base.Text.{Bytes, str_eq}

-- The map entry of a key.
unfoldable pub entry_of {ℓ} : {A : Type ℓ} → Bytes → List (Bytes × A) → Option A
entry_of k [] = none
entry_of k ((key, a) ∷ rest) = if str_eq key k then some a else entry_of k rest
