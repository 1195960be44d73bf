-- ===== src/Sqlite/Tree.antt =====
-- The two recursive queries over the run hierarchy: the ancestors of a run and its subtree. The
-- recursion is on fuel, one unit for each level; a level is a run, so the number of rows is enough.
pub mod Ancestors
pub mod Descendants
pub mod Subtree
use spendlease.Base.{
  ℕ, zero, suc, Bool, true, false, not, ◌&&◌, ◌||◌, List, [], ◌∷◌, ◌++◌, Option, none, some, Bytes,
  str_eq, if◌then◌else◌, length, any, is_some,
}
use spendlease.Store.{Run, is_root, is_empty}
use spendlease.Sqlite.Tables.{find_run}

-- `r.parent_run_id = p`, which a NULL parent never meets.
abbrev pub is_child : Bytes → Run → Bool
is_child p r = not (is_root r) && str_eq r.parent_run_id p

-- WITH RECURSIVE ancestors: the run of the given id, its parent, and so on, ORDER BY depth.
unfoldable pub ancestors_upto : ℕ → List Run → Bytes → List Run
unfolding find_run
ancestors_upto zero rs i = []
ancestors_upto (suc f) rs i = elim (find_run i rs) [
  | none ↦ []
  | some r ↦ r ∷ (let up = ancestors_upto f rs r.parent_run_id in if is_root r then [] else up)
]

unfoldable pub ancestors : List Run → Bytes → List Run
unfolding ancestors_upto
ancestors rs i = ancestors_upto (length rs) rs i

-- The children of `p` among `rs`, each followed by what `below` gives for it.
unfoldable pub children : (Bytes → List Bytes) → Bytes → List Run → List Bytes
children below p [] = []
children below p (r ∷ rs) =
    let deeper = below r.id in
    if is_child p r then (r.id ∷ deeper) ++ children below p rs else children below p rs

unfoldable pub descendants : ℕ → List Run → Bytes → List Bytes
unfolding children
descendants zero rs i = []
descendants (suc f) rs i = children (descendants f rs) i rs

-- WITH RECURSIVE subtree: the run itself, if there is one, and all below it.
unfoldable pub subtree : List Run → Bytes → List Bytes
unfolding descendants find_run
subtree rs i = if is_some (find_run i rs) then i ∷ descendants (length rs) rs i else []

-- `x IN (SELECT id FROM …)`
abbrev pub contains : Bytes → List Bytes → Bool
contains x ids = any (λ i. str_eq i x) ids
