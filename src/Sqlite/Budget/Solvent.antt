-- ===== src/Sqlite/Budget/Solvent.antt =====
-- The invariant of the tables: rows refer to rows that are there, and no budget is exceeded by what
-- is settled and held below it.
use mathlib.Core.Path.{subst}
use spendlease.Base.{
  ◌≡◌, sym, ◌⊎◌, inl, inr, Bool, true, false, List, [], ◌∷◌, none, some, arith, Bytes, str_eq,
  str_eq_iff, All, any, is_some, Bool-cases, str_eq_refl,
}
use spendlease.Base.Int.{pos, ◌+ℤ◌, ◌≤ℤ◌}
use spendlease.Ledger.{Entry}
use spendlease.Store.{Run, Reservation, is_root}
use spendlease.Sqlite.Tables.{Db, find_run}
use spendlease.Sqlite.Tree.Ancestors.{IsRooted, chain}
use spendlease.Sqlite.Usage.{spent_under, held_under}
use spendlease.Sqlite.Budget.Sums.{IsNonneg}

-- A ledger row is charged to a run of the table.
abbrev pub IsCharged : List Run → Entry → Type 0
IsCharged rs e = is_some (find_run e.run_id rs) ≡ true

-- A hold is of a run of the table.
abbrev pub IsHeld : List Run → Reservation → Type 0
IsHeld rs r = is_some (find_run r.run_id rs) ≡ true

pub record IsValid (s : Db) : Type 0 where
  pub rooted : IsRooted s.runs
  pub charged : All (IsCharged s.runs) s.ledger
  pub held : All (IsHeld s.runs) s.reservations
  pub amounts : All IsNonneg s.reservations

-- The budget of `n` covers what counts against it; zero is no budget.
abbrev pub Covers : Db → Run → Type 0
Covers s n = (n.budget ≡ pos 0) ⊎ (spent_under s n.id +ℤ held_under s n.id ≤ℤ n.budget)

-- No run has spent and holds more than its budget, counting its whole subtree.
abbrev pub IsWithin : Db → Type 0
IsWithin s = (i : Bytes) (n : Run) → find_run i s.runs ≡ some n → Covers s n

pub find_run-id : (i : Bytes) (n : Run) (rs : List Run) → find_run i rs ≡ some n → n.id ≡ i
unfolding find_run
find_run-id i n [] h = cc
find_run-id i n (r ∷ rs) h = ground (arith, find_run-id i n rs, str_eq_iff r.id i)

abbrev IsFound : List Run → Run → Type 0
IsFound rs q = find_run q.id rs ≡ some q

All-IsFound_cons :
    (r : Run) (rs qs : List Run)
    → find_run r.id rs ≡ none
    → All (IsFound rs) qs
    → All (IsFound (r ∷ rs)) qs
unfolding find_run
All-IsFound_cons r rs [] w h = tt
All-IsFound_cons r rs (q ∷ qs) w h =
    (ground (arith, str_eq_iff r.id q.id), All-IsFound_cons r rs qs w h.1)

-- The rows of a chain are rows of the table.
pub chain-IsFound : (rs : List Run) (x : Bytes) → IsRooted rs → All (IsFound rs) (chain rs x)
unfolding chain find_run
chain-IsFound [] x w = tt
chain-IsFound (r ∷ rs) x w = elim (Bool-cases (str_eq r.id x)) [
  | inl here ↦ elim (Bool-cases (is_root r)) [
    | inl root ↦ rw (here, root) (rw (str_eq_refl r.id), tt)
    | inr child ↦
        rw (here, child)
          (
            rw (str_eq_refl r.id),
            All-IsFound_cons r rs (chain rs r.parent_run_id) w.0
                (chain-IsFound rs r.parent_run_id w.2),
          )
  ]
  | inr further ↦ rw further (All-IsFound_cons r rs (chain rs x) w.0 (chain-IsFound rs x w.2))
]

-- What fails at every row of the chain fails at each row of the table that the chain names.
pub any-chain_false :
    (p : Run → Bool) (rs qs : List Run) (n : Run)
    → All (IsFound rs) qs
    → any p qs ≡ false
    → find_run n.id rs ≡ some n
    → any (λ q. str_eq q.id n.id) qs ≡ true
    → p n ≡ false
any-chain_false p rs [] n f h e m = cc
any-chain_false p rs (q ∷ qs) n f h e m =
    ground (arith, str_eq_iff q.id n.id, any-chain_false p rs qs n f.1)

pub find_run_self :
    (i : Bytes) (n : Run) (rs : List Run) → find_run i rs ≡ some n → find_run n.id rs ≡ some n
find_run_self i n rs h = subst (λ j. find_run j rs ≡ some n) (sym (find_run-id i n rs h)) h

-- A store in which the invariant holds.
abbrev pub IsSolvent : Db → Type 0
IsSolvent s = IsValid s × IsWithin s
