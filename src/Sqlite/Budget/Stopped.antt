-- ===== src/Sqlite/Budget/Stopped.antt =====
-- Closing a run stops all spending below it.
use mathlib.Core.Path.{subst}
use spendlease.Base.{
  ℕ, zero, suc, ◌≡◌, refl, Bool, true, false, List, [], ◌∷◌, arith, Bytes, str_eq, any, all, All,
  length, inl, inr, ◌∙◌, sym, update, not, ◌&&◌, some, Option-cases, ap,
}
use spendlease.Store.{Run, Reservation, ok, is_active}
use spendlease.Sqlite.Tables.{Db, find_run}
use spendlease.Sqlite.Tree.{ancestors, ancestors_upto, subtree, contains}
use spendlease.Sqlite.Tree.Ancestors.{IsRooted}
use spendlease.Sqlite.Tree.Subtree.{subtree-ancestors}
use spendlease.Sqlite.Reserve.{try_reserve}
use spendlease.Sqlite.Runs.{close_run, closes}
use spendlease.Sqlite.Budget.Decision.{try_reserve-cases, check_budgets_exact}
use spendlease.Sqlite.Budget.Closing.{IsRooted-marked, subtree_marked, close_run_inv, mark_closed}

-- What holds of every row of the table holds of every row of a chain.
All-find_run :
    (p : Run → Bool) (rs : List Run) (x : Bytes) (q : Run)
    → all p rs ≡ true
    → find_run x rs ≡ some q
    → p q ≡ true
unfolding find_run
All-find_run p [] x q h f = cc
All-find_run p (r ∷ rs) x q h f = ground (arith, All-find_run p rs x q)

all-ancestors_upto :
    (p : Run → Bool) (f : ℕ) (rs : List Run) (x : Bytes)
    → all p rs ≡ true
    → all p (ancestors_upto f rs x) ≡ true
unfolding ancestors_upto
all-ancestors_upto p zero rs x h = refl
all-ancestors_upto p (suc f) rs x h = elim (Option-cases (find_run x rs)) [
  | inl missing ↦ ground arith
  | inr (q, found) ↦
      ground (arith, All-find_run p rs x q h found, all-ancestors_upto p f rs q.parent_run_id h)
]

all-ancestors :
    (p : Run → Bool) (rs : List Run) (x : Bytes) → all p rs ≡ true → all p (ancestors rs x) ≡ true
unfolding ancestors
all-ancestors p rs x h = all-ancestors_upto p (length rs) rs x h

-- The run `i` is not active in this row.
abbrev is_stopped : Bytes → Run → Bool
is_stopped i r = not (str_eq r.id i && is_active r.status)

all-marked :
    (now : ℕ) (i : Bytes) (rs : List Run)
    → all (is_stopped i) (update (closes i) (mark_closed now) rs) ≡ true
all-marked now i [] = refl
all-marked now i (r ∷ rs) = ground (arith, all-marked now i rs)

stopped_somewhere :
    (i : Bytes) (ns : List Run)
    → all (is_stopped i) ns ≡ true
    → any (λ q. str_eq q.id i) ns ≡ true
    → all (λ q. is_active q.status) ns ≡ false
stopped_somewhere i [] h k = cc
stopped_somewhere i (n ∷ ns) h k = ground (arith, stopped_somewhere i ns)

all_active :
    (ns : List Run)
    → All (λ n. is_active n.status ≡ true) ns
    → all (λ q. is_active q.status) ns ≡ true
all_active [] h = refl
all_active (n ∷ ns) h = ground (arith, all_active ns h.1)

pub try_reserve_stopped :
    (s : Db) (r : Reservation) (enforced : Bool)
    → all (λ q. is_active q.status) (ancestors s.runs r.run_id) ≡ false
    → (try_reserve r enforced s).0 ≡ s
try_reserve_stopped s r enforced h = elim (try_reserve-cases s r enforced) [
  | inl same ↦ same
  | inr (unresolved, created, checked, clear) ↦
      let running = all_active (ancestors s.runs r.run_id) (check_budgets_exact s r checked).0 in
      absurd (ground arith)
]

-- After a CloseRun that succeeds, in a table in which ids differ and every parent is an older
-- row, no TryReserve for a run of the closed run's subtree changes the store, enforced or not:
-- nothing more is held below a closed run.
pub close_run-try_reserve :
    (now : ℕ) (i : Bytes) (s s' : Db) (r : Reservation) (enforced : Bool)
    → close_run now i s ≡ ok s'
    → IsRooted s.runs
    → contains r.run_id (subtree s.runs i) ≡ true
    → (try_reserve r enforced s').0 ≡ s'
close_run-try_reserve now i s s' r enforced h w c =
    let same = close_run_inv now i s s' h in
    let rows = update (closes i) (mark_closed now) s.runs in
    let below = subtree-ancestors rows i r.run_id (IsRooted-marked (closes i) now s.runs w) in
    let named = ap (contains r.run_id) (subtree_marked (closes i) now s.runs i) ∙ c in
    subst (λ t. (try_reserve r enforced t).0 ≡ t) (sym same)
      (try_reserve_stopped (record s { runs = rows }) r enforced
        (stopped_somewhere i (ancestors rows r.run_id)
          (all-ancestors (is_stopped i) rows r.run_id (all-marked now i s.runs))
          (sym below ∙ named)))
