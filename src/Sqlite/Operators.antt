-- ===== src/Sqlite/Operators.antt =====
-- internal/store/sqlite/operators.go: the operators and their audit trail. The two tables are no part
-- of `Db`, since no other method reads them.
pub mod Admins
use spendlease.Base.{
  ℕ, zero, suc, Bool, true, false, not, ◌&&◌, ◌||◌, List, [], ◌∷◌, Option, none, some, Bytes, codes,
  str_eq, str_leb, leb, ltb, ◌==◌, if◌then◌else◌, any, find, keep, update, is_some, length,
}
use spendlease.Money.{trim_space}
use spendlease.Operator.{Role, role_valid, is_admin, Operator, is_enabled, AuditRecord, AuditFilter}
use spendlease.Store.{Result, ok, err, ◌>>=◌, ◌>>◌, guard, not_found, conflict, is_empty}
use spendlease.Sqlite.Tables.{or_not_found}

-- The tables `operators` and `operator_audit`, the newest row first.
pub record OperatorDb : Type 0 where
  pub operators : List Operator
  pub audit : List AuditRecord

unfoldable pub find_operator : Bytes → List Operator → Option Operator
find_operator i [] = none
find_operator i (o ∷ os) = if str_eq o.id i then some o else find_operator i os

-- The row of a new operator: a name without outer spaces, and instants that are not zero.
abbrev pub stored_operator : ℕ → Operator → Operator
stored_operator now o =
    let created = if o.created_at == 0 then now else o.created_at in
    record o {
      name = trim_space o.name;
      created_at = created;
      updated_at = if o.updated_at == 0 then created else o.updated_at;
    }

-- INSERT INTO operators: id, name and token_hash are unique, and the role is checked. `now` is the
-- clock, for an operator without an instant of creation.
unfoldable pub create_operator : ℕ → Operator → OperatorDb → Result OperatorDb
unfolding find_operator
create_operator now o s = do
  guard (not (is_empty (trim_space o.name)) && role_valid o.role && not (is_empty o.token_hash))
      conflict
  guard (not (is_some (find_operator o.id s.operators))) conflict
  guard (not (any (λ q. str_eq q.name (trim_space o.name)) s.operators)) conflict
  guard (not (any (λ q. str_eq q.token_hash o.token_hash) s.operators)) conflict
  ok (record s { operators = stored_operator now o ∷ s.operators })

unfoldable pub get_operator_by_token_hash : Bytes → OperatorDb → Result Operator
get_operator_by_token_hash h s = or_not_found (find (λ o. str_eq o.token_hash h) s.operators)

unfoldable pub has_active_operators : OperatorDb → Bool
has_active_operators s = ltb 0 (length (keep is_enabled s.operators))

-- An active admin under another id.
abbrev pub is_other_admin : Bytes → Operator → Bool
is_other_admin i o = is_admin o.role && is_enabled o && not (str_eq o.id i)

-- `requireAnotherAdmin`
unfoldable pub has_another_admin : Bytes → OperatorDb → Bool
has_another_admin i s = not (length (keep (is_other_admin i) s.operators) == 0)

-- The row of the id is changed.
unfoldable pub change_row : Bytes → (Operator → Operator) → OperatorDb → OperatorDb
change_row i f s = record s { operators = update (λ o. str_eq o.id i) f s.operators }

unfoldable pub set_operator_role : Bytes → Role → ℕ → OperatorDb → Result OperatorDb
unfolding find_operator has_another_admin change_row
set_operator_role i role at s = do
  guard (role_valid role) conflict
  current ← or_not_found (find_operator i s.operators)
  guard
      (not (is_admin current.role && not (is_admin role) && is_enabled current)
        || has_another_admin i s)
      conflict
  ok (change_row i (λ o. record o { role = role; updated_at = at }) s)

unfoldable pub rotate_operator_token : Bytes → Bytes → ℕ → OperatorDb → Result OperatorDb
unfolding find_operator change_row
rotate_operator_token i hash at s = do
  guard (not (is_empty hash)) conflict
  current ← or_not_found (find_operator i s.operators)
  guard (is_enabled current) conflict
  guard (not (any (λ o. str_eq o.token_hash hash && not (str_eq o.id i)) s.operators)) conflict
  ok (change_row i (λ o. record o { token_hash = hash; updated_at = at }) s)

-- A disabled operator is left as it is.
unfoldable pub disable_operator : Bytes → ℕ → OperatorDb → Result OperatorDb
unfolding find_operator has_another_admin change_row
disable_operator i at s = do
  current ← or_not_found (find_operator i s.operators)
  guard (not (is_enabled current && is_admin current.role) || has_another_admin i s) conflict
  ok (
      if is_enabled current
      then change_row i (λ o. record o { disabled_at = some at; updated_at = at }) s
      else s)

unfoldable pub append_operator_audit : AuditRecord → OperatorDb → Result OperatorDb
append_operator_audit a s = do
  guard
      (role_valid a.role
        && not (is_empty a.id)
        && not (is_empty a.request_id)
        && not (is_empty a.action))
      conflict
  guard (str_eq a.phase (codes "attempt") || str_eq a.phase (codes "result")) conflict
  guard (not (any (λ b. str_eq b.id a.id) s.audit)) conflict
  ok (record s { audit = a ∷ s.audit })

-- The rows of a filter; instants are compared as the texts that are stored.
abbrev pub matches_filter : (ℕ → Bytes) → AuditFilter → AuditRecord → Bool
matches_filter format_time f a =
    (is_empty f.actor_id || str_eq a.actor_id f.actor_id)
    && (is_empty f.action || str_eq a.action f.action)
    && (f.since == 0 || str_leb (format_time f.since) (format_time a.created_at))

-- `ORDER BY created_at DESC, id DESC`
abbrev pub is_newer : (ℕ → Bytes) → AuditRecord → AuditRecord → Bool
is_newer format_time a b =
    not (str_leb (format_time a.created_at) (format_time b.created_at))
    || (str_eq (format_time a.created_at) (format_time b.created_at) && str_leb b.id a.id)

unfoldable pub insert_newest : (ℕ → Bytes) → AuditRecord → List AuditRecord → List AuditRecord
insert_newest format_time a [] = a ∷ []
insert_newest format_time a (b ∷ bs) =
    if is_newer format_time a b then a ∷ b ∷ bs else b ∷ insert_newest format_time a bs

unfoldable pub sort_newest : (ℕ → Bytes) → List AuditRecord → List AuditRecord
unfolding insert_newest
sort_newest format_time [] = []
sort_newest format_time (a ∷ bs) = insert_newest format_time a (sort_newest format_time bs)

abbrev pub take_records : ℕ → List AuditRecord → List AuditRecord
take_records zero rows = []
take_records (suc n) [] = []
take_records (suc n) (a ∷ rows) = a ∷ take_records n rows

unfoldable pub list_operator_audit : (ℕ → Bytes) → AuditFilter → OperatorDb → List AuditRecord
unfolding sort_newest
list_operator_audit format_time f s =
    let limit = if f.limit == 0 || ltb 1000 f.limit then 100 else f.limit in
    take_records limit (sort_newest format_time (keep (matches_filter format_time f) s.audit))
