-- ===== src/Witnesses/Operators.antt =====
-- The theorem on the operators, at two admins of whom one is disabled.
use spendlease.Base.{◌≡◌, refl, [], ◌∷◌, none, some, codes, str_eq}
use spendlease.Operator.{Operator, admin}
use spendlease.Store.{ok}
use spendlease.Sqlite.Operators.{
  OperatorDb, find_operator, disable_operator, has_another_admin, change_row,
}
use spendlease.Sqlite.Operators.Admins.{IsStaffed, disables, OperatorStep-IsStaffed, distinct}

abbrev root : Operator
root = record {
  id = codes "o1";
  name = codes "root";
  token_hash = codes "t1";
  role = admin;
  disabled_at = none;
  created_at = 1;
  updated_at = 1;
}

abbrev deputy : Operator
deputy = record root { id = codes "o2"; name = codes "deputy"; token_hash = codes "t2" }

abbrev two_admins : OperatorDb
two_admins = record { operators = deputy ∷ root ∷ []; audit = [] }

abbrev one_admin : OperatorDb
one_admin = record two_admins {
  operators = record deputy { disabled_at = some 5; updated_at = 5 } ∷ root ∷ [];
}

disabled : disable_operator (codes "o2") 5 two_admins ≡ ok one_admin
unfolding disable_operator find_operator has_another_admin change_row str_eq
disabled = refl

staffed : IsStaffed two_admins
unfolding distinct find_operator str_eq
staffed = (refl, refl)

OperatorStep-IsStaffed_example : IsStaffed one_admin
OperatorStep-IsStaffed_example = OperatorStep-IsStaffed (disables (codes "o2") 5 disabled) staffed
