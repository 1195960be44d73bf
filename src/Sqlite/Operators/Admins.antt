-- ===== src/Sqlite/Operators/Admins.antt =====
-- operators.go: no change leaves the store without an active admin.
use mathlib.Core.Path.{subst}
use spendlease.Base.{
  ℕ, ◌≡◌, refl, sym, ap, ◌∙◌, inl, inr, Bool, true, false, not, ◌&&◌, List, [], ◌∷◌, none, some,
  Bytes, str_eq, str_eq_iff, any, keep, update, length, is_some, arith, Option-cases, Bool-cases,
  if◌then◌else◌, ◌==◌,
}
use spendlease.Operator.{Role, Operator, is_admin, is_enabled, AuditRecord}
use spendlease.Store.{ok}
use spendlease.Sqlite.Operators.{
  OperatorDb, find_operator, create_operator, set_operator_role, rotate_operator_token,
  disable_operator, change_row, append_operator_audit, has_another_admin, is_other_admin,
}

abbrev pub is_active_admin : Operator → Bool
is_active_admin o = is_admin o.role && is_enabled o

-- Every id occurs once.
unfoldable pub distinct : List Operator → Bool
unfolding find_operator
distinct [] = true
distinct (o ∷ os) = not (is_some (find_operator o.id os)) && distinct os

-- Ids differ, and some operator is an admin who is not disabled.
abbrev pub IsStaffed : OperatorDb → Type 0
IsStaffed s = (distinct s.operators ≡ true) × (any is_active_admin s.operators ≡ true)

module _ (i : Bytes) (f : Operator → Operator) (keeps : (o : Operator) → (f o).id ≡ o.id) where
  abbrev changed : List Operator → List Operator
  changed os = update (λ o. str_eq o.id i) f os

  find_operator-changed :
      (j : Bytes) (os : List Operator)
      → is_some (find_operator j (changed os)) ≡ is_some (find_operator j os)
  unfolding find_operator
  find_operator-changed j [] = refl
  find_operator-changed j (o ∷ os) = ground (arith, find_operator-changed j os, keeps o)

  distinct-changed : (os : List Operator) → distinct (changed os) ≡ distinct os
  unfolding distinct
  distinct-changed [] = refl
  distinct-changed (o ∷ os) =
      let same : (if str_eq o.id i then f o else o).id ≡ o.id = ground (arith, keeps o) in
      let alone = ap (λ j. is_some (find_operator j (changed os))) same in
      ap (λ b. not b && distinct (changed os)) (alone ∙ find_operator-changed o.id os)
      ∙ ap (λ b. not (is_some (find_operator o.id os)) && b) (distinct-changed os)

-- An admin under another id stays.
other-changed :
    (i : Bytes) (f : Operator → Operator) (os : List Operator)
    → any (is_other_admin i) os ≡ true
    → any is_active_admin (update (λ o. str_eq o.id i) f os) ≡ true
other-changed i f [] h = absurd (cc h)
other-changed i f (o ∷ os) h = ground (arith, other-changed i f os)

-- A change that makes no admin less.
kept-changed :
    (i : Bytes) (f : Operator → Operator) (os : List Operator)
    → ((o : Operator) → is_active_admin o ≡ true → is_active_admin (f o) ≡ true)
    → any is_active_admin os ≡ true
    → any is_active_admin (update (λ o. str_eq o.id i) f os) ≡ true
kept-changed i f [] k h = absurd (cc h)
kept-changed i f (o ∷ os) k h = ground (arith, kept-changed i f os k, k o)

any-other :
    (i : Bytes) (os : List Operator)
    → find_operator i os ≡ none
    → any is_active_admin os ≡ true
    → any (is_other_admin i) os ≡ true
unfolding find_operator
any-other i [] n h = absurd (cc h)
any-other i (o ∷ os) n h = ground (arith, any-other i os)

-- Where the operator of the id is no active admin, another one is.
found-other :
    (i : Bytes) (c : Operator) (os : List Operator)
    → find_operator i os ≡ some c
    → distinct os ≡ true
    → is_active_admin c ≡ false
    → any is_active_admin os ≡ true
    → any (is_other_admin i) os ≡ true
unfolding find_operator distinct
found-other i c [] n d a h = absurd (cc h)
found-other i c (o ∷ os) n d a h = elim (Bool-cases (str_eq o.id i)) [
  | inl e ↦
      let same = (str_eq_iff o.id i).0 e in
      let here : find_operator o.id os ≡ none = ground arith in
      let alone = subst (λ j. find_operator j os ≡ none) same here in
      let rest = any-other i os alone (ground arith) in ground arith
  | inr e ↦ ground (arith, found-other i c os)
]

any-length : (t : Operator → Bool) (os : List Operator) → any t os ≡ not (length (keep t os) == 0)
any-length t [] = refl
any-length t (o ∷ os) = ground (arith, any-length t os)

another-changed :
    (i : Bytes) (f : Operator → Operator) (s : OperatorDb)
    → has_another_admin i s ≡ true
    → any is_active_admin (update (λ o. str_eq o.id i) f s.operators) ≡ true
unfolding has_another_admin
another-changed i f s h =
    other-changed i f s.operators (any-length (is_other_admin i) s.operators ∙ h)

pub create_operator-IsStaffed :
    (now : ℕ) (o : Operator) (s s' : OperatorDb)
    → create_operator now o s ≡ ok s'
    → IsStaffed s
    → IsStaffed s'
unfolding create_operator distinct
create_operator-IsStaffed now o s s' h (d, a) = (ground arith, ground arith)

change_row-IsStaffed :
    (i : Bytes) (f : Operator → Operator) (s : OperatorDb)
    → ((o : Operator) → (f o).id ≡ o.id)
    → distinct s.operators ≡ true
    → any is_active_admin (update (λ o. str_eq o.id i) f s.operators) ≡ true
    → IsStaffed (change_row i f s)
unfolding change_row
change_row-IsStaffed i f s keeps d a = (distinct-changed i f keeps s.operators ∙ d, a)

abbrev to_role : Role → ℕ → Operator → Operator
to_role role at o = record o { role = role; updated_at = at }

pub set_operator_role-IsStaffed :
    (i : Bytes) (role : Role) (at : ℕ) (s s' : OperatorDb)
    → set_operator_role i role at s ≡ ok s'
    → IsStaffed s
    → IsStaffed s'
unfolding set_operator_role
set_operator_role-IsStaffed i role at s s' h (d, a) =
    elim (Option-cases (find_operator i s.operators)) [
      | inl n ↦ absurd (ground arith)
      | inr (c, n) ↦
          let same : change_row i (to_role role at) s ≡ s' = ground arith in
          let left : any is_active_admin (update (λ o. str_eq o.id i) (to_role role at) s.operators)
              ≡ true =
            elim (Bool-cases (is_admin role)) [
              | inl e ↦ kept-changed i (to_role role at) s.operators (λ o k. ground arith) a
              | inr e ↦ elim (Bool-cases (is_active_admin c)) [
                | inl k ↦ another-changed i (to_role role at) s (ground arith)
                | inr k ↦
                    other-changed i (to_role role at) s.operators
                      (found-other i c s.operators n d k a)
              ]
            ] in
          subst IsStaffed same (change_row-IsStaffed i (to_role role at) s (λ o. refl) d left)
    ]

abbrev to_token : Bytes → ℕ → Operator → Operator
to_token hash at o = record o { token_hash = hash; updated_at = at }

pub rotate_operator_token-IsStaffed :
    (i hash : Bytes) (at : ℕ) (s s' : OperatorDb)
    → rotate_operator_token i hash at s ≡ ok s'
    → IsStaffed s
    → IsStaffed s'
unfolding rotate_operator_token
rotate_operator_token-IsStaffed i hash at s s' h (d, a) =
    let same : change_row i (to_token hash at) s ≡ s' = ground arith in
    subst IsStaffed same (
      change_row-IsStaffed i (to_token hash at) s (λ o. refl) d
        (kept-changed i (to_token hash at) s.operators (λ o k. k) a))

abbrev to_disabled : ℕ → Operator → Operator
to_disabled at o = record o { disabled_at = some at; updated_at = at }

pub disable_operator-IsStaffed :
    (i : Bytes) (at : ℕ) (s s' : OperatorDb)
    → disable_operator i at s ≡ ok s'
    → IsStaffed s
    → IsStaffed s'
unfolding disable_operator
disable_operator-IsStaffed i at s s' h (d, a) = elim (Option-cases (find_operator i s.operators)) [
  | inl n ↦ absurd (ground arith)
  | inr (c, n) ↦ elim (Bool-cases (is_enabled c)) [
    | inr off ↦ let same : s ≡ s' = ground arith in subst IsStaffed same (d, a)
    | inl on ↦
        let same : change_row i (to_disabled at) s ≡ s' = ground arith in
        let left : any is_active_admin (update (λ o. str_eq o.id i) (to_disabled at) s.operators)
            ≡ true =
          elim (Bool-cases (is_admin c.role)) [
            | inl k ↦ another-changed i (to_disabled at) s (ground arith)
            | inr k ↦
                other-changed i (to_disabled at) s.operators
                  (found-other i c s.operators n d (ground arith) a)
          ] in
        subst IsStaffed same (change_row-IsStaffed i (to_disabled at) s (λ o. refl) d left)
  ]
]

-- One call that changes the operators or their trail.
pub data OperatorStep : OperatorDb → OperatorDb → Type 0 where
  creates :
      {s s' : OperatorDb} (now : ℕ) (o : Operator)
      → create_operator now o s ≡ ok s'
      → OperatorStep s s'
  promotes :
      {s s' : OperatorDb} (i : Bytes) (role : Role) (at : ℕ)
      → set_operator_role i role at s ≡ ok s'
      → OperatorStep s s'
  rotates :
      {s s' : OperatorDb} (i hash : Bytes) (at : ℕ)
      → rotate_operator_token i hash at s ≡ ok s'
      → OperatorStep s s'
  disables :
      {s s' : OperatorDb} (i : Bytes) (at : ℕ) → disable_operator i at s ≡ ok s' → OperatorStep s s'
  audits :
      {s s' : OperatorDb} (r : AuditRecord) → append_operator_audit r s ≡ ok s' → OperatorStep s s'

append_operator_audit-operators :
    (r : AuditRecord) (s s' : OperatorDb)
    → append_operator_audit r s ≡ ok s'
    → s'.operators ≡ s.operators
unfolding append_operator_audit
append_operator_audit-operators r s s' h = ground arith

-- If the ids of the operators differ and one of them is an admin who is not disabled, then so it
-- is after every CreateOperator, SetOperatorRole, RotateOperatorToken, DisableOperator or
-- AppendOperatorAudit that succeeds.
pub OperatorStep-IsStaffed : {s s' : OperatorDb} → OperatorStep s s' → IsStaffed s → IsStaffed s'
OperatorStep-IsStaffed {s} {s'} (creates now o h) v = create_operator-IsStaffed now o s s' h v
OperatorStep-IsStaffed {s} {s'} (promotes i role at h) v =
    set_operator_role-IsStaffed i role at s s' h v
OperatorStep-IsStaffed {s} {s'} (rotates i hash at h) v =
    rotate_operator_token-IsStaffed i hash at s s' h v
OperatorStep-IsStaffed {s} {s'} (disables i at h) v = disable_operator-IsStaffed i at s s' h v
OperatorStep-IsStaffed {s} {s'} (audits r h) v =
    subst (λ os. (distinct os ≡ true) × (any is_active_admin os ≡ true))
      (sym (append_operator_audit-operators r s s' h)) v
