-- ===== src/Reconcile.antt =====
-- internal/reconcile/reconcile.go: the ledger against a vendor's statement. A map is a list of pairs;
-- the reading and writing of CSV and JSON are left out.
pub mod Totals
use spendlease.Base.{
  ℕ, suc, ◌+◌, ◌≡◌, Bool, true, false, not, ◌&&◌, ◌||◌, List, [], ◌∷◌, ◌++◌, Option, none, some,
  Bytes, codes, str_eq, str_leb, leb, ltb, ◌==◌, if◌then◌else◌, length, any, keep, map,
}
use spendlease.Base.Int.{ℤ, pos, negsuc, ◌+ℤ◌, ◌-ℤ◌, wrap64, ltb_ℤ, leb_ℤ, eq_ℤ}
use spendlease.Billing.{Usage, validate, quantity_of, add_quantity, is_nonzero, normalized}
use spendlease.Ledger.{Entry, itemized_usage}
use spendlease.Money.{trim_space}
use spendlease.Store.{is_empty}

pub record StatementEntry : Type 0 where
  pub provider : Bytes
  pub model : Bytes
  pub external_id : Bytes
  pub usage : Usage
  pub cost : ℤ
  pub occurred_at : ℕ

-- What `Build` takes of a ledger entry.
unfoldable pub of_ledger : Entry → StatementEntry
of_ledger e = record {
  provider = e.provider;
  model = e.model;
  external_id = e.external_id;
  usage = itemized_usage e;
  cost = e.cost;
  occurred_at = e.created_at;
}

-- A half-open interval and the tolerance; an instant that is zero is not set.
pub record ReconcileOptions : Type 0 where
  pub since : ℕ
  pub until : ℕ
  pub cost_tolerance : ℤ

pub record Aggregate : Type 0 where
  pub records : ℕ
  pub cost : ℤ
  pub usage : Usage
  pub ids : List Bytes

abbrev pub no_aggregate : Aggregate
no_aggregate = record { records = 0; cost = pos 0; usage = []; ids = [] }

pub record GroupKey : Type 0 where
  pub provider : Bytes
  pub model : Bytes

unfoldable pub same_key : GroupKey → GroupKey → Bool
same_key a b = str_eq a.provider b.provider && str_eq a.model b.model

abbrev pub Groups : Type 0
Groups = List (GroupKey × Aggregate)

-- `value(groups[key])`
unfoldable pub value_of : GroupKey → Groups → Aggregate
value_of k [] = no_aggregate
value_of k ((j, a) ∷ gs) = if same_key j k then a else value_of k gs

unfoldable pub put_group : GroupKey → Aggregate → Groups → Groups
put_group k a [] = (k, a) ∷ []
put_group k a ((j, b) ∷ gs) = if same_key j k then (j, a) ∷ gs else (j, b) ∷ put_group k a gs

-- 2 ^ 63 - 1
abbrev pub max_int64 : ℤ
max_int64 = pos 9223372036854775807

unfoldable pub in_period : ReconcileOptions → ℕ → Bool
in_period o at = leb o.since at && ltb at o.until

-- The loop over the quantities of one usage.
unfoldable pub add_usage : Usage → Usage → Option Usage
add_usage u [] = some u
add_usage u ((unit, quantity) ∷ other) =
    let rest = add_usage (add_quantity unit quantity u) other in
    if ltb_ℤ (wrap64 (max_int64 -ℤ quantity)) (quantity_of unit u) then none else rest

abbrev pub add_id : Bytes → List Bytes → List Bytes
add_id i is = if is_empty i || any (λ j. str_eq j i) is then is else i ∷ is

abbrev pub key_of : StatementEntry → GroupKey
key_of e = record { provider = e.provider; model = e.model }

-- One entry is added to the aggregate of its key.
unfoldable pub add_to : StatementEntry → Aggregate → Option Aggregate
unfolding add_usage
add_to e a =
    if ltb_ℤ (wrap64 (max_int64 -ℤ e.cost)) a.cost then none else elim (add_usage a.usage e.usage) [
      | none ↦ none
      | some u ↦ some (record {
        records = suc a.records;
        cost = wrap64 (a.cost +ℤ e.cost);
        usage = u;
        ids = add_id (trim_space e.external_id) a.ids;
      })
    ]

unfoldable pub add : StatementEntry → Groups → Option Groups
unfolding add_to value_of put_group
add e gs =
    if is_empty (trim_space e.provider) || is_empty (trim_space e.model)
    then none
    else if not (validate e.usage) || ltb_ℤ e.cost (pos 0)
    then none
    else elim (add_to e (value_of (key_of e) gs)) [
      | none ↦ none
      | some a ↦ some (put_group (key_of e) a gs)
    ]

-- The loop over the entries of one source; those outside the period are passed over.
unfoldable pub add_all : ReconcileOptions → List StatementEntry → Groups → Option Groups
unfolding add in_period
add_all o [] gs = some gs
add_all o (e ∷ es) gs =
    let skipped = add_all o es gs in
    if not (in_period o e.occurred_at)
    then skipped
    else elim (add e gs) [ none ↦ none | some gs' ↦ add_all o es gs' ]

-- `out[unit] = -quantity` for the ledger's usage.
abbrev pub negated : Usage → Usage
negated [] = []
negated ((unit, quantity) ∷ u) = (unit, wrap64 (pos 0 -ℤ quantity)) ∷ negated u

-- `usageDelta`: the statement's quantities less the ledger's, without those that agree.
unfoldable pub usage_delta : Usage → Usage → Option Usage
unfolding add_usage normalized
usage_delta ledger statement = elim (add_usage (negated ledger) statement) [
  | none ↦ none
  | some u ↦ some (normalized u)
]

abbrev pub min_int64 : ℤ
min_int64 = negsuc 9223372036854775807

unfoldable pub subtract_nanos : ℤ → ℤ → Option ℤ
subtract_nanos left right =
    if ltb_ℤ (pos 0) right && ltb_ℤ left (wrap64 (min_int64 +ℤ right))
    then none
    else if ltb_ℤ right (pos 0) && ltb_ℤ (wrap64 (max_int64 +ℤ right)) left
    then none
    else some (wrap64 (left -ℤ right))

abbrev pub abs : ℤ → ℤ
abs v = if ltb_ℤ v (pos 0) then wrap64 (pos 0 -ℤ v) else v

pub data GroupStatus : Type 0 where
  statement_only ledger_only cost_mismatch usage_mismatch match : GroupStatus

unfoldable pub group_status : Aggregate → Aggregate → ℤ → Usage → ℤ → GroupStatus
group_status left right cost_delta delta tolerance =
    if left.records == 0
    then statement_only
    else if right.records == 0
    then ledger_only
    else if ltb_ℤ tolerance (abs cost_delta)
    then cost_mismatch
    else if not (length delta == 0)
    then usage_mismatch
    else match

abbrev pub is_match : GroupStatus → Bool
is_match match = true
is_match statement_only = false
is_match ledger_only = false
is_match cost_mismatch = false
is_match usage_mismatch = false

unfoldable pub intersection : List Bytes → List Bytes → ℕ
intersection left right = length (keep (λ i. any (λ j. str_eq j i) right) left)

pub record Group : Type 0 where
  pub key : GroupKey
  pub status : GroupStatus
  pub ledger : Aggregate
  pub statement : Aggregate
  pub cost_delta : ℤ
  pub delta : Usage
  pub matched_external_ids : ℕ

unfoldable pub group_of : ReconcileOptions → Groups → Groups → GroupKey → Option Group
unfolding value_of subtract_nanos usage_delta group_status intersection
group_of o ledger statement k =
    let left = value_of k ledger in
    let right = value_of k statement in
    elim (subtract_nanos right.cost left.cost) [
      | none ↦ none
      | some cost_delta ↦ elim (usage_delta left.usage right.usage) [
        | none ↦ none
        | some delta ↦ some (record {
          key = k;
          status = group_status left right cost_delta delta o.cost_tolerance;
          ledger = left;
          statement = right;
          cost_delta = cost_delta;
          delta = delta;
          matched_external_ids = intersection left.ids right.ids;
        })
      ]
    ]

unfoldable pub groups_of : ReconcileOptions → Groups → Groups → List GroupKey → Option (List Group)
unfolding group_of
groups_of o ledger statement [] = some []
groups_of o ledger statement (k ∷ ks) =
    let rest = groups_of o ledger statement ks in
    elim (group_of o ledger statement k) [
      | none ↦ none
      | some g ↦ elim rest [ none ↦ none | some gs ↦ some (g ∷ gs) ]
    ]

-- The order of the report: by provider, then by model.
abbrev pub key_leb : GroupKey → GroupKey → Bool
key_leb a b =
    if str_eq a.provider b.provider then str_leb a.model b.model else str_leb a.provider b.provider

unfoldable pub insert_key : GroupKey → List GroupKey → List GroupKey
unfolding same_key
insert_key k [] = k ∷ []
insert_key k (j ∷ ks) =
    let rest = insert_key k ks in
    if same_key k j then j ∷ ks else if key_leb k j then k ∷ j ∷ ks else j ∷ rest

unfoldable pub group_keys : Groups → List GroupKey → List GroupKey
unfolding insert_key
group_keys [] ks = ks
group_keys ((k, _) ∷ gs) ks = insert_key k (group_keys gs ks)

pub record Report : Type 0 where
  pub matches : Bool
  pub groups : List Group

unfoldable pub all_match : List Group → Bool
all_match [] = true
all_match (g ∷ gs) = is_match g.status && all_match gs

unfoldable pub build : ReconcileOptions → List Entry → List StatementEntry → Option Report
unfolding of_ledger add_all group_keys groups_of all_match
build o entries statement =
    if o.since == 0 || o.until == 0 || not (ltb o.since o.until)
    then none
    else if ltb_ℤ o.cost_tolerance (pos 0)
    then none
    else elim (add_all o (map of_ledger entries) []) [
      | none ↦ none
      | some left ↦ elim (add_all o statement []) [
        | none ↦ none
        | some right ↦ elim (groups_of o left right (group_keys left (group_keys right []))) [
          | none ↦ none
          | some gs ↦ some (record { matches = all_match gs; groups = gs })
        ]
      ]
    ]
