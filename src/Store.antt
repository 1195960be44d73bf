-- ===== src/Store.antt =====
-- internal/store/store.go: the domain objects, their status types and the decisions about budgets.
-- An instant is a count of nanoseconds; a nil `*time.Time` is `none`.
use spendlease.Base.{
  if◌then◌else◌, ℕ, ◌≡◌, refl, ◌⊎◌, inl, inr, Bool, true, false, not, ◌&&◌, ◌||◌, List, [], ◌∷◌,
  Option, Bytes, str_eq, ltb, ◌==◌, length, any, is_some,
}
use spendlease.Base.Int.{ℤ, pos, ltb_ℤ}

-- The sentinel errors; `other` is any error of the driver that is wrapped as it is.
pub data StoreError : Type 0 where
  not_found conflict immutable other : StoreError

-- The two results `(T, error)` of a Go method: a value that means something only without an error.
pub data Result {ℓ} (A : Type ℓ) : Type ℓ where
  err : StoreError → Result A
  ok : A → Result A

infixl 5 ◌>>=◌
infixl 5 ◌>>◌
-- `if err != nil { return err }`
abbrev pub ◌>>=◌ {ℓ κ} : {A : Type ℓ} {B : Type κ} (m : Result A) (rest : A → Result B) → Result B
err failed >>= rest = err failed
ok value >>= rest = rest value

-- A check that a method returns from.
abbrev pub guard : Bool → StoreError → Result (Unit {0})
guard holds failed = if holds then ok tt else err failed

abbrev pub ◌>>◌ {ℓ} : {B : Type ℓ} (check : Result (Unit {0})) (rest : Result B) → Result B
check >> rest = check >>= λ _. rest

-- A `Mode` is a Go string: `other_mode` is any text but the two that are recognised.
pub data Mode : Type 0 where
  observe enforce : Mode
  other_mode : Bytes → Mode

abbrev pub mode_valid : Mode → Bool
mode_valid observe = true
mode_valid enforce = true
mode_valid (other_mode _) = false

pub data RunStatus : Type 0 where
  active closed : RunStatus
  other_run_status : Bytes → RunStatus

abbrev pub run_status_valid : RunStatus → Bool
run_status_valid active = true
run_status_valid closed = true
run_status_valid (other_run_status _) = false

abbrev pub is_active : RunStatus → Bool
is_active active = true
is_active closed = false
is_active (other_run_status _) = false

abbrev pub is_closed : RunStatus → Bool
is_closed active = false
is_closed closed = true
is_closed (other_run_status _) = false

pub data ReservationStatus : Type 0 where
  pending settled released expired : ReservationStatus
  other_status : Bytes → ReservationStatus

abbrev pub reservation_status_valid : ReservationStatus → Bool
reservation_status_valid pending = true
reservation_status_valid settled = true
reservation_status_valid released = true
reservation_status_valid expired = true
reservation_status_valid (other_status _) = false

abbrev pub is_pending : ReservationStatus → Bool
is_pending pending = true
is_pending settled = false
is_pending released = false
is_pending expired = false
is_pending (other_status _) = false

abbrev pub is_expired : ReservationStatus → Bool
is_expired expired = true
is_expired pending = false
is_expired settled = false
is_expired released = false
is_expired (other_status _) = false

pub record Principal : Type 0 where
  pub id : Bytes
  pub name : Bytes
  pub key_hash : Bytes
  pub mode : Mode
  pub created_at : ℕ

-- An empty `parent_run_id` is a root run: the column is NULL.
pub record Run : Type 0 where
  pub id : Bytes
  pub principal_id : Bytes
  pub parent_run_id : Bytes
  pub budget : ℤ
  pub status : RunStatus
  pub created_at : ℕ
  pub closed_at : Option ℕ

abbrev pub is_empty : Bytes → Bool
is_empty [] = true
is_empty (_ ∷ _) = false

abbrev pub is_root : Run → Bool
is_root r = is_empty r.parent_run_id

pub record Lease : Type 0 where
  pub id : Bytes
  pub run_id : Bytes
  pub token_hash : Bytes
  pub providers : List Bytes
  pub ceiling : ℤ
  pub expires_at : ℕ
  pub revoked_at : Option ℕ
  pub created_at : ℕ

-- `Active(now)`: not revoked, and now before the expiry.
unfoldable pub lease_active : Lease → ℕ → Bool
lease_active l now = not (is_some l.revoked_at) && ltb now l.expires_at

unfoldable pub allows_provider : Lease → Bytes → Bool
allows_provider l name = length l.providers == 0 || any (λ p. str_eq p name) l.providers

pub record Reservation : Type 0 where
  pub id : Bytes
  pub run_id : Bytes
  pub lease_id : Bytes
  pub amount : ℤ
  pub status : ReservationStatus
  pub expires_at : ℕ
  pub created_at : ℕ
  pub resolved_at : Option ℕ

pub record BudgetDecision : Type 0 where
  pub allowed : Bool
  pub would_block : Bool
  pub run_id : Bytes
  pub budget : ℤ
  pub spent : ℤ
  pub held : ℤ
  pub requested : ℤ
  pub remaining : ℤ
  pub shortfall : ℤ

pub record BudgetLevel : Type 0 where
  pub run_id : Bytes
  pub status : RunStatus
  pub budget : ℤ
  pub spent : ℤ
  pub held : ℤ
  pub remaining : ℤ
  pub unlimited : Bool

pub record RunBudgetStatus : Type 0 where
  pub run_id : Bytes
  pub status : RunStatus
  pub spend_allowed : Bool
  pub blocking_run_id : Bytes
  pub unlimited : Bool
  pub effective_remaining : ℤ
  pub limiting_run_id : Bytes
  pub levels : List BudgetLevel

pub record BudgetEvent : Type 0 where
  pub principal_id : Bytes
  pub run_id : Bytes
  pub lease_id : Bytes
  pub provider : Bytes
  pub model : Bytes
  pub enforced : Bool
  pub requested : ℤ
  pub remaining : ℤ
  pub shortfall : ℤ
  pub created_at : ℕ

pub record RunSummary : Type 0 where
  pub id : Bytes
  pub principal_id : Bytes
  pub parent_run_id : Bytes
  pub budget : ℤ
  pub spend : ℤ
  pub entries : ℕ
  pub status : RunStatus
  pub created_at : ℕ
  pub last_activity : Option ℕ

unfoldable pub over_budget : RunSummary → Bool
over_budget r = ltb_ℤ (pos 0) r.budget && ltb_ℤ r.budget r.spend

pub Result-cases {ℓ} :
    {A : Type ℓ} (r : Result A) → ((e : StoreError) × (r ≡ err e)) ⊎ ((a : A) × (r ≡ ok a))
Result-cases (ok a) = inr (a, refl)
Result-cases (err e) = inl (e, refl)
