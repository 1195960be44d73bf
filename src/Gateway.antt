-- ===== src/Gateway.antt =====
-- internal/gateway: the proxy between an agent and a vendor. Auth is auth.go and revocation.go,
-- Record is record.go, Proxy is proxy.go, Observe is observe.go. What only logs, counts or notifies is left out.
pub mod Auth
pub mod Record
pub mod Proxy
pub mod Observe
use spendlease.Base.{ℕ, Bool, List, [], Option, none, some, Bytes, entry_of}
use spendlease.Base.Int.{ℤ}
use spendlease.Pricing.Book.{Book}
use spendlease.Providers.{Registry}
use spendlease.Store.{Principal, Lease}
use spendlease.Sqlite.Tables.{Db}

-- The type of an APIErrorDetail.
pub data ErrorType : Type 0 where
  unauthenticated unknown_route unknown_run budget_exceeded lease_scope_denied : ErrorType
  spend_not_enforceable no_credential upstream internal : ErrorType

pub data EnforcementPolicy : Type 0 where
  strict best_effort : EnforcementPolicy
  other_policy : Bytes → EnforcementPolicy

-- The Recorder's fields, less its store.
pub record Recorder : Type 0 where
  pub book : Book
  pub policy : EnforcementPolicy
  pub default_run_budget : ℤ
  pub reservation_ttl : ℕ

-- What the vault answers for a provider's key.
pub data VaultResult : Type 0 where
  key : Bytes → VaultResult
  missing undecryptable failed : VaultResult

-- The Gateway's fields that decide; a store of leases may be absent, and so may the recorder.
pub record Gateway : Type 0 where
  pub registry : Registry
  pub has_leases : Bool
  pub recorder : Option Recorder
  pub credentials : Bytes → VaultResult

-- What requests share: the store, and the token hashes in the RevocationSet.
pub record State : Type 0 where
  pub db : Db
  pub hashes : List Bytes

-- The values that authentication attaches to a request; an unresolved run is empty.
pub record Context : Type 0 where
  pub principal : Principal
  pub run_id : Bytes
  pub lease : Option Lease

unfoldable pub lease_id_from : Context → Bytes
lease_id_from c = elim c.lease [ none ↦ [] | some l ↦ l.id ]

-- The headers of a request, under their canonical names.
abbrev pub Headers : Type 0
Headers = List (Bytes × Bytes)

unfoldable pub header : Bytes → Headers → Bytes
header name h = elim (entry_of name h) [ none ↦ [] | some v ↦ v ]
