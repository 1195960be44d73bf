-- ===== src/Lib.antt =====
-- spendlease: a gateway that gives agents leases on a budget. A principal has runs, which form a tree;
-- every run may have a budget, and each request holds an amount against the budgets of its run and of
-- all ancestors before it is sent. The charge is written to an append-only ledger, a hash chain, and
-- the hold is settled with it. This library models the core of that program: the store, the ledger,
-- the prices and the amounts.
--
-- Files, with the code that they model:
--
-- Base            numbers, integers, texts and lists of the models. An int64 operation is the exact one
--                 wrapped by `wrap64`; a Go string is a list of bytes.
-- Money           internal/money/money.go: ParseUSD is `parse_usd`, Nanos.String is `to_string`.
-- Pricing         internal/pricing/cost.go and estimate.go: Price.Cost is `cost`, rate is `rate`,
--                 the estimates have the names of their functions. Pricing/Book is book.go: `lookup_known`,
--                 `validate_file`, and in Pricing/Book/Load `reload` and the listings. A map is a list of
--                 pairs in the order in which Go's range visits it.
-- Providers       internal/providers: the interface as a record of functions, the request and usage
--                 records, the routing of providers.go, and in Providers/Json, Parse and Features parse.go;
--                 Openai and Anthropic are the adapters in internal/providers/openai and anthropic.
--                 A decoded JSON object is a list of its entries.
-- Gateway         internal/gateway: Gateway/Auth is auth.go and revocation.go, Gateway/Record is
--                 record.go, Gateway/Proxy is proxy.go (`handle_proxy` up to the call of the vendor,
--                 `finish` after it), Gateway/Observe is observe.go. The state is the store and the
--                 set of revoked hashes. Gateway/Proxy/Budgets has every interleaving of the handlers.
-- Billing         internal/billing/usage.go: a map of quantities is a list of pairs; Normalized,
--                 Validate, Add and CanonicalJSON.
-- Ledger          internal/ledger/entry.go: ComputeHash is `compute_hash` (the fields are
--                 `hashed_fields`, their framing `frames`), Seal is `seal`, VerifyChain is `verify_chain`.
-- Store           internal/store/store.go: the records, the statuses and the sentinel errors.
-- Sqlite          internal/store/sqlite: `Db` has one list for each table, newest row first. A method
--                 is a function of the store; each holds its locks and its transaction from start to
--                 end, so that an interleaving of calls is a sequence of these functions. Its children
--                 are Tables (lookups), Principals, Runs, Leases, Tree (the recursive queries), Usage
--                 (the sums), Reservations, Reserve (TryReserve and BudgetStatus), Append (the ledger
--                 table) and Settle. Sqlite/Budget has the invariant of the store, and each method's
--                 proof that it is kept; Sqlite/Budget/Reach puts them together, and Sqlite/Audit does so for
--                 the ledger.
-- Postgres        internal/store/postgres/driver.go: `rebind`. The methods are those of the SQLite store.
-- Operator        internal/operator/operator.go; Sqlite/Operators is internal/store/sqlite/operators.go,
--                 whose two tables no other method reads.
-- Reconcile       internal/reconcile/reconcile.go: Build is `build`, its map from a provider and a model to an
--                 aggregate is a list of pairs.
-- Vault           internal/vault/vault.go; its table, internal/store/sqlite/credentials.go, is
--                 Sqlite/Credentials. Put, Get, Rotate and Verify are `put_key`, `get_key`, `rotate`, `verify`.
-- Keysource       internal/keysource/keysource.go: Resolve is `resolve_key`; a process is the blocks that it writes.
-- Dashboard       internal/dashboard/auth.go: Guard.ProtectRole is `protect_role`, over any state, with the
--                 operators and the audit trail as records of functions on it.
--                 Dashboard/Management is management.go, with the mode switch and the kill switch of
--                 dashboard.go: a function `handle_...` for each form in its Forms and Serve, and
--                 `serve_desk` from the guard to the page.
-- Controlplane    internal/controlplane/controlplane.go: Controlplane/Handlers has a function `handle_...` for each
--                 endpoint, and `serve_api` is a request from the guard to its response. The state is
--                 the gateway's with the operators' tables.
-- Witnesses       the theorems at concrete stores, entries and amounts.
--
-- The inserts check the constraints that internal/store/sqlite/migrations declares (unique keys,
-- foreign keys and CHECKs): the CHECKs first, then the keys, then the references. A failure has the
-- sentinel that `wrap` in internal/store/sqlite/helpers.go gives it. A sum outside int64 is an error. The
-- recursive queries run on fuel, one unit for each level of the tree; a level needs a run of its own,
-- so the number of rows is enough, and a theorem says so.
--
-- Parameters (`Platform`): SHA-256 in hexadecimal, RFC 3339 texts of instants, and the text of the error
-- for an invalid usage. An instant is a count of nanoseconds, zero for the zero time, and the clock
-- is an argument of the methods that read it. Times that SQL compares are compared as texts.
--
-- Sqlite/Migrate is internal/store/sqlite/migrate.go; what a migration's text does is a parameter.
-- Sqlite/Summary is internal/store/sqlite/summary.go. Sqlite/Queries has the list queries; Base/Sort is their order.
--
-- Further parameters: AES-GCM (`Aead`), encoding/json (`Codec`, `Body`), the functions of net, net/url
-- and net/http that the guard calls (`Net`), the YAML decoder of the price files, the vault's answer for
-- a vendor key in the gateway, and the vendor's result of a request. Random identifiers and instants are arguments. The filter of a stream
-- cuts blocks on fuel, one unit for each byte that is pending, and each round takes a block off.
--
-- Not modelled: errors of the database itself, other than those of constraints and sums; the feed of events; HTTP,
-- timeouts, logging and metrics; the tables and charts of the dashboard, and the command line.
pub mod Base
pub mod Money
pub mod Pricing
pub mod Providers
pub mod Gateway
pub mod Reconcile
pub mod Vault
pub mod Keysource
pub mod Postgres
pub mod Dashboard
pub mod Controlplane
pub mod Billing
pub mod Ledger
pub mod Store
pub mod Operator
pub mod Sqlite
pub mod Witnesses
