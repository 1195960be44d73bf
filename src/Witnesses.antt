-- ===== src/Witnesses.antt =====
-- The data that the examples share: one principal, a root run with a child, a hold and its charge.
mod Budget
mod Chain
mod Leases
mod Text
mod Book
mod Gateway
mod Observe
mod Operators
mod Covered
mod Reconcile
mod Providers
mod Vault
mod Control
mod Keysource
mod Migrate
mod Summary
mod Parse
use spendlease.Base.{ℕ, List, [], ◌∷◌, none, Bytes, codes, false}
use spendlease.Base.Int.{pos}
use spendlease.Base.Decimal.{format_nat}
use spendlease.Ledger.{Platform, Entry}
use spendlease.Store.{Principal, Run, Reservation, enforce, active, pending}
use spendlease.Sqlite.Tables.{Db, empty_db}

-- A digest that keeps its argument, marked so that it is never the genesis hash.
abbrev pub plain : Platform
plain = record {
  digest = λ b. b'x' ∷ b;
  format_time = format_nat;
  usage_error = λ u. codes "negative quantity";
}

abbrev pub alice : Principal
alice = record {
  id = codes "p1";
  name = codes "alice";
  key_hash = codes "k1";
  mode = enforce;
  created_at = 1;
}

abbrev pub parent_run : Run
parent_run = record {
  id = codes "r1";
  principal_id = codes "p1";
  parent_run_id = [];
  budget = pos 100;
  status = active;
  created_at = 1;
  closed_at = none;
}

abbrev pub child_run : Run
child_run = record parent_run { id = codes "r2"; parent_run_id = codes "r1"; budget = pos 0 }

abbrev pub hold : Reservation
hold = record {
  id = codes "h1";
  run_id = codes "r2";
  lease_id = [];
  amount = pos 60;
  status = pending;
  expires_at = 9;
  created_at = 2;
  resolved_at = none;
}

abbrev pub charge : Entry
charge = record {
  hash_version = 0;
  seq = 0;
  run_id = codes "r2";
  principal_id = codes "p1";
  provider = codes "openai";
  model = codes "m";
  input_tokens = pos 12;
  output_tokens = pos 7;
  usage = [];
  external_id = [];
  pricing_revision = [];
  price_effective = 0;
  cost = pos 40;
  estimated = false;
  created_at = 0;
  prev_hash = [];
  hash = [];
}

abbrev pub with_alice : Db
with_alice = record empty_db { principals = alice ∷ [] }

abbrev pub with_parent : Db
with_parent = record with_alice { runs = parent_run ∷ [] }

abbrev pub with_child : Db
with_child = record with_alice { runs = child_run ∷ parent_run ∷ [] }

abbrev pub with_hold : Db
with_hold = record with_child { reservations = hold ∷ [] }
