-- ===== src/Witnesses/Chain.antt =====
-- The theorems on the ledger's hash chain, at a ledger of one and of two rows.
use spendlease.Base.{◌≡◌, ◌≢◌, ◌↔◌, refl, ◌∷◌, [], none, Bytes, str_eq, arith}
use spendlease.Billing.{validate, canonical_json, token_usage}
use spendlease.Ledger.{Entry, seal, genesis_hash, itemized_usage, validate_entry, verify_chain}
use spendlease.Ledger.Chain.{
  verify_chain-IsLinked, IsLinked, oldest_first, verify_chain_commits, SameHistory,
}
use spendlease.Store.{ok}
use spendlease.Sqlite.Tables.{Db, find_run, find_principal}
use spendlease.Sqlite.Append.{append_ledger, place, insert_entry, ledger_head, head_hash}
use spendlease.Sqlite.Append.Chained.{IsChained, append_ledger-IsChained}
use spendlease.Witnesses.{plain, charge, with_child}

abbrev sealed : Entry
sealed = seal plain (place 5 with_child charge) genesis_hash

abbrev with_row : Db
with_row = record with_child { ledger = record sealed { usage = itemized_usage sealed } ∷ [] }

appended : append_ledger plain 5 charge with_child ≡ ok (sealed, with_row)
unfolding append_ledger place insert_entry ledger_head head_hash validate_entry itemized_usage
    validate canonical_json seal find_run find_principal str_eq token_usage genesis_hash
appended = refl

row-IsChained : IsChained plain with_row.ledger
row-IsChained = append_ledger-IsChained plain 5 charge sealed with_child with_row appended (tt, tt)

verify_chain-IsLinked_example :
    (verify_chain plain (oldest_first with_row.ledger) ≡ none) ↔ IsLinked plain with_row.ledger
verify_chain-IsLinked_example = verify_chain-IsLinked plain with_row.ledger

marked_inj : (x y : Bytes) → plain.digest x ≡ plain.digest y → x ≡ y
marked_inj x y h = ground arith

marked_fresh : (x : Bytes) → plain.digest x ≢ genesis_hash
unfolding genesis_hash
marked_fresh x h = ground arith

row_verified : verify_chain plain (oldest_first with_row.ledger) ≡ none
row_verified = (verify_chain-IsLinked plain with_row.ledger).1 row-IsChained.1

verify_chain_commits_example : SameHistory plain with_row.ledger with_row.ledger
verify_chain_commits_example =
    verify_chain_commits plain with_row.ledger with_row.ledger marked_inj marked_fresh row_verified
      row_verified refl
