-- ===== src/Chain/Tests.antt =====
-- Runs of the chain manager over the storage in memory, and the theorems at concrete inputs.
use shardmatrix.Prelude.{ℕ, ◌+◌, ◌≡◌, ◌≢◌, refl, true, some, List, [], ◌∷◌, ok, err, arith}
use shardmatrix.Prelude.Bytes.{le_bytes}
use shardmatrix.Prelude.Assoc.{lookup, insert}
use shardmatrix.Primitives.{toy}
use shardmatrix.Storage.{Storage}
use shardmatrix.Storage.KeyValue.{
  Key, Value, memory, tx_key, block_key, account_key, genesis_key, latest_height_key, a_transaction,
  a_block, an_account, a_genesis, a_height,
}
use shardmatrix.Storage.LevelDb.{LevelDb, level_db, new_storage}
use shardmatrix.Types.{
  Block, Hash, Address, Account, Transaction, GenesisBlock, hash_block, calculate_tx_root,
}
use shardmatrix.Chain.{
  Manager, bad_nonce, get_account, process_transaction, process_hashes, save_accounts, total_cost,
  credit_account,
}
use shardmatrix.Chain.Accounts.{account_of, verdict, after, process_transaction-Refines}
use shardmatrix.Chain.Supply.{supply, burned, supply-process_transaction, process_transaction_mints}
use shardmatrix.Chain.Nonces.{process_all, process_transaction_once}
use shardmatrix.Chain.Blocks.{
  append_block, store_block, add_block, validate_block, rebuild_state, enter_accounts,
  genesis_header,
}
use shardmatrix.Chain.Blocks.Append.{Follows, add_block-Follows}
use shardmatrix.Chain.Blocks.Restart.{rebuild_state_credits_stored}

abbrev Disk : Type 0
Disk = LevelDb (List (Key × Value))

abbrev disk : Storage Disk
disk = level_db memory toy

abbrev account : Address → ℕ → Account
account a balance = record { address = a; balance = balance; nonce = 0; staked = 0 }

abbrev pay : Address → Address → ℕ → ℕ → Transaction
pay from to amount nonce = record {
  shard_id = 1;
  from = from;
  to = to;
  amount = amount;
  gas_price = 2;
  gas_limit = 5;
  nonce = nonce;
  payload = [];
  signature = 77;
}

abbrev genesis_block : Block
genesis_block = record { header = genesis_header 1000 7 8; transactions = [] }

abbrev manager_on : List (Key × Value) → Manager Disk
manager_on d = record {
  storage = new_storage d;
  current_block = some genesis_block;
  current_state = (11, account 11 1000) ∷ (22, account 22 5) ∷ [];
  genesis_block = some genesis_block;
  is_initialized = true;
}

abbrev start : Manager Disk
start = manager_on []

paid : (process_transaction disk (pay 11 22 300 1) start).0 ≡ ok tt
unfolding level_db memory toy process_transaction insert lookup
paid = refl

refused_for_its_nonce : (process_transaction disk (pay 11 22 300 2) start).0 ≡ err bad_nonce
unfolding level_db memory toy process_transaction insert lookup
refused_for_its_nonce = refl

balances_after :
    supply (account_of disk (process_transaction disk (pay 11 33 300 1) start).1) (11 ∷ 33 ∷ [])
    ≡ 990
unfolding level_db memory toy process_transaction insert lookup
balances_after = refl

process_transaction-Refines_example :
    let (r, m') = process_transaction disk (pay 11 11 300 1) start in
    (r ≡ verdict (pay 11 11 300 1) (account_of disk start))
    × ((a : Address) → account_of disk m' a ≡ after (pay 11 11 300 1) (account_of disk start) a)
process_transaction-Refines_example = process_transaction-Refines disk (pay 11 11 300 1) start

supply-process_transaction_example :
    let (r, m') = process_transaction disk (pay 11 22 300 1) start in
    supply (account_of disk m') (11 ∷ 22 ∷ []) + burned (pay 11 22 300 1) r
    ≡ supply (account_of disk start) (11 ∷ 22 ∷ [])
unfolding level_db memory toy get_account lookup
supply-process_transaction_example =
    supply-process_transaction disk (pay 11 22 300 1) start (11 ∷ 22 ∷ []) refl refl (omega arith)
      (omega arith)

-- An amount of 2 ^ 64 - 4 with 10 gas costs 6.
abbrev huge : Transaction
huge = pay 11 22 18446744073709551606 1

process_transaction_mints_example :
    let (r, m') =
      process_transaction disk huge (record start { current_state = (11, account 11 20) ∷ [] }) in
    (r ≡ ok tt)
    × (supply (account_of disk m') (11 ∷ 22 ∷ []) + total_cost huge
        ≡ supply
            (account_of disk (record start { current_state = (11, account 11 20) ∷ [] }))
            (11 ∷ 22 ∷ [])
          + huge.amount)
unfolding level_db memory toy get_account lookup
process_transaction_mints_example =
    process_transaction_mints disk huge (record start { current_state = (11, account 11 20) ∷ [] })
      (11 ∷ 22 ∷ []) refl refl refl (omega arith) (omega arith) (omega arith) refl (omega arith)

process_transaction_once_example :
    (process_transaction disk (pay 11 22 300 1) (
      process_all disk
        (pay 11 33 1 2 ∷ pay 22 11 1 7 ∷ [])
        (process_transaction disk (pay 11 22 300 1) start).1)).0
    ≢ ok tt
unfolding level_db memory toy get_account lookup
process_transaction_once_example =
    process_transaction_once disk (pay 11 22 300 1) (pay 11 33 1 2 ∷ pay 22 11 1 7 ∷ []) start
      (omega arith) paid

abbrev next_block : List Hash → Block
next_block hs = record {
  header = record (genesis_header 1002 (calculate_tx_root toy hs) 8) {
    number = 1;
    prev_hash = hash_block toy genesis_block;
  };
  transactions = hs;
}

next_block-Follows : (hs : List Hash) → Follows toy genesis_block (next_block hs)
next_block-Follows hs = record { height = refl; link = refl; root = refl; shard = refl }

-- The first transaction is good, the second has a wrong nonce.
abbrev with_two : Manager Disk
with_two = manager_on (
    (tx_key 501, a_transaction (pay 11 22 300 1))
    ∷ (tx_key 502, a_transaction (pay 11 22 1 9))
    ∷ [])

accepted : (add_block disk toy (next_block (501 ∷ [])) with_two).0 ≡ ok tt
unfolding level_db memory toy add_block validate_block process_transaction insert lookup
    process_hashes save_accounts hash_block calculate_tx_root le_bytes append_block store_block
accepted = refl

add_block-Follows_example :
    Follows toy genesis_block (next_block (501 ∷ []))
    × ((add_block disk toy (next_block (501 ∷ [])) with_two).1.current_block
        ≡ some (next_block (501 ∷ [])))
    × (with_two.is_initialized ≡ true)
add_block-Follows_example =
    add_block-Follows disk toy genesis_block (next_block (501 ∷ [])) with_two refl accepted

abbrev genesis : GenesisBlock
genesis = record {
  timestamp = 1000;
  init_accounts = account 11 1000 ∷ [];
  validators = [];
  chain_id = [];
  config = [];
}

-- The disk of a node that has executed a block in which account 11 paid 300 to account 22.
abbrev after_block : Manager Disk
after_block = manager_on (
    (genesis_key, a_genesis genesis)
    ∷ (latest_height_key, a_height 1)
    ∷ (block_key 1, a_block (next_block (501 ∷ [])))
    ∷ (tx_key 501, a_transaction (pay 11 22 300 1))
    ∷ (account_key 11, an_account (record (account 11 690) { nonce = 1 }))
    ∷ (account_key 22, an_account (account 22 300))
    ∷ [])

-- After a restart account 22 has 600.
rebuild_state_credits_stored_example :
    let (r, m') = rebuild_state disk toy after_block in
    (r ≡ ok tt) × (account_of disk m' 22 ≡ credit_account 300 (account 22 300))
unfolding level_db memory toy insert lookup enter_accounts
rebuild_state_credits_stored_example =
    rebuild_state_credits_stored disk after_block genesis toy (next_block (501 ∷ [])) 501
      (pay 11 22 300 1) (account 11 1000) (account 22 300) refl refl refl refl refl refl refl refl
      (omega arith) refl
