-- ===== src/Pool/Tests.antt =====
-- Runs of transaction_pool.go, and the theorems at concrete inputs.
use shardmatrix.Prelude.{ℕ, suc, ◌≡◌, refl, true, none, some, [], ◌∷◌, err, length, arith, map}
use shardmatrix.Prelude.Assoc.{lookup, insert, erase}
use shardmatrix.Prelude.Bytes.{le_bytes}
use shardmatrix.Primitives.{toy}
use shardmatrix.Types.{Transaction, hash_tx, tx_preimage}
use shardmatrix.Pool.{
  TransactionPool, in_order, add_transaction, admit, evict_lowest_priority, remove_transaction,
  rebuild_pending_queue, push_all, pop_some, validate_transaction, bad_amount, exists_already,
  cleanup_expired_transactions, remove_from_queued,
}
use shardmatrix.Pool.Queue.{push, pop, up, down}
use shardmatrix.Pool.Sizes.{IsConsistent, IsWithin}
use shardmatrix.Pool.Calls.{to_add, to_cleanup, perform_all, perform_all-IsConsistent}
use shardmatrix.Pool.Removing.{add_transaction_evicts_for_invalid, remove_transaction_restarts}

abbrev pay : ℕ → ℕ → Transaction
pay amount gas_price = record {
  shard_id = 1;
  from = 11;
  to = 22;
  amount = amount;
  gas_price = gas_price;
  gas_limit = 5;
  nonce = 1;
  payload = [];
  signature = 77;
}

abbrev empty : TransactionPool
empty = record {
  transactions = [];
  pending = [];
  queued = [];
  max_txs = 3;
  max_lifetime = 100;
  running = true;
}

abbrev add : ℕ → Transaction → TransactionPool → TransactionPool
add now t tp = (add_transaction toy in_order now t tp).1

-- Gas prices 9, 1 and 5 fill the pool.
abbrev full : TransactionPool
full = add 3 (pay 3 5) (add 2 (pay 2 1) (add 1 (pay 1 9) empty))

-- A fourth transaction drives out the one with price 5, not the one with price 1.
drives_out_five :
    map (λ (t : Transaction). t.gas_price) (pop_some 9 (add 4 (pay 4 7) full).pending)
    ≡ 9 ∷ 7 ∷ 1 ∷ []
unfolding add_transaction admit evict_lowest_priority remove_transaction rebuild_pending_queue
    push_all push pop up down pop_some in_order toy hash_tx validate_transaction insert lookup erase
    tx_preimage le_bytes remove_from_queued
drives_out_five = refl

refusals :
    ((add_transaction toy in_order 4 (pay 1 9) full).0 ≡ err exists_already)
    × ((add_transaction toy in_order 4 (pay 0 9) empty).0 ≡ err bad_amount)
unfolding add_transaction admit push up hash_tx toy insert lookup tx_preimage le_bytes
    validate_transaction
refusals = (refl, refl)

empty-IsConsistent : IsConsistent toy empty
empty-IsConsistent = record { keyed = tt; unique = tt; held = tt; count = refl }

full-IsConsistent : IsConsistent toy full
full-IsConsistent =
    (perform_all-IsConsistent toy in_order
      (to_add 1 (pay 1 9) ∷ to_add 2 (pay 2 1) ∷ to_add 3 (pay 3 5) ∷ []) empty empty-IsConsistent
      (omega arith)).0

perform_all-IsConsistent_example :
    IsConsistent toy (perform_all toy in_order (to_add 1 (pay 1 9) ∷ to_cleanup 900 ∷ []) empty)
    × IsWithin (perform_all toy in_order (to_add 1 (pay 1 9) ∷ to_cleanup 900 ∷ []) empty)
perform_all-IsConsistent_example =
    perform_all-IsConsistent toy in_order (to_add 1 (pay 1 9) ∷ to_cleanup 900 ∷ []) empty
      empty-IsConsistent (omega arith)

full_size : length full.transactions ≡ 3
unfolding add_transaction admit push up hash_tx toy insert lookup tx_preimage le_bytes
    validate_transaction
full_size = refl

full_running : full.running ≡ true
unfolding add_transaction admit push up hash_tx toy insert lookup tx_preimage le_bytes
    validate_transaction
full_running = refl

full_limit : full.max_txs ≡ 3
unfolding add_transaction admit push up hash_tx toy insert lookup tx_preimage le_bytes
    validate_transaction
full_limit = refl

unknown : lookup (hash_tx toy (pay 0 4)) full.transactions ≡ none
unfolding add_transaction admit push up hash_tx toy insert lookup tx_preimage le_bytes
    validate_transaction
unknown = refl

invalid : validate_transaction (pay 0 4) ≡ err bad_amount
unfolding validate_transaction
invalid = refl

add_transaction_evicts_for_invalid_example :
    let (result, tp') = add_transaction toy in_order 4 (pay 0 4) full in
    (result ≡ err bad_amount) × (length full.transactions ≡ suc (length tp'.transactions))
add_transaction_evicts_for_invalid_example =
    add_transaction_evicts_for_invalid toy in_order 4 (pay 0 4) bad_amount full full-IsConsistent
      full_running (omega (arith, full_size)) (omega (arith, full_size, full_limit)) unknown invalid

abbrev two : TransactionPool
two = record {
  transactions = (1, pay 1 9) ∷ (2, pay 2 1) ∷ [];
  pending = [];
  queued = [];
  max_txs = 3;
  max_lifetime = 100;
  running = true;
}

known : lookup 1 two.transactions ≡ some (pay 1 9)
unfolding lookup
known = refl

remove_transaction_restarts_example :
    let tp' = (remove_transaction toy in_order 500 1 two).1 in
    cleanup_expired_transactions toy in_order 600 tp' ≡ tp'
remove_transaction_restarts_example =
    remove_transaction_restarts toy in_order 500 600 1 (pay 1 9) two known (omega arith)
