-- ===== src/Pool.antt =====
-- pkg/blockchain/transaction_pool.go: the pool of transactions that wait for a block. The maps are
-- association lists; in what order a `range` meets the entries of one is an argument (`Ranging`).
-- Times and durations are nanoseconds. The channel that stops the cleaning is left out, and a negative limit
-- is 0, which the code treats alike.
pub mod Queue
pub mod Maps
pub mod Sizes
pub mod Calls
pub mod Removing
pub mod Pending
mod Tests
use mathlib.Core.List.{Permᴰ}
use mathlib.Core.List.Permᴰ as PermD
use shardmatrix.Prelude.{
  ℕ, zero, suc, ◌+◌, ◌-◌, ◌<◌, Bool, true, false, not, ◌&&◌, ◌||◌, Option, none, some, List, [],
  ◌∷◌, ◌++◌, Result, ok, err, length, get_elem?, ltb, leb, ◌==◌, if◌then◌else◌, require, ◌>>=◌,
  ◌>>◌,
}
use shardmatrix.Prelude.Assoc.{Assoc, lookup, insert, erase}
use shardmatrix.Primitives.{Primitives}
use shardmatrix.Types.{Address, Hash, Transaction, hash_tx, is_zero, first_shard}
use shardmatrix.Pool.Queue.{TxPriorityItem, PriorityQueue, push, pop}

pub data PoolError : Type 0 where
  is_running not_running exists_already not_found nothing_to_evict : PoolError
  bad_address bad_amount bad_gas no_signature bad_shard : PoolError

pub record TransactionPool : Type 0 where
  pub transactions : Assoc Transaction
  pub pending : PriorityQueue
  pub queued : Assoc (List Transaction)
  pub max_txs : ℕ
  pub max_lifetime : ℕ
  pub running : Bool

-- The order in which `range` meets the entries: any.
pub record Ranging : Type 0 where
  pub order : Assoc Transaction → Assoc Transaction
  pub order-perm : (m : Assoc Transaction) → Permᴰ (order m) m

-- The order of the list, for running the model.
unfoldable pub in_order : Ranging
in_order = record { order = λ m. m; order-perm = PermD.refl }

-- NewTransactionPool, Start, Stop, Clear
unfoldable pub new_transaction_pool : ℕ → ℕ → TransactionPool
new_transaction_pool max_txs max_lifetime = record {
  transactions = [];
  pending = [];
  queued = [];
  max_txs = max_txs;
  max_lifetime = max_lifetime;
  running = false;
}

unfoldable pub start : TransactionPool → Result PoolError (Unit {0}) × TransactionPool
start tp = if tp.running then (err is_running, tp) else (ok tt, record tp { running = true })

unfoldable pub stop : TransactionPool → TransactionPool
stop tp = record tp { running = false }

unfoldable pub clear : TransactionPool → TransactionPool
clear tp = record tp { transactions = []; pending = []; queued = [] }

-- validateTransaction
unfoldable pub validate_transaction : Transaction → Result PoolError (Unit {0})
validate_transaction t = do
  require (not (is_zero t.from || is_zero t.to)) bad_address
  require (not (t.amount == 0)) bad_amount
  require (not ((t.gas_price == 0) || (t.gas_limit == 0))) bad_gas
  require (not (is_zero t.signature)) no_signature
  require (t.shard_id == first_shard) bad_shard

abbrev pub item_at : ℕ → Transaction → TxPriorityItem
item_at now t = record { tx = t; priority = t.gas_price; add_time = now }

-- The loop of rebuildPendingQueue, at the time `now`.
unfoldable pub push_all : ℕ → Assoc Transaction → PriorityQueue → PriorityQueue
push_all now [] q = q
push_all now ((_, t) ∷ rest) q = push_all now rest (push (item_at now t) q)

-- The loop of GetPendingTransactions on its copy of the queue: at most `count` items.
unfoldable pub pop_some : ℕ → PriorityQueue → List Transaction
pop_some zero q = []
pop_some (suc count) q = elim (pop q) [ none ↦ [] | some (x, rest) ↦ x.tx ∷ pop_some count rest ]

unfoldable pub get_pending_transactions : ℕ → TransactionPool → Result PoolError (List Transaction)
unfolding pop_some
get_pending_transactions max_count tp =
    if tp.running then ok (pop_some max_count tp.pending) else err not_running

-- GetTransaction and HasTransaction
unfoldable pub get_transaction : Hash → TransactionPool → Option Transaction
get_transaction h tp = lookup h tp.transactions

-- GetTransactionsByAddress, in the order of the map
unfoldable pub by_address : Address → Assoc Transaction → List Transaction
by_address a [] = []
by_address a ((_, t) ∷ rest) =
    let found = by_address a rest in if (t.from == a) || (t.to == a) then t ∷ found else found

module _ (p : Primitives) where
  -- The first transaction with the hash is cut out of the list of its sender.
  cut_out : Hash → List Transaction → List Transaction
  cut_out h [] = []
  cut_out h (t ∷ ts) = let rest = cut_out h ts in if hash_tx p t == h then ts else t ∷ rest

  -- removeFromQueued
  unfoldable pub remove_from_queued :
      Address → Hash → Assoc (List Transaction) → Assoc (List Transaction)
  unfolding cut_out
  remove_from_queued a h m = elim (lookup a m) [
    | none ↦ m
    | some ts ↦ elim (cut_out h ts) [ [] ↦ erase a m | u ∷ us ↦ insert a (u ∷ us) m ]
  ]

  module _ (r : Ranging) where
    -- rebuildPendingQueue
    unfoldable pub rebuild_pending_queue : ℕ → TransactionPool → TransactionPool
    unfolding push_all
    rebuild_pending_queue now tp = record tp { pending = push_all now (r.order tp.transactions) [] }

    -- removeTransaction, also RemoveTransaction
    unfoldable pub remove_transaction :
        ℕ → Hash → TransactionPool → Result PoolError (Unit {0}) × TransactionPool
    unfolding rebuild_pending_queue remove_from_queued
    remove_transaction now h tp = elim (lookup h tp.transactions) [
      | none ↦ (err not_found, tp)
      | some t ↦
          let rebuilt =
            rebuild_pending_queue now (record tp { transactions = erase h tp.transactions }) in
          (ok tt, record rebuilt { queued = remove_from_queued t.from h rebuilt.queued })
    ]

    -- RemoveTransactions; the errors are dropped.
    unfoldable pub remove_transactions : ℕ → List Hash → TransactionPool → TransactionPool
    unfolding remove_transaction
    remove_transactions now [] tp = tp
    remove_transactions now (h ∷ hs) tp = remove_transactions now hs (remove_transaction now h tp).1

    -- evictLowestPriority: the last slot of the heap.
    unfoldable pub evict_lowest_priority :
        ℕ → TransactionPool → Result PoolError (Unit {0}) × TransactionPool
    unfolding remove_transaction
    evict_lowest_priority now tp = elim (get_elem? tp.pending (length tp.pending - 1)) [
      | none ↦ (err nothing_to_evict, tp)
      | some last ↦ remove_transaction now (hash_tx p last.tx) tp
    ]

    -- The end of AddTransaction, once there is room.
    unfoldable pub admit :
        ℕ → Transaction → TransactionPool → Result PoolError (Unit {0}) × TransactionPool
    unfolding validate_transaction
    admit now t tp = elim (validate_transaction t) [
      | err e ↦ (err e, tp)
      | ok _ ↦ (
        ok tt,
        record tp {
          transactions = insert (hash_tx p t) t tp.transactions;
          pending = push (item_at now t) tp.pending;
        },
      )
    ]

    -- AddTransaction
    unfoldable pub add_transaction :
        ℕ → Transaction → TransactionPool → Result PoolError (Unit {0}) × TransactionPool
    unfolding evict_lowest_priority admit
    add_transaction now t tp =
        if not tp.running
        then (err not_running, tp)
        else elim (lookup (hash_tx p t) tp.transactions) [
          | some _ ↦ (err exists_already, tp)
          | none ↦
              if leb tp.max_txs (length tp.transactions)
              then (let (evicted, tp') = evict_lowest_priority now tp in
                  elim evicted [ err e ↦ (err e, tp') | ok _ ↦ admit now t tp' ])
              else admit now t tp
        ]

    -- The hashes that cleanupExpiredTransactions finds, in the order of the map.
    abbrev pub is_expired : ℕ → ℕ → Hash → PriorityQueue → Bool
    is_expired lifetime now h [] = false
    is_expired lifetime now h (x ∷ q) =
        ((hash_tx p x.tx == h) && ltb lifetime (now - x.add_time)) || is_expired lifetime now h q

    unfoldable pub expired_hashes : ℕ → ℕ → PriorityQueue → Assoc Transaction → List Hash
    expired_hashes lifetime now q [] = []
    expired_hashes lifetime now q ((h, _) ∷ rest) =
        let more = expired_hashes lifetime now q rest in
        if is_expired lifetime now h q then h ∷ more else more

    -- cleanupExpiredTransactions
    unfoldable pub cleanup_expired_transactions : ℕ → TransactionPool → TransactionPool
    unfolding expired_hashes remove_transactions
    cleanup_expired_transactions now tp =
        remove_transactions now
          (expired_hashes tp.max_lifetime now tp.pending (r.order tp.transactions)) tp
