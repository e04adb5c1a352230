-- ===== src/Pool/Removing.antt =====
-- transaction_pool.go: what evicting and removing do besides.

use shardmatrix.Prelude.{
  ℕ, suc, ◌+◌, ◌-◌, ◌≤◌, ◌≡◌, refl, true, false, none, some, [], ◌∷◌, err, length, leb, ltb, arith,
  All,
}
use shardmatrix.Prelude.Assoc.{Assoc, lookup, erase}
use shardmatrix.Primitives.{Primitives}
use shardmatrix.Types.{Hash, Transaction, hash_tx}
use shardmatrix.Pool.Queue.{PriorityQueue}
use shardmatrix.Pool.{
  TransactionPool, PoolError, Ranging, rebuild_pending_queue, remove_transaction,
  remove_transactions, evict_lowest_priority, admit, add_transaction, cleanup_expired_transactions,
  validate_transaction, expired_hashes, is_expired, item_at, push_all,
}
use shardmatrix.Pool.Sizes.{IsConsistent, evict_lowest_priority-IsConsistent, push_all-All}

module _ (p : Primitives) (r : Ranging) where
  -- In a pool that runs, is consistent, not empty and full, an AddTransaction of an unknown transaction that
  -- does not pass validateTransaction is refused with that error, but one of the other transactions is gone.
  pub add_transaction_evicts_for_invalid :
      (now : ℕ) (t : Transaction) (e : PoolError) (tp : TransactionPool)
      → IsConsistent p tp
      → tp.running ≡ true
      → 1 ≤ length tp.transactions
      → tp.max_txs ≤ length tp.transactions
      → lookup (hash_tx p t) tp.transactions ≡ none
      → validate_transaction t ≡ err e
      → let (result, tp') = add_transaction p r now t tp in
        (result ≡ err e) × (length tp.transactions ≡ suc (length tp'.transactions))
  unfolding add_transaction admit
  add_transaction_evicts_for_invalid now t e tp c going some_there full new bad =
      let (done, _, size, _, _) = evict_lowest_priority-IsConsistent p r now tp c some_there in
      let is_full : leb tp.max_txs (length tp.transactions) ≡ true = ground arith in
      let same : add_transaction p r now t tp ≡ (err e, (evict_lowest_priority p r now tp).1) =
        ground (arith, done) in
      rw same (refl, size)

  fresh_queue :
      (lifetime now later : ℕ) (h : Hash) (q : PriorityQueue)
      → later ≤ now + lifetime
      → All (λ x. x.add_time ≡ now) q
      → is_expired p r lifetime later h q ≡ false
  fresh_queue lifetime now later h [] soon all = refl
  fresh_queue lifetime now later h (x ∷ q) soon all =
      let rest = fresh_queue lifetime now later h q soon all.1 in
      let young : ltb lifetime (later - x.add_time) ≡ false = ground (arith, all.0) in
      rw (is_expired, young, rest) (ground arith)

  none_expired :
      (lifetime later : ℕ) (q : PriorityQueue) (m : Assoc Transaction)
      → ((h : Hash) → is_expired p r lifetime later h q ≡ false)
      → expired_hashes p r lifetime later q m ≡ []
  unfolding expired_hashes
  none_expired lifetime later q [] k = refl
  none_expired lifetime later q ((h, t) ∷ m) k =
      rw (expired_hashes, k h) (none_expired lifetime later q m k)

  just_added : (now : ℕ) (m : Assoc Transaction) → All (λ e. (item_at now e.1).add_time ≡ now) m
  just_added now [] = tt
  just_added now (e ∷ m) = (refl, just_added now m)

  nothing_cleaned :
      (later : ℕ) (tp : TransactionPool)
      → expired_hashes p r tp.max_lifetime later tp.pending (r.order tp.transactions) ≡ []
      → cleanup_expired_transactions p r later tp ≡ tp
  unfolding cleanup_expired_transactions remove_transactions
  nothing_cleaned later tp h = rw (cleanup_expired_transactions, h) refl

  -- After a removal at a time `now` that finds its transaction, a cleanupExpiredTransactions at any time up to
  -- `now` plus the lifetime removes nothing, however long the other transactions have been in the pool.
  pub remove_transaction_restarts :
      (now later : ℕ) (h : Hash) (t : Transaction) (tp : TransactionPool)
      → lookup h tp.transactions ≡ some t
      → later ≤ now + tp.max_lifetime
      → let tp' = (remove_transaction p r now h tp).1 in
        cleanup_expired_transactions p r later tp' ≡ tp'
  unfolding remove_transaction rebuild_pending_queue
  remove_transaction_restarts now later h t tp known soon =
      let m = erase h tp.transactions in
      let new =
        push_all-All (λ x. x.add_time ≡ now) now (r.order m) [] (just_added now (r.order m)) tt in
      let nothing =
        none_expired tp.max_lifetime later (push_all now (r.order m) []) (r.order m)
          (λ k. fresh_queue tp.max_lifetime now later k (push_all now (r.order m) []) soon new) in
      rw (remove_transaction, known) (nothing_cleaned later _ nothing)
