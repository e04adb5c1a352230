-- ===== src/Pool/Calls.antt =====
-- transaction_pool.go: the map and the queue hold the same transactions, never more than the limit.

use shardmatrix.Prelude.{
  ℕ, ◌-◌, ◌≡◌, refl, true, none, inl, inr, List, [], ◌∷◌, err, length, get_elem?, leb, ◌==◌, arith,
  Bool-cases, Option-cases,
}
use shardmatrix.Prelude.Assoc.{lookup}
use shardmatrix.Primitives.{Primitives}
use shardmatrix.Types.{Hash, Transaction, hash_tx}
use shardmatrix.Pool.Queue.{PriorityQueue}
use shardmatrix.Pool.{
  TransactionPool, Ranging, start, stop, clear, remove_transactions, evict_lowest_priority, admit,
  add_transaction, cleanup_expired_transactions, expired_hashes, nothing_to_evict,
}
use shardmatrix.Pool.Sizes.{
  IsConsistent, IsWithin, admit-IsConsistent, evict_lowest_priority-IsConsistent,
  remove_transactions-IsConsistent,
}

get_elem?-empty : (q : PriorityQueue) (i : ℕ) → length q ≡ 0 → get_elem? q i ≡ none
get_elem?-empty [] i h = refl
get_elem?-empty (x ∷ q) i h = absurd (omega arith)

pub data PoolCall : Type 0 where
  to_start to_stop to_clear : PoolCall
  to_add : ℕ → Transaction → PoolCall
  to_remove : ℕ → List Hash → PoolCall
  to_cleanup : ℕ → PoolCall

module _ (p : Primitives) (r : Ranging) where
  -- One call from outside, or of the cleaning, whatever it answers. RemoveTransaction is the call
  -- of RemoveTransactions with one hash.
  abbrev pub perform : PoolCall → TransactionPool → TransactionPool
  perform to_start tp = (start tp).1
  perform to_stop tp = stop tp
  perform to_clear tp = clear tp
  perform (to_add now t) tp = (add_transaction p r now t tp).1
  perform (to_remove now hs) tp = remove_transactions p r now hs tp
  perform (to_cleanup now) tp = cleanup_expired_transactions p r now tp

  abbrev pub perform_all : List PoolCall → TransactionPool → TransactionPool
  perform_all [] tp = tp
  perform_all (c ∷ cs) tp = perform_all cs (perform c tp)

  add_transaction-IsConsistent :
      (now : ℕ) (t : Transaction) (tp : TransactionPool)
      → IsConsistent p tp
      → IsWithin tp
      → IsConsistent p (add_transaction p r now t tp).1 × IsWithin (add_transaction p r now t tp).1
  unfolding add_transaction
  add_transaction-IsConsistent now t tp c w = elim (Bool-cases tp.running) [
    | inr idle ↦ let same : (add_transaction p r now t tp).1 ≡ tp = ground arith in rw same (c, w)
    | inl going ↦ elim (Option-cases (lookup (hash_tx p t) tp.transactions)) [
      | inr (u, known) ↦
          let same : (add_transaction p r now t tp).1 ≡ tp = ground arith in rw same (c, w)
      | inl new ↦ elim (Bool-cases (leb tp.max_txs (length tp.transactions))) [
        | inr room ↦
            let same : add_transaction p r now t tp ≡ admit p r now t tp = ground arith in
            rw same (admit-IsConsistent p r now t tp c new (ground arith))
        | inl full ↦ elim (Bool-cases (length tp.transactions == 0)) [
          | inl empty ↦
              let gone =
                get_elem?-empty tp.pending (length tp.pending - 1) (ground (arith, c.count)) in
              let kept : evict_lowest_priority p r now tp ≡ (err nothing_to_evict, tp) =
                unfold evict_lowest_priority in rw (evict_lowest_priority, gone) refl in
              let same : (add_transaction p r now t tp).1 ≡ tp = ground (arith, kept) in
              rw same (c, w)
          | inr several ↦
              let (done, c', size, limit, still_new) =
                evict_lowest_priority-IsConsistent p r now tp c (ground arith) in
              let same : add_transaction p r now t tp
                  ≡ admit p r now t (evict_lowest_priority p r now tp).1 =
                ground (arith, done) in
              rw same (
                admit-IsConsistent p r now t (evict_lowest_priority p r now tp).1 c'
                  (still_new (hash_tx p t) new) (omega (arith, size, limit, w)))
        ]
      ]
    ]
  ]

  perform-IsConsistent :
      (call : PoolCall) (tp : TransactionPool)
      → IsConsistent p tp
      → IsWithin tp
      → IsConsistent p (perform call tp) × IsWithin (perform call tp)
  unfolding start stop clear cleanup_expired_transactions
  perform-IsConsistent to_start tp c w = elim (Bool-cases tp.running) [
    | inl going ↦ let same : (start tp).1 ≡ tp = ground arith in rw same (c, w)
    | inr idle ↦
        let same : (start tp).1 ≡ record tp { running = true } = ground arith in
        rw same (record { keyed = c.keyed; unique = c.unique; held = c.held; count = c.count }, w)
  ]
  perform-IsConsistent to_stop tp c w =
      (record { keyed = c.keyed; unique = c.unique; held = c.held; count = c.count }, w)
  perform-IsConsistent to_clear tp c w =
      (record { keyed = tt; unique = tt; held = tt; count = refl }, omega arith)
  perform-IsConsistent (to_add now t) tp c w = add_transaction-IsConsistent now t tp c w
  perform-IsConsistent (to_remove now hs) tp c w =
      remove_transactions-IsConsistent p r now hs tp c w
  perform-IsConsistent (to_cleanup now) tp c w =
      remove_transactions-IsConsistent p r now
        (expired_hashes p r tp.max_lifetime now tp.pending (r.order tp.transactions)) tp c w

  -- Take calls of Start, Stop, Clear, AddTransaction, RemoveTransactions and cleanupExpiredTransactions in any
  -- order, with any arguments and times, whether they succeed or not, and any order of the map's entries. If at first
  -- every transaction of the map stands under its hash and only once, every item of the priority queue is in the map,
  -- the queue is as long as the map and the map no longer than the limit, then all this holds at the end.
  pub perform_all-IsConsistent :
      (calls : List PoolCall) (tp : TransactionPool)
      → IsConsistent p tp
      → IsWithin tp
      → IsConsistent p (perform_all calls tp) × IsWithin (perform_all calls tp)
  perform_all-IsConsistent [] tp c w = (c, w)
  perform_all-IsConsistent (call ∷ calls) tp c w =
      let (c', w') = perform-IsConsistent call tp c w in
      perform_all-IsConsistent calls (perform call tp) c' w'
