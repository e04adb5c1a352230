-- ===== src/Pool/Pending.antt =====
-- transaction_pool.go: what GetPendingTransactions returns.
use shardmatrix.Prelude.{
  ℕ, zero, suc, ◌-◌, ◌≤◌, ◌≡◌, refl, ap, ◌∙◌, true, some, none, ok, List, [], ◌∷◌, length,
  get_elem?-lt, take, All, All-get_elem?, All-take, leb, if◌then◌else◌, arith,
}
use shardmatrix.Prelude.Assoc.{lookup}
use shardmatrix.Primitives.{Primitives}
use shardmatrix.Types.{Transaction, hash_tx}
use shardmatrix.Pool.Queue.{
  TxPriorityItem, PriorityQueue, down, swap, pop, length-swap, All-swap, length-down, All-down,
}
use shardmatrix.Pool.{TransactionPool, pop_some, get_pending_transactions}
use shardmatrix.Pool.Sizes.{IsConsistent}

length-take : (n : ℕ) (q : PriorityQueue) → n ≤ length q → length (take n q) ≡ n
length-take zero q h = refl
length-take (suc n) [] h = absurd (omega arith)
length-take (suc n) (x ∷ q) h = ap suc (length-take n q (omega arith))

-- heap.Pop takes one item out.
pop-cons :
    (P : TxPriorityItem → Type 0) (q : PriorityQueue)
    → 1 ≤ length q
    → All P q
    → (x : TxPriorityItem) × (rest : PriorityQueue) × (pop q ≡ some (x, rest))
      × P x
      × All P rest
      × (length q ≡ suc (length rest))
unfolding pop
pop-cons P q h all =
    let n = length q - 1 in
    let q' = down n 0 n (swap q 0 n) in
    let same : length q' ≡ length q = length-down n 0 n (swap q 0 n) ∙ length-swap q 0 n in
    let all' : All P q' = All-down P n 0 n (swap q 0 n) (All-swap P q 0 n all) in
    let (x, at) = get_elem?-lt q' n (omega (arith, same)) in
    (
      x,
      take n q',
      rw (pop, at) refl,
      All-get_elem? P q' n all' at,
      All-take P n q' all',
      omega (arith, same, length-take n q' (omega (arith, same))),
    )

pop-nil : pop [] ≡ none
unfolding pop down
pop-nil = refl

abbrev pub smaller : ℕ → ℕ → ℕ
smaller a b = if leb a b then a else b

pop_some-All :
    (P : Transaction → Type 0) (count : ℕ) (q : PriorityQueue)
    → All (λ x. P x.tx) q
    → All P (pop_some count q) × (length (pop_some count q) ≡ smaller count (length q))
unfolding pop_some
pop_some-All P zero q all = (tt, ground arith)
pop_some-All P (suc count) [] all = rw (pop_some, pop-nil) (tt, ground arith)
pop_some-All P (suc count) (y ∷ q) all =
    let (x, rest, e, held, all', size) = pop-cons (λ x. P x.tx) (y ∷ q) (omega arith) all in
    let (more, len) = pop_some-All P count rest all' in
    rw (pop_some, e) ((held, more), ground (arith, len, size))

module _ (p : Primitives) where
  -- In a pool that runs and is consistent, GetPendingTransactions with a limit that is not negative succeeds with
  -- as many transactions as the pool has, but at most the limit, and each of them is the one that the pool has under its hash.
  get_pending_transactions-All :
      (max_count : ℕ) (tp : TransactionPool)
      → IsConsistent p tp
      → tp.running ≡ true
      → (ts : List Transaction) × (get_pending_transactions max_count tp ≡ ok ts)
        × (length ts ≡ smaller max_count (length tp.transactions))
        × All (λ t. lookup (hash_tx p t) tp.transactions ≡ some t) ts
  unfolding get_pending_transactions
  get_pending_transactions-All max_count tp c going =
      let (held, size) =
        pop_some-All (λ t. lookup (hash_tx p t) tp.transactions ≡ some t) max_count tp.pending
          c.held in
      (pop_some max_count tp.pending, ground arith, size ∙ ap (smaller max_count) c.count, held)
