-- ===== src/Pool/Sizes.antt =====
-- transaction_pool.go: what adding, evicting and removing keep of the map and the queue.
use mathlib.Core.List.Permᴰ as PermD
use shardmatrix.Prelude.{
  ℕ, suc, ◌+◌, ◌-◌, ◌≤◌, ◌<◌, ◌≡◌, refl, sym, ap, ◌∙◌, Bool, true, false, Option, none, some, inl,
  inr, List, [], ◌∷◌, ok, length, get_elem?-lt, ◌==◌, ==-refl, if◌then◌else◌, arith, All,
  All-get_elem?, Bool-cases, Option-cases, Result-cases,
}
use shardmatrix.Prelude.Assoc.{Assoc, lookup, insert, erase, lookup-insert, lookup-erase}
use shardmatrix.Prelude.Permutations.{All-perm, length-perm}
use shardmatrix.Primitives.{Primitives}
use shardmatrix.Types.{Hash, Transaction, hash_tx}
use shardmatrix.Pool.Queue.{TxPriorityItem, PriorityQueue, push, length-push, All-push}
use shardmatrix.Pool.{
  TransactionPool, Ranging, item_at, push_all, rebuild_pending_queue, remove_transaction,
  remove_transactions, evict_lowest_priority, admit, validate_transaction,
}
use shardmatrix.Pool.Maps.{
  HasUniqueKeys, All-map, All-zip, entries_found, erase-All, erase-HasUniqueKeys, length-erase,
  insert-All, length-insert, insert-HasUniqueKeys,
}

-- Every entry of the map stands under its hash, once; every item of the queue is in the map, and
-- the queue is as long as the map.
pub record IsConsistent (p : Primitives) (tp : TransactionPool) : Type 0 where
  pub keyed : All (λ e. hash_tx p e.1 ≡ e.0) tp.transactions
  pub unique : HasUniqueKeys tp.transactions
  pub held : All (λ x. lookup (hash_tx p x.tx) tp.transactions ≡ some x.tx) tp.pending
  pub count : length tp.pending ≡ length tp.transactions

-- What fits under the limit.
abbrev pub IsWithin : TransactionPool → Type 0
IsWithin tp = length tp.transactions ≤ tp.max_txs

pub push_all-All :
    (P : TxPriorityItem → Type 0) (now : ℕ) (m : Assoc Transaction) (q : PriorityQueue)
    → All (λ e. P (item_at now e.1)) m
    → All P q
    → All P (push_all now m q)
unfolding push_all
push_all-All P now [] q h k = k
push_all-All P now ((j, t) ∷ m) q h k =
    push_all-All P now m (push (item_at now t) q) h.1 (All-push P (item_at now t) q h.0 k)

length-push_all :
    (now : ℕ) (m : Assoc Transaction) (q : PriorityQueue)
    → length (push_all now m q) ≡ length m + length q
unfolding push_all
length-push_all now [] q = omega arith
length-push_all now ((j, t) ∷ m) q =
    omega (arith, length-push_all now m (push (item_at now t) q), length-push (item_at now t) q)

none_stays : {A : Type 0} (b : Bool) {o : Option A} → o ≡ none → (if b then none else o) ≡ none
none_stays true h = refl
none_stays false h = h

known_stays :
    (h k : ℕ) (t u : Transaction) (m : Assoc Transaction)
    → lookup h m ≡ none
    → lookup k m ≡ some u
    → (if k == h then some t else lookup k m) ≡ some u
known_stays h k t u m new known = elim (Bool-cases (k == h)) [
  | inr other ↦ rw other known
  | inl same ↦
      let equal : k ≡ h = ground arith in
      let clash : some u ≡ none = sym known ∙ ap (λ (i : ℕ). lookup i m) equal ∙ new in
      absurd (cc clash)
]

module _ (p : Primitives) (r : Ranging) where
  rebuild_pending_queue-IsConsistent :
      (now : ℕ) (tp : TransactionPool)
      → All (λ e. hash_tx p e.1 ≡ e.0) tp.transactions
      → HasUniqueKeys tp.transactions
      → IsConsistent p (rebuild_pending_queue p r now tp)
  unfolding rebuild_pending_queue
  rebuild_pending_queue-IsConsistent now tp keyed unique =
      let m = tp.transactions in
      let found : All (λ e. lookup (hash_tx p e.1) m ≡ some e.1) m =
        All-zip m (λ e key at. ap (λ k. lookup k m) key ∙ at) keyed (entries_found m unique) in
      record {
        keyed = keyed;
        unique = unique;
        held =
            push_all-All (λ x. lookup (hash_tx p x.tx) m ≡ some x.tx) now (r.order m) []
              (All-perm (λ e. lookup (hash_tx p e.1) m ≡ some e.1) (PermD.symm (r.order-perm m))
                found)
              tt;
        count = omega (arith, length-push_all now (r.order m) [], length-perm (r.order-perm m));
      }

  -- A removal, whether it finds its transaction or not.
  remove_transaction-IsConsistent :
      (now : ℕ) (h : Hash) (tp : TransactionPool)
      → IsConsistent p tp
      → IsConsistent p (remove_transaction p r now h tp).1
  unfolding remove_transaction
  remove_transaction-IsConsistent now h tp c = elim (Option-cases (lookup h tp.transactions)) [
    | inl unknown ↦ rw (remove_transaction, unknown) c
    | inr (t, known) ↦
        let rebuilt =
          rebuild_pending_queue-IsConsistent now
            (record tp { transactions = erase h tp.transactions })
            (erase-All (λ e. hash_tx p e.1 ≡ e.0) h tp.transactions c.keyed)
            (erase-HasUniqueKeys h tp.transactions c.unique) in
        rw (remove_transaction, known)
          (record {
            keyed = rebuilt.keyed;
            unique = rebuilt.unique;
            held = rebuilt.held;
            count = rebuilt.count;
          })
  ]

  -- What a removal that finds its transaction does to the sizes, and to the other transactions.
  pub remove_transaction-found :
      (now : ℕ) (h : Hash) (t : Transaction) (tp : TransactionPool)
      → HasUniqueKeys tp.transactions
      → lookup h tp.transactions ≡ some t
      → let (result, tp') = remove_transaction p r now h tp in
        (result ≡ ok tt)
        × (length tp.transactions ≡ suc (length tp'.transactions))
        × (tp'.max_txs ≡ tp.max_txs)
        × ((k : Hash)
            → lookup k tp'.transactions ≡ (if k == h then none else lookup k tp.transactions))
  unfolding remove_transaction rebuild_pending_queue
  remove_transaction-found now h t tp unique known =
      rw (remove_transaction, known)
        (
          refl,
          length-erase h t tp.transactions unique known,
          refl,
          λ k. lookup-erase h k tp.transactions,
        )

  remove_transaction-IsWithin :
      (now : ℕ) (h : Hash) (tp : TransactionPool)
      → HasUniqueKeys tp.transactions
      → IsWithin tp
      → IsWithin (remove_transaction p r now h tp).1
  remove_transaction-IsWithin now h tp unique within =
      elim (Option-cases (lookup h tp.transactions)) [
        | inl unknown ↦ unfold remove_transaction in rw (remove_transaction, unknown) within
        | inr (t, known) ↦
            let (_, size, same, _) = remove_transaction-found now h t tp unique known in
            omega (arith, size, same, within)
      ]

  pub remove_transactions-IsConsistent :
      (now : ℕ) (hs : List Hash) (tp : TransactionPool)
      → IsConsistent p tp
      → IsWithin tp
      → IsConsistent p (remove_transactions p r now hs tp)
        × IsWithin (remove_transactions p r now hs tp)
  unfolding remove_transactions
  remove_transactions-IsConsistent now [] tp c w = (c, w)
  remove_transactions-IsConsistent now (h ∷ hs) tp c w =
      remove_transactions-IsConsistent now hs (remove_transaction p r now h tp).1
        (remove_transaction-IsConsistent now h tp c)
        (remove_transaction-IsWithin now h tp c.unique w)

  pub admit-IsConsistent :
      (now : ℕ) (t : Transaction) (tp : TransactionPool)
      → IsConsistent p tp
      → lookup (hash_tx p t) tp.transactions ≡ none
      → length tp.transactions < tp.max_txs
      → IsConsistent p (admit p r now t tp).1 × IsWithin (admit p r now t tp).1
  unfolding admit
  admit-IsConsistent now t tp c new room = elim (Result-cases (validate_transaction t)) [
    | inr (e, bad) ↦ rw (admit, bad) (c, omega arith)
    | inl (_, good) ↦
        let h = hash_tx p t in
        let size = length-insert h t tp.transactions new in
        let admitted : IsConsistent p (record tp {
          transactions = insert h t tp.transactions;
          pending = push (item_at now t) tp.pending;
        }) =
          record {
            keyed = insert-All (λ e. hash_tx p e.1 ≡ e.0) h t tp.transactions refl c.keyed;
            unique = insert-HasUniqueKeys h t tp.transactions new c.unique;
            held =
                All-push (λ x. lookup (hash_tx p x.tx) (insert h t tp.transactions) ≡ some x.tx)
                  (item_at now t) tp.pending
                  (lookup-insert h h t tp.transactions ∙ rw (==-refl h) refl)
                  (All-map tp.pending
                    (λ x at.
                      lookup-insert h (hash_tx p x.tx) t tp.transactions
                      ∙ known_stays h (hash_tx p x.tx) t x.tx tp.transactions new at)
                    c.held);
            count = omega (arith, size, c.count, length-push (item_at now t) tp.pending);
          } in
        rw (admit, good) (admitted, omega (arith, size))
  ]

  pub evict_lowest_priority-IsConsistent :
      (now : ℕ) (tp : TransactionPool)
      → IsConsistent p tp
      → 1 ≤ length tp.transactions
      → let (result, tp') = evict_lowest_priority p r now tp in
        (result ≡ ok tt)
        × IsConsistent p tp'
        × (length tp.transactions ≡ suc (length tp'.transactions))
        × (tp'.max_txs ≡ tp.max_txs)
        × ((k : Hash) → lookup k tp.transactions ≡ none → lookup k tp'.transactions ≡ none)
  unfolding evict_lowest_priority
  evict_lowest_priority-IsConsistent now tp c some_there =
      let (last, at) = get_elem?-lt tp.pending (length tp.pending - 1) (omega (arith, c.count)) in
      let held =
        All-get_elem? (λ x. lookup (hash_tx p x.tx) tp.transactions ≡ some x.tx) tp.pending _ c.held
          at in
      let (done, size, same, rest) =
        remove_transaction-found now (hash_tx p last.tx) last.tx tp c.unique held in
      rw (evict_lowest_priority, at)
        (
          done,
          remove_transaction-IsConsistent now (hash_tx p last.tx) tp c,
          size,
          same,
          λ k new. rest k ∙ none_stays (k == hash_tx p last.tx) new,
        )
