-- ===== src/Chain/Blocks/Append.antt =====
-- What AddBlock guarantees, and what it leaves behind when it fails.
use shardmatrix.Prelude.{
  ◌≡◌, true, none, some, List, ◌∷◌, ◌++◌, ok, err, arith, All, ap, ◌∙◌, inl, inr, Option-cases,
  Result-cases,
}
use shardmatrix.Prelude.Words.{add64}
use shardmatrix.Primitives.{Primitives}
use shardmatrix.Storage.{Storage}
use shardmatrix.Types.{
  Block, Hash, Address, Transaction, first_shard, hash_block, calculate_tx_root,
}
use shardmatrix.Chain.{Manager, ChainError, process_hashes, process_transaction, save_accounts}
use shardmatrix.Chain.Hashes.{
  failed_transaction, process_hashes-append, process_hashes-failed, process_hashes-SameChain,
  process_transaction-SameChain, process_hashes_unknown,
}
use shardmatrix.Chain.Accounts.{account_of}
use shardmatrix.Chain.Blocks.{add_block, append_block, store_block, validate_block}

-- `b` may follow `a`: next height, hash link, transaction root, shard.
pub record Follows (p : Primitives) (a b : Block) : Type 0 where
  pub height : b.header.number ≡ add64 a.header.number 1
  pub link : b.header.prev_hash ≡ hash_block p a
  pub root : b.header.tx_root ≡ calculate_tx_root p b.transactions
  pub shard : b.header.shard_id ≡ first_shard

module _ (p : Primitives) where
  -- The validation of manager.go accepts exactly the blocks that may follow the current one.
  pub validate_block_iff :
      (a b : Block)
      → (validate_block p a b ≡ ok tt → Follows p a b)
        × (Follows p a b → validate_block p a b ≡ ok tt)
  unfolding validate_block
  validate_block_iff a b = (λ h. ground arith, λ h. ground arith)

module _ {S : Type 0} (st : Storage S) (p : Primitives) where
  append_block-current :
      (b : Block) (m : Manager S)
      → (append_block st p b m).0 ≡ ok tt
      → ((append_block st p b m).1.current_block ≡ some b)
  unfolding append_block store_block
  append_block-current b m h = ground arith

  add_block-eq-ok :
      (b : Block) (m : Manager S)
      → (add_block st p b m).0 ≡ ok tt
      → (a : Block) × (m.is_initialized ≡ true)
        × (m.current_block ≡ some a)
        × (validate_block p a b ≡ ok tt)
        × (add_block st p b m ≡ append_block st p b m)
  unfolding add_block
  add_block-eq-ok b m h = elim (Option-cases m.current_block) [
    | inl missing ↦ absurd (ground arith)
    | inr (a, e) ↦ elim (Result-cases (validate_block p a b)) [
      | inl (_, v) ↦ (a, ground arith, e, v, ground arith)
      | inr (_, v) ↦ absurd (ground arith)
    ]
  ]

  -- A block that AddBlock accepts follows the block that was current, and is the current block
  -- afterwards; the manager was initialised.
  pub add_block-Follows :
      (a b : Block) (m : Manager S)
      → m.current_block ≡ some a
      → (add_block st p b m).0 ≡ ok tt
      → Follows p a b × ((add_block st p b m).1.current_block ≡ some b) × (m.is_initialized ≡ true)
  add_block-Follows a b m e h =
      let (a', ready, e', valid, same) = add_block-eq-ok b m h in
      let is_a : a' ≡ a = cc in
      (
        (validate_block_iff p a b).0 (rw is_a at valid),
        rw same (append_block-current b m (rw same at h)),
        ready,
      )

  -- AddBlock is not atomic. A block that may follow the current one, whose transactions up to some
  -- hash are processed and whose transaction at that hash fails, is refused with that error; every
  -- account is left as the transactions before it made it, and the current block stays.
  add_block_keeps_prefix :
      (a b : Block) (m : Manager S) (hs ks : List Hash) (h : Hash) (t : Transaction)
      (e : ChainError)
      → m.is_initialized ≡ true
      → m.current_block ≡ some a
      → Follows p a b
      → b.transactions ≡ hs ++ h ∷ ks
      → (process_hashes st hs m).0 ≡ ok tt
      → st.get_transaction h m.storage ≡ some t
      → let m1 = (process_hashes st hs m).1 in
        (process_transaction st t m1).0 ≡ err e
        → ((add_block st p b m).0 ≡ err e)
          × ((x : Address) → account_of st (add_block st p b m).1 x ≡ account_of st m1 x)
          × ((add_block st p b m).1.current_block ≡ some a)
  unfolding add_block append_block
  add_block_keeps_prefix a b m hs ks h t e ready cur follows shape done known failed =
      let m1 = (process_hashes st hs m).1 in
      let valid = (validate_block_iff p a b).1 follows in
      let before = process_hashes-SameChain st hs m in
      let here : st.get_transaction h m1.storage ≡ some t = cc (before.storage) in
      let stops : process_hashes st b.transactions m ≡ (err e, (process_transaction st t m1).1) =
        rw shape (
          process_hashes-append st hs (h ∷ ks) m done
          ∙ process_hashes-failed st h ks m1 t e here failed) in
      let whole : add_block st p b m ≡ (err e, (process_transaction st t m1).1) = ground arith in
      (
        ap (λ r. r.0) whole,
        λ x. ap (λ r. account_of st r.1 x) whole ∙ failed_transaction st t m1 x failed,
        ap (λ r. r.1.current_block) whole
            ∙ (process_transaction-SameChain st t m1).current_block
            ∙ before.current_block
            ∙ cur,
      )

  -- A block that may follow the current one, none of whose transactions the storage knows, is
  -- accepted whenever it and the accounts can be saved, and no account changes: what it lists is
  -- not executed.
  add_block_unknown :
      (a b : Block) (m : Manager S)
      → m.is_initialized ≡ true
      → m.current_block ≡ some a
      → Follows p a b
      → All (λ h. st.get_transaction h m.storage ≡ none) b.transactions
      → let (saved, s1) = st.save_block b m.storage in
        let (kept, s2) = save_accounts st m.current_state s1 in
        saved ≡ true
        → kept ≡ true
        → add_block st p b m ≡ (ok tt, record m { storage = s2; current_block = some b })
  unfolding add_block append_block store_block
  add_block_unknown a b m ready cur follows unknown saved kept =
      let valid = (validate_block_iff p a b).1 follows in
      let skipped = process_hashes_unknown st b.transactions m unknown in ground arith
