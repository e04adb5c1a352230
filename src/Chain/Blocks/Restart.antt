-- ===== src/Chain/Blocks/Restart.antt =====
-- What rebuildState makes of a stored chain. It starts from the genesis accounts and executes the
-- blocks again, and an account that is not in the map yet is loaded from the storage, where it is
-- as the last block left it.
use shardmatrix.Prelude.{ℕ, ◌≤◌, ◌≡◌, refl, false, none, some, [], ◌∷◌, ok, ◌==◌, arith, ap, ◌∙◌}
use shardmatrix.Prelude.Words.{add64}
use shardmatrix.Prelude.Assoc.{lookup}
use shardmatrix.Primitives.{Primitives}
use shardmatrix.Storage.{Storage}
use shardmatrix.Types.{Block, Hash, Address, Account, Transaction, GenesisBlock}
use shardmatrix.Chain.{
  Manager, total_cost, credit_account, get_account, process_hashes, process_transaction,
  replay_blocks,
}
use shardmatrix.Chain.Accounts.{account_of, verdict, after, process_transaction-Refines}
use shardmatrix.Chain.Hashes.{process_hashes-done}
use shardmatrix.Chain.Blocks.{enter_accounts, rebuild_state}

module _ {S : Type 0} (st : Storage S) (m : Manager S) (g : GenesisBlock) where
  -- The manager from which the blocks are executed again.
  abbrev pub rebuilt_genesis : Manager S
  rebuilt_genesis = record m { current_state = enter_accounts g.init_accounts [] }

  in_genesis :
      (a : Address) (acc : Account)
      → lookup a (enter_accounts g.init_accounts []) ≡ some acc
      → account_of st rebuilt_genesis a ≡ acc
  unfolding get_account
  in_genesis a acc h = ground arith

  not_in_genesis :
      (a : Address) (acc : Account)
      → lookup a (enter_accounts g.init_accounts []) ≡ none
      → st.get_account a m.storage ≡ some acc
      → account_of st rebuilt_genesis a ≡ acc
  unfolding get_account
  not_in_genesis a acc h k = ground arith

  process_one :
      (h : Hash) (k : Manager S) (t : Transaction)
      → st.get_transaction h k.storage ≡ some t
      → (process_transaction st t k).0 ≡ ok tt
      → process_hashes st (h ∷ []) k ≡ (ok tt, (process_transaction st t k).1)
  process_one h k t known done =
      process_hashes-done st h [] k t known done ∙ unfold process_hashes in refl

  rebuild_state-replay :
      (p : Primitives) (last : ℕ)
      → st.get_genesis_block m.storage ≡ some g
      → st.get_latest_block_height m.storage ≡ some last
      → rebuild_state st p m ≡ replay_blocks st last 1 rebuilt_genesis
  unfolding rebuild_state
  rebuild_state-replay p last eg eh = ground arith

  replay_one :
      (b : Block) (k : Manager S) {k' : Manager S}
      → st.get_block 1 k.storage ≡ some b
      → process_hashes st b.transactions k ≡ (ok tt, k')
      → replay_blocks st 1 1 k ≡ (ok tt, k')
  unfolding replay_blocks
  replay_one b k eb e = ground arith

  rebuild_one :
      (p : Primitives) (b : Block) (h : Hash) (t : Transaction)
      → st.get_genesis_block m.storage ≡ some g
      → st.get_latest_block_height m.storage ≡ some 1
      → st.get_block 1 m.storage ≡ some b
      → b.transactions ≡ h ∷ []
      → st.get_transaction h m.storage ≡ some t
      → (process_transaction st t rebuilt_genesis).0 ≡ ok tt
      → rebuild_state st p m ≡ (ok tt, (process_transaction st t rebuilt_genesis).1)
  rebuild_one p b h t eg eh eb shape known done =
      let step = process_one h rebuilt_genesis t known done in
      let processed = ap (λ hs. process_hashes st hs rebuilt_genesis) shape ∙ step in
      rebuild_state-replay p 1 eg eh ∙ replay_one b rebuilt_genesis eb processed

  -- A chain of one block with one transaction, known to the storage, from a genesis account that
  -- can pay it with the right nonce, to an address that is no genesis account but is stored as
  -- `stored`: rebuilding the state succeeds, and the receiver has the amount on top of what was
  -- stored. Where the storage was written after that block, the amount counts twice.
  pub rebuild_state_credits_stored :
      (p : Primitives) (b : Block) (h : Hash) (t : Transaction) (sender stored : Account)
      → st.get_genesis_block m.storage ≡ some g
      → st.get_latest_block_height m.storage ≡ some 1
      → st.get_block 1 m.storage ≡ some b
      → b.transactions ≡ h ∷ []
      → st.get_transaction h m.storage ≡ some t
      → lookup t.from (enter_accounts g.init_accounts []) ≡ some sender
      → lookup t.to (enter_accounts g.init_accounts []) ≡ none
      → st.get_account t.to m.storage ≡ some stored
      → total_cost t ≤ sender.balance
      → t.nonce ≡ add64 sender.nonce 1
      → let (r, m') = rebuild_state st p m in
        (r ≡ ok tt) × (account_of st m' t.to ≡ credit_account t.amount stored)
  rebuild_state_credits_stored p b h t sender stored eg eh eb shape known from_genesis to_new kept
        pays nonce =
      let v = account_of st rebuilt_genesis in
      let is_sender : v t.from ≡ sender = in_genesis t.from sender from_genesis in
      let is_stored : v t.to ≡ stored = not_in_genesis t.to stored to_new kept in
      let (result, accounts) = process_transaction-Refines st t rebuilt_genesis in
      let accepted : verdict t v ≡ ok tt = ground arith in
      let apart : (t.to == t.from) ≡ false = ground arith in
      let whole = rebuild_one p b h t eg eh eb shape known (result ∙ accepted) in
      let credited : after t v t.to ≡ credit_account t.amount stored = ground arith in
      (ap (λ r. r.0) whole, ap (λ r. account_of st r.1 t.to) whole ∙ accounts t.to ∙ credited)
