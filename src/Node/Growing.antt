-- ===== src/Node/Growing.antt =====
-- node.go: every call of the time controller makes the chain of a validator one block longer.
use shardmatrix.Prelude.{
  ℕ, ◌+◌, ◌<◌, ◌≡◌, refl, sym, ap, ◌∙◌, true, none, some, List, [], ◌∷◌, ok, arith, length,
  if◌then◌else◌, ◌==◌,
}
use shardmatrix.Prelude.Words.{word, add64, mul64}
use shardmatrix.Prelude.Assoc.{Assoc}
use shardmatrix.Primitives.{Primitives}
use shardmatrix.Storage.{Storage}
use shardmatrix.Types.{Block, Hash, Account, hash_block, calculate_tx_root}
use shardmatrix.Crypto.{new_key_pair, sign_block, verify_block}
use shardmatrix.Crypto.Signing.{verify_block-sign_block}
use shardmatrix.Chain.{Manager, save_accounts, process_hashes}
use shardmatrix.Chain.Blocks.{add_block, append_block, store_block, get_last_block}
use shardmatrix.Chain.Blocks.Append.{Follows, validate_block_iff}
use shardmatrix.Node.{
  Node, empty_header, empty_block, base_of, produce_empty_block, produce_next, on_block_time,
}

-- Every block and every account can be saved.
pub record Saves {S : Type 0} (st : Storage S) : Type 0 where
  pub blocks : (b : Block) (s : S) → (st.save_block b s).0 ≡ true
  pub accounts : (a : Account) (s : S) → (st.save_account a s).0 ≡ true

save_accounts-Saves :
    {S : Type 0} (st : Storage S) (m : Assoc Account) (s : S)
    → Saves st
    → (save_accounts st m s).0 ≡ true
unfolding save_accounts
save_accounts-Saves st [] s w = refl
save_accounts-Saves st ((k, a) ∷ rest) s w =
    rw (save_accounts, w.accounts a s) (save_accounts-Saves st rest (st.save_account a s).1 w)

module _ {S : Type 0} (st : Storage S) (p : Primitives) where
  -- A block without transactions that may follow the current one is added.
  add_empty_block :
      (a b : Block) (m : Manager S)
      → Saves st
      → m.is_initialized ≡ true
      → m.current_block ≡ some a
      → Follows p a b
      → b.transactions ≡ []
      → ((add_block st p b m).0 ≡ ok tt)
        × ((add_block st p b m).1.current_block ≡ some b)
        × ((add_block st p b m).1.is_initialized ≡ true)
  unfolding add_block append_block store_block process_hashes
  add_empty_block a b m w ready current follows none_listed =
      let valid = (validate_block_iff p a b).1 follows in
      let saved = w.blocks b m.storage in
      let kept = save_accounts-Saves st m.current_state (st.save_block b m.storage).1 w in
      (ground arith, ground arith, ground arith)

-- The time that the block of a call gets: the time of the call if its number is the next one, and
-- otherwise that of the next number on the schedule of the genesis block, if that can be read.
abbrev pub time_of_call : {S C : Type 0} → Storage S → Node S C → ℕ → ℕ → ℕ → ℕ
time_of_call st n next block_time number =
    if number == next then block_time else elim (st.get_block 0 n.blockchain_mgr.storage) [
      | none ↦ block_time
      | some genesis ↦ add64 genesis.header.timestamp (mul64 next 2)
    ]

-- The signed empty block of a node on top of a block.
pub record Extends {S C : Type 0} (p : Primitives) (n : Node S C) (a b : Block) (time : ℕ)
    : Type 0 where
  pub follows : Follows p a b
  pub timestamp : b.header.timestamp ≡ time
  pub state_root : b.header.state_root ≡ a.header.state_root
  pub validator : b.header.validator ≡ n.key_pair.address
  pub verifies : verify_block p b.header n.key_pair.public_key ≡ true
  pub no_transactions : b.transactions ≡ []

-- A validator's node with a chain.
pub record Produces {S C : Type 0} (n : Node S C) (a : Block) : Type 0 where
  pub is_validator : n.is_validator ≡ true
  pub is_initialized : n.blockchain_mgr.is_initialized ≡ true
  pub current : n.blockchain_mgr.current_block ≡ some a

module _ {S C : Type 0} (st : Storage S) (p : Primitives) (key : List ℕ) where
  empty_block-Extends :
      (random : Hash × Hash) (time : ℕ) (n : Node S C) (a : Block)
      → new_key_pair p key ≡ ok n.key_pair
      → n.blockchain_mgr.current_block ≡ some a
      → 0 < add64 a.header.number 1
      → let next = add64 a.header.number 1 in
        Extends p n a (empty_block st p n time next (base_of st p random next n)) time
  unfolding empty_block base_of get_last_block calculate_tx_root sign_block
  empty_block-Extends random time n a k current pos =
      let verifies =
        verify_block-sign_block p key
          (empty_header st p n time (add64 a.header.number 1)
            (base_of st p random (add64 a.header.number 1) n))
          k in
      let base : base_of st p random (add64 a.header.number 1) n
          ≡ (hash_block p a, a.header.state_root) =
        ground arith in
      record {
        follows = record { height = refl; link = ap (λ r. r.0) base; root = refl; shard = refl };
        timestamp = refl;
        state_root = ap (λ r. r.1) base;
        validator = refl;
        verifies = verifies;
        no_transactions = refl;
      }

  produce_empty_block-Extends :
      (random : Hash × Hash) (time : ℕ) (n : Node S C) (a : Block)
      → Saves st
      → new_key_pair p key ≡ ok n.key_pair
      → Produces n a
      → 0 < add64 a.header.number 1
      → let (sent, n') = produce_empty_block st p random time (add64 a.header.number 1) n in
        (b : Block) × (sent ≡ some b)
        × Extends p n a b time
        × Produces n' b
        × (n'.key_pair ≡ n.key_pair)
  unfolding produce_empty_block
  produce_empty_block-Extends random time n a w k o pos =
      let next = add64 a.header.number 1 in
      let b = empty_block st p n time next (base_of st p random next n) in
      let good = empty_block-Extends random time n a k o.current pos in
      let (added, now, ready) =
        add_empty_block st p a b n.blockchain_mgr w o.is_initialized o.current good.follows
          good.no_transactions in
      (
        b,
        rw (produce_empty_block, added) refl,
        good,
        rw (produce_empty_block, added)
            (record { is_validator = o.is_validator; is_initialized = ready; current = now }),
        rw (produce_empty_block, added) refl,
      )

  on_block_time-produce_next :
      (random : Hash × Hash) (block_time number : ℕ) (n : Node S C) (a : Block)
      → Produces n a
      → on_block_time st p random block_time number n
        ≡ produce_next st p random block_time number a n
  unfolding on_block_time get_last_block
  on_block_time-produce_next random block_time number n a o =
      let valid = o.is_validator in let current = o.current in ground arith

  produce_next-eq :
      (random : Hash × Hash) (block_time number : ℕ) (n : Node S C) (a : Block)
      → let next = add64 a.header.number 1 in
        produce_next st p random block_time number a n
        ≡ produce_empty_block st p random (time_of_call st n next block_time number) next n
  unfolding produce_next
  produce_next-eq random block_time number n a = ground arith

  -- Let every block and account be savable, and let a validator's node, whose key pair comes from a
  -- private key, have a chain whose last block a has a number below 2^64 - 1. Then whatever time and
  -- number the time controller calls with, and whatever is drawn, the node sends a block, and has
  -- added it: it follows a, keeps a's state root, has no transactions, and is signed by the node; its time is
  -- that of the call if the number was the next one, and else that of the genesis block's schedule.
  pub on_block_time-Extends :
      (random : Hash × Hash) (block_time number : ℕ) (n : Node S C) (a : Block)
      → Saves st
      → new_key_pair p key ≡ ok n.key_pair
      → Produces n a
      → a.header.number + 1 < word
      → let (sent, n') = on_block_time st p random block_time number n in
        (b : Block) × (sent ≡ some b)
        × Extends p n a b (time_of_call st n (add64 a.header.number 1) block_time number)
        × Produces n' b
        × (n'.key_pair ≡ n.key_pair)
  on_block_time-Extends random block_time number n a w k o bound =
      let made =
        produce_empty_block-Extends random
          (time_of_call st n (add64 a.header.number 1) block_time number) n a w k o (omega arith) in
      rw
        (
          on_block_time-produce_next random block_time number n a o,
          produce_next-eq random block_time number n a,
        )
        made

  -- The calls of a time controller one after the other, each with what is drawn, a time and a number.
  unfoldable pub run_calls : List ((Hash × Hash) × ℕ × ℕ) → Node S C → Node S C
  run_calls [] n = n
  run_calls ((random, block_time, number) ∷ calls) n =
      run_calls calls (on_block_time st p random block_time number n).1

  -- Under the same conditions any number of calls, with any times and numbers, makes the chain
  -- longer by exactly that number of blocks, as long as the height stays below 2^64.
  pub run_calls-height :
      (calls : List ((Hash × Hash) × ℕ × ℕ)) (n : Node S C) (a : Block)
      → Saves st
      → new_key_pair p key ≡ ok n.key_pair
      → Produces n a
      → a.header.number + length calls < word
      → (b : Block) × Produces (run_calls calls n) b
        × (b.header.number ≡ a.header.number + length calls)
  unfolding run_calls
  run_calls-height [] n a w k o bound = (a, o, omega arith)
  run_calls-height ((random, block_time, number) ∷ calls) n a w k o bound =
      let (b, sent, extends, o', same_key) =
        on_block_time-Extends random block_time number n a w k o (omega arith) in
      let height = extends.follows.height in
      let n' = (on_block_time st p random block_time number n).1 in
      let (c, oc, at) = run_calls-height calls n' b w (k ∙ ap ok (sym same_key)) o' (omega arith) in
      (c, oc, omega arith)
