-- ===== src/Chain.antt =====
-- pkg/blockchain/manager.go: the chain manager. It holds the newest block and the accounts touched
-- so far, a cache over the storage. A method is a function from the manager to its result and the
-- manager it leaves; what was written before an error stays written. Each account of the map is an
-- object of its own, so two pointers are one object exactly when their addresses are equal, which
-- matters where a transaction pays its own sender. The order of the association list
-- `current_state` stands for the order in which Go walks the map.
-- The locks only serialise the methods. `GetStats` reports and is left out.
pub mod Accounts
pub mod Hashes
pub mod Supply
pub mod Nonces
pub mod Blocks
pub mod StateRoot
mod Tests
use shardmatrix.Prelude.{
  ℕ, zero, suc, ◌+◌, ◌%◌, ◌<◌, Bool, true, false, not, ◌&&◌, Option, none, some, List, [], ◌∷◌,
  ◌++◌, Result, ok, err, ltb, ◌==◌, if◌then◌else◌, map_err, require, ◌>>=◌, ◌>>◌,
}
use shardmatrix.Prelude.Words.{add64, sub64, mul64}
use shardmatrix.Prelude.Bytes.{le_bytes}
use shardmatrix.Prelude.Assoc.{Assoc, lookup, insert}
use shardmatrix.Primitives.{Primitives}
use shardmatrix.Storage.{Storage}
use shardmatrix.Types.{
  Hash, Address, Block, BlockHeader, Transaction, Account, GenesisBlock, first_shard, hash_block,
  calculate_tx_root, empty_tx_root,
}

pub data ChainError : Type 0 where
  already_initialized not_initialized : ChainError
  no_genesis_block no_height no_block no_genesis : ChainError
  genesis_not_saved block_not_saved account_not_saved : ChainError
  bad_height bad_prev_hash bad_tx_root bad_shard : ChainError
  insufficient_balance bad_nonce : ChainError

pub record Manager (S : Type 0) : Type 0 where
  pub storage : S
  pub current_block : Option Block
  pub current_state : Assoc Account
  pub genesis_block : Option Block
  pub is_initialized : Bool

abbrev pub Outcome : Type 0 → Type 0 → Type 0
Outcome S A = Result ChainError A × Manager S

abbrev pub fresh_account : Address → Account
fresh_account a = record { address = a; balance = 0; nonce = 0; staked = 0 }

-- totalCost: the product and the sum wrap at 2 ^ 64.
abbrev pub total_cost : Transaction → ℕ
total_cost t = add64 t.amount (mul64 t.gas_price t.gas_limit)

abbrev pub debit_account : ℕ → Account → Account
debit_account cost a = record a { balance = sub64 a.balance cost; nonce = add64 a.nonce 1 }

abbrev pub credit_account : ℕ → Account → Account
credit_account amount a = record a { balance = add64 a.balance amount }

-- calculateStateRootFromState, before the digest: numbers are cut to their lowest byte.
unfoldable pub state_preimage : Assoc Account → List ℕ
state_preimage [] = []
state_preimage ((addr, a) ∷ rest) =
    le_bytes 20 addr
    ++ ((a.balance % 256) ∷ (a.nonce % 256) ∷ (a.staked % 256) ∷ state_preimage rest)

-- processTransactionOnState. `or_create` adds the account to the map if it is not there.
abbrev pub or_create : Address → Assoc Account → Account × Assoc Account
or_create a m = elim (lookup a m) [
  | some acc ↦ (acc, m)
  | none ↦ (fresh_account a, insert a (fresh_account a) m)
]

-- The writes through the two pointers: the receiver is read after the sender was written.
unfoldable pub move_funds : Transaction → Account → Account → Assoc Account → Assoc Account
move_funds t sender receiver m =
    let sender' = debit_account (total_cost t) sender in
    let receiver' = if t.from == t.to then sender' else receiver in
    insert t.to (credit_account t.amount receiver') (insert t.from sender' m)

unfoldable pub process_transaction_on_state :
    Transaction → Assoc Account → Result ChainError (Unit {0}) × Assoc Account
unfolding move_funds
process_transaction_on_state t m =
    let (sender, m1) = or_create t.from m in
    let (receiver, m2) = or_create t.to m1 in
    if ltb sender.balance (total_cost t)
    then (err insufficient_balance, m2)
    else (ok tt, move_funds t sender receiver m2)

-- The loop of ProcessTransactions, on the copy of the state.
unfoldable pub process_each : List Transaction → Assoc Account → Result ChainError (Assoc Account)
unfolding process_transaction_on_state
process_each [] m = ok m
process_each (t ∷ ts) m =
    let (r, m') = process_transaction_on_state t m in
    let rest = process_each ts m' in r >>= λ _. rest

module _ {S : Type 0} (st : Storage S) where
  -- getAccount: from the map, or from the storage, or new; it is then in the map.
  unfoldable pub get_account : Address → Manager S → Account × Manager S
  get_account a m = elim (lookup a m.current_state) [
    | some acc ↦ (acc, m)
    | none ↦
        let acc : Account = elim (st.get_account a m.storage) [
          | some found ↦ found
          | none ↦ fresh_account a
        ] in
        (acc, record m { current_state = insert a acc m.current_state })
  ]

  -- processTransaction
  unfoldable pub process_transaction : Transaction → Manager S → Outcome S (Unit {0})
  unfolding get_account move_funds
  process_transaction t m =
      let (sender, m1) = get_account t.from m in
      let (receiver, m2) = get_account t.to m1 in
      if ltb sender.balance (total_cost t)
      then (err insufficient_balance, m2)
      else if not (t.nonce == add64 sender.nonce 1)
      then (err bad_nonce, m2)
      else (ok tt, record m2 { current_state = move_funds t sender receiver m2.current_state })

  -- The loop of processBlockTransactions: a hash that the storage does not know is passed over.
  unfoldable pub process_hashes : List Hash → Manager S → Outcome S (Unit {0})
  process_hashes [] m = (ok tt, m)
  process_hashes (h ∷ hs) m = elim (st.get_transaction h m.storage) [
    | none ↦ process_hashes hs m
    | some t ↦ elim (process_transaction t m).0 [
      | ok _ ↦ process_hashes hs (process_transaction t m).1
      | err e ↦ (err e, (process_transaction t m).1)
    ]
  ]

  -- The loop of saveCurrentState.
  unfoldable pub save_accounts : Assoc Account → S → Bool × S
  save_accounts [] s = (true, s)
  save_accounts ((_, a) ∷ rest) s =
      let (saved, s') = st.save_account a s in
      let more = save_accounts rest s' in if saved then more else (false, s')

  unfoldable pub save_initial : List Account → S → Bool × S
  save_initial [] s = (true, s)
  save_initial (a ∷ rest) s =
      let (saved, s') = st.save_account a s in
      let more = save_initial rest s' in if saved then more else (false, s')

  -- rebuildState's loop over the heights from `height` on, `count` of them.
  unfoldable pub replay_blocks : ℕ → ℕ → Manager S → Outcome S (Unit {0})
  replay_blocks zero height m = (ok tt, m)
  replay_blocks (suc count) height m = elim (st.get_block height m.storage) [
    | none ↦ (err no_block, m)
    | some b ↦ elim (process_hashes b.transactions m).0 [
      | ok _ ↦ replay_blocks count (height + 1) (process_hashes b.transactions m).1
      | err e ↦ (err e, (process_hashes b.transactions m).1)
    ]
  ]
