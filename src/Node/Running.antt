-- ===== src/Node/Running.antt =====
-- node.go: starting and stopping the node, and what the clients submit.
use shardmatrix.Prelude.{
  ℕ, Bool, true, false, not, ◌&&◌, none, some, Result, ok, err, ◌==◌, if◌then◌else◌,
}
use shardmatrix.Primitives.{Primitives}
use shardmatrix.Storage.{Storage}
use shardmatrix.Types.{Transaction}
use shardmatrix.Chain.Blocks.{get_last_block}
use shardmatrix.TimeControl
use shardmatrix.TimeControl.{TimeController, set_genesis_time, set_block_offset}
use shardmatrix.Pool
use shardmatrix.Pool.{TransactionPool, Ranging, add_transaction}
use shardmatrix.Node.{Node}

-- `nil_genesis` stands for the fault when the genesis block cannot be read.
pub data NodeError : Type 0 where
  already_running pool_not_started network_not_started clock_not_set nil_genesis : NodeError
  clock_not_started api_not_started not_added : NodeError

abbrev pub NodeOutcome : Type 0 → Type 0 → Type 0
NodeOutcome S C = Result NodeError (Unit {0}) × Node S C

abbrev pub with_clock : {S C : Type 0} → Node S C → TimeController C → Node S C
with_clock n tc = record n { time_controller = tc }

module _ {S C : Type 0} (st : Storage S) where
  -- The end of syncTimeControllerWithBlockchain.
  unfoldable pub set_offset : ℕ → Node S C → NodeOutcome S C
  set_offset height n =
      let (r, tc) = set_block_offset height n.time_controller in
      (elim r [ ok _ ↦ ok tt | err _ ↦ err clock_not_set ], with_clock n tc)

  -- syncTimeControllerWithBlockchain
  unfoldable pub sync_time_controller_with_blockchain : Node S C → NodeOutcome S C
  unfolding set_offset
  sync_time_controller_with_blockchain n = elim (get_last_block n.blockchain_mgr) [
    | err _ ↦ (ok tt, n)
    | ok last ↦ elim (st.get_block 0 n.blockchain_mgr.storage) [
      | none ↦ (err nil_genesis, n)
      | some genesis ↦
          if n.time_controller.genesis_time == genesis.header.timestamp
          then set_offset last.header.number n
          else let (r, tc) = set_genesis_time genesis.header.timestamp n.time_controller in
            elim r [
              | err _ ↦ (err clock_not_set, with_clock n tc)
              | ok _ ↦ set_offset last.header.number (with_clock n tc)
            ]
    ]
  ]

  -- Start, from the time controller on. `api_starts` says whether the interface for clients does.
  unfoldable pub start_clock : Bool → Node S C → NodeOutcome S C
  start_clock api_starts n =
      let (r, tc) = TimeControl.start n.time_controller in
      let n' = with_clock n tc in
      elim r [
        | err _ ↦ (err clock_not_started, n')
        | ok _ ↦
            let n'' = if n.config.is_validator then record n' { is_validator = true } else n' in
            if n.has_api_server && not api_starts
            then (err api_not_started, n'')
            else (ok tt, record n'' { is_running = true })
      ]

  -- Start, once the network runs.
  unfoldable pub start_synced : Bool → Node S C → NodeOutcome S C
  unfolding sync_time_controller_with_blockchain start_clock
  start_synced api_starts n =
      let (r, n') = sync_time_controller_with_blockchain n in
      elim r [ err e ↦ (err e, n') | ok _ ↦ start_clock api_starts n' ]

  -- Start, from the network on.
  unfoldable pub start_network : Bool → Bool → Node S C → NodeOutcome S C
  unfolding start_synced
  start_network listens api_starts n =
      if n.network_running
      then (err network_not_started, n)
      else if not listens
      then (err network_not_started, n)
      else start_synced api_starts (record n { network_running = true })

  -- Start
  unfoldable pub start : Bool → Bool → Node S C → NodeOutcome S C
  unfolding start_network
  start listens api_starts n =
      if n.is_running
      then (err already_running, n)
      else let (r, pool) = Pool.start n.tx_pool in
        elim r [
          | err _ ↦ (err pool_not_started, record n { tx_pool = pool })
          | ok _ ↦ start_network listens api_starts (record n { tx_pool = pool })
        ]

module _ {S C : Type 0} where
  -- Stop
  unfoldable pub stop : Node S C → Node S C
  stop n = if not n.is_running then n else record n {
    is_running = false;
    time_controller = TimeControl.stop n.time_controller;
    network_running = false;
    tx_pool = Pool.stop n.tx_pool;
  }

  -- SubmitTransaction
  unfoldable pub submit_transaction :
      Primitives → Ranging → ℕ → Transaction → Node S C → NodeOutcome S C
  submit_transaction p r now t n =
      let (added, pool) = add_transaction p r now t n.tx_pool in
      (elim added [ ok _ ↦ ok tt | err _ ↦ err not_added ], record n { tx_pool = pool })
