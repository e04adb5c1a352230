-- ===== src/Node/Restart.antt =====
-- node.go: the time controller of a node that starts on a chain which has blocks already.
use shardmatrix.Prelude.{ℕ, ◌+◌, ◌*◌, ◌<◌, ◌≡◌, ◌∙◌, false, some, ok, arith, All, List}
use shardmatrix.Prelude.Words.{word, half_word, rem_i64}
use shardmatrix.Storage.{Storage}
use shardmatrix.Types.{Block}
use shardmatrix.Chain.Blocks.{get_last_block}
use shardmatrix.TimeControl.{time_control_loop, set_genesis_time, set_block_offset}
use shardmatrix.TimeControl.Schedule.{IsRegular}
use shardmatrix.TimeControl.Offset.{IsEarly, time_control_loop-IsEarly}
use shardmatrix.Node.{Node}
use shardmatrix.Node.Running.{sync_time_controller_with_blockchain, set_offset}

module _ {S C : Type 0} (st : Storage S) where
  sync_time_controller-set :
      (n : Node S C) (last genesis : Block)
      → n.time_controller.started ≡ false
      → n.blockchain_mgr.current_block ≡ some last
      → st.get_block 0 n.blockchain_mgr.storage ≡ some genesis
      → rem_i64 genesis.header.timestamp 2 ≡ 0
      → let (r, n') = sync_time_controller_with_blockchain st n in
        (r ≡ ok tt)
        × (n'.time_controller.genesis_time ≡ genesis.header.timestamp)
        × (n'.time_controller.block_offset ≡ last.header.number)
        × (n'.time_controller.block_time ≡ n.time_controller.block_time)
  unfolding sync_time_controller_with_blockchain set_offset set_genesis_time set_block_offset
      get_last_block
  sync_time_controller-set n last genesis idle current there even =
      (ground arith, ground arith, ground arith, ground arith)

  -- Let a node that has not started its time controller, with blocks of two seconds, have a chain
  -- with a last block and a genesis block whose time is even and no negative int64, and let the last block's number
  -- be a 64-bit word. syncTimeControllerWithBlockchain succeeds. After it, whatever the ticks of the clock
  -- (each, with two seconds for each block of the chain, below 2^63), every call of the time controller's
  -- loop is for a block after the last one, and its time is too early: by two seconds for each block up to
  -- the last one, against the schedule that counts from the genesis block.
  pub sync_time_controller-IsEarly :
      (n : Node S C) (last genesis : Block) (ticks : List ℕ)
      → n.time_controller.started ≡ false
      → n.time_controller.block_time ≡ 2
      → n.blockchain_mgr.current_block ≡ some last
      → st.get_block 0 n.blockchain_mgr.storage ≡ some genesis
      → rem_i64 genesis.header.timestamp 2 ≡ 0
      → genesis.header.timestamp < half_word
      → last.header.number < word
      → All (λ now. now + 2 * last.header.number < half_word) ticks
      → let (r, n') = sync_time_controller_with_blockchain st n in
        (r ≡ ok tt)
        × All
            (IsEarly last.header.number genesis.header.timestamp)
            (time_control_loop n'.time_controller ticks)
  sync_time_controller-IsEarly n last genesis ticks idle two current there even word_time
        word_number fits =
      let (done, time, offset, seconds) =
        sync_time_controller-set n last genesis idle current there even in
      let tc = (sync_time_controller_with_blockchain st n).1.time_controller in
      let regular : IsRegular tc = record {
        two_seconds = seconds ∙ two;
        genesis = omega (arith, time);
        offset = omega (arith, offset);
      } in
      let fits' : All (λ now. now + 2 * tc.block_offset < half_word) ticks = rw offset fits in
      let early = time_control_loop-IsEarly tc ticks regular fits' in
      (done, rw (time, offset) at early)
