-- ===== src/Node/Failing.antt =====
-- node.go: a Start that fails leaves the parts that it has started.
use shardmatrix.Prelude.{
  ◌≡◌, refl, true, false, Bool, List, [], ◌∷◌, err, arith, Bool-cases, Result-cases, inl, inr,
}
use shardmatrix.Storage.{Storage}
use shardmatrix.Pool
use shardmatrix.TimeControl
use shardmatrix.TimeControl.{set_genesis_time, set_block_offset}
use shardmatrix.Chain.Blocks.{get_last_block}
use shardmatrix.Node.{Node}
use shardmatrix.Node.Running.{
  NodeError, start, start_network, start_synced, start_clock, stop, set_offset,
  sync_time_controller_with_blockchain,
}

-- The node does not run, but its pool does.
pub record IsHalfStarted {S C : Type 0} (n : Node S C) : Type 0 where
  pub stopped : n.is_running ≡ false
  pub pool_runs : n.tx_pool.running ≡ true

-- A call of Start, with whether the network listens and the interface for clients starts, or of Stop.
pub data Call : Type 0 where
  to_start : Bool → Bool → Call
  to_stop : Call

module _ {S C : Type 0} (st : Storage S) where
  unfoldable pub perform_all : List Call → Node S C → Node S C
  perform_all [] n = n
  perform_all (to_start listens api_starts ∷ calls) n =
      perform_all calls (start st listens api_starts n).1
  perform_all (to_stop ∷ calls) n = perform_all calls (stop n)

  -- Syncing the time controller leaves the rest of the node.
  sync-IsHalfStarted :
      (n : Node S C) → IsHalfStarted n → IsHalfStarted (sync_time_controller_with_blockchain st n).1
  unfolding sync_time_controller_with_blockchain set_offset set_genesis_time set_block_offset
      get_last_block
  sync-IsHalfStarted n h =
      let a = h.stopped in
      let b = h.pool_runs in record { stopped = ground arith; pool_runs = ground arith }

  start_clock-IsHalfStarted :
      (api_starts : Bool) (n : Node S C) {e : NodeError}
      → IsHalfStarted n
      → (start_clock st api_starts n).0 ≡ err e
      → IsHalfStarted (start_clock st api_starts n).1
  unfolding start_clock TimeControl.start
  start_clock-IsHalfStarted api_starts n h failed =
      let a = h.stopped in
      let b = h.pool_runs in record { stopped = ground arith; pool_runs = ground arith }

  start_synced-IsHalfStarted :
      (api_starts : Bool) (n : Node S C) {e : NodeError}
      → IsHalfStarted n
      → (start_synced st api_starts n).0 ≡ err e
      → IsHalfStarted (start_synced st api_starts n).1
  unfolding start_synced
  start_synced-IsHalfStarted api_starts n h failed =
      let synced = sync-IsHalfStarted n h in
      let n' = (sync_time_controller_with_blockchain st n).1 in
      elim (Result-cases (sync_time_controller_with_blockchain st n).0) [
        | inr (e, bad) ↦ rw (start_synced, bad) synced
        | inl (_, good) ↦
            let clock_failed = rw (start_synced, good) at failed in
            rw (start_synced, good) (start_clock-IsHalfStarted api_starts n' synced clock_failed)
      ]

  start_network-IsHalfStarted :
      (listens api_starts : Bool) (n : Node S C) {e : NodeError}
      → IsHalfStarted n
      → (start_network st listens api_starts n).0 ≡ err e
      → IsHalfStarted (start_network st listens api_starts n).1
  unfolding start_network
  start_network-IsHalfStarted true api_starts n h failed = elim (Bool-cases n.network_running) [
    | inl on ↦
        let a = h.stopped in
        let b = h.pool_runs in record { stopped = ground arith; pool_runs = ground arith }
    | inr off ↦
        let n' = record n { network_running = true } in
        let same : start_network st true api_starts n ≡ start_synced st api_starts n' =
          ground arith in
        rw same (
          start_synced-IsHalfStarted api_starts n'
            (record { stopped = h.stopped; pool_runs = h.pool_runs }) (rw same at failed))
  ]
  start_network-IsHalfStarted false api_starts n h failed =
      let a = h.stopped in
      let b = h.pool_runs in record { stopped = ground arith; pool_runs = ground arith }

  -- A Start of a node that does not run leaves it half started if it fails.
  failed_start-IsHalfStarted :
      (listens api_starts : Bool) (n : Node S C) {e : NodeError}
      → n.is_running ≡ false
      → (start st listens api_starts n).0 ≡ err e
      → IsHalfStarted (start st listens api_starts n).1
  unfolding start Pool.start
  failed_start-IsHalfStarted listens api_starts n h failed = elim (Bool-cases n.tx_pool.running) [
    | inl on ↦ record { stopped = ground arith; pool_runs = ground arith }
    | inr off ↦
        let n' = record n { tx_pool = record n.tx_pool { running = true } } in
        let same : start st listens api_starts n ≡ start_network st listens api_starts n' =
          ground arith in
        rw same (
          start_network-IsHalfStarted listens api_starts n'
            (record { stopped = h; pool_runs = refl }) (rw same at failed))
  ]

  refused_start-IsHalfStarted :
      (listens api_starts : Bool) (n : Node S C)
      → IsHalfStarted n
      → IsHalfStarted (start st listens api_starts n).1
  unfolding start Pool.start
  refused_start-IsHalfStarted listens api_starts n h =
      let a = h.stopped in
      let b = h.pool_runs in record { stopped = ground arith; pool_runs = ground arith }

  stop-IsHalfStarted : (n : Node S C) → IsHalfStarted n → IsHalfStarted (stop n)
  unfolding stop
  stop-IsHalfStarted n h =
      let a = h.stopped in
      let b = h.pool_runs in record { stopped = ground arith; pool_runs = ground arith }

  perform_all-IsHalfStarted :
      (calls : List Call) (n : Node S C) → IsHalfStarted n → IsHalfStarted (perform_all calls n)
  unfolding perform_all
  perform_all-IsHalfStarted [] n h = h
  perform_all-IsHalfStarted (to_start listens api_starts ∷ calls) n h =
      perform_all-IsHalfStarted calls (start st listens api_starts n).1
        (refused_start-IsHalfStarted listens api_starts n h)
  perform_all-IsHalfStarted (to_stop ∷ calls) n h =
      perform_all-IsHalfStarted calls (stop n) (stop-IsHalfStarted n h)

  -- If a Start of a node that does not run fails, for whatever reason, then after any sequence of
  -- Start and Stop, with a network that listens and an interface that starts or not, the node still does
  -- not run: its pool runs already, so that Start stops there, and Stop does nothing.
  pub failed_start_is_final :
      (listens api_starts : Bool) (calls : List Call) (n : Node S C) (e : NodeError)
      → n.is_running ≡ false
      → (start st listens api_starts n).0 ≡ err e
      → (perform_all calls (start st listens api_starts n).1).is_running ≡ false
  failed_start_is_final listens api_starts calls n e h failed =
      let half = failed_start-IsHalfStarted listens api_starts n h failed in
      (perform_all-IsHalfStarted calls (start st listens api_starts n).1 half).stopped
