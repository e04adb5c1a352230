-- ===== src/Network/Looping.antt =====
-- network.go: the loop that empties the queues, and the congestion level. A `select` is
-- a step with the choice of the case that it takes, since Go chooses among the ready ones at random; a
-- choice that is not ready does nothing, and a loop that has been stopped takes no more steps. Between the steps of the loop other goroutines send.
use shardmatrix.Prelude.{
  ℕ, ◌+◌, Bool, true, false, ◌&&◌, List, [], ◌∷◌, ◌++◌, length, ltb, if◌then◌else◌, none, some,
}
use shardmatrix.Prelude.Words.{add64}
use shardmatrix.Dpos.Health.{Float64}
use shardmatrix.Network.{Network, Message, PriorityQueue, drop_message, second}
use shardmatrix.Network.Sending.{offer, medium_capacity, low_capacity}

-- Where messageLoop stands: at the outer select; at the inner one, with a message of the medium or the
-- low queue; or about to put that message back.
pub data LoopState : Type 0 where
  receiving : LoopState
  holding_medium holding_low returning_medium returning_low : Message → LoopState

abbrev pub is_empty : List Message → Bool
is_empty [] = true
is_empty (_ ∷ _) = false

-- The case of a select.
pub data Choice : Type 0 where
  from_high from_medium from_low default : Choice

-- The network with its loop; `accepted` are the messages that broadcast has taken, and `sent` those
-- that the loop has given to sendToPeers, both from the first.
pub record Sender (F H : Type 0) : Type 0 where
  pub network : Network F H
  pub loop : LoopState
  pub accepted : List Message
  pub sent : List Message

module _ {F H : Type 0} where
  abbrev pub with_queue : PriorityQueue → Sender F H → Sender F H
  with_queue q s = record s { network = record (s.network) { priority_queue = q } }

  abbrev pub send : Message → LoopState → Sender F H → Sender F H
  send m after s = record s { sent = s.sent ++ m ∷ []; loop = after }

  -- A message that comes from the high queue is sent; the loop goes on `after`.
  unfoldable pub take_high : LoopState → Sender F H → Sender F H
  take_high after s = elim s.network.priority_queue.high [
    | [] ↦ s
    | m ∷ rest ↦ send m after (with_queue (record (s.network.priority_queue) { high = rest }) s)
  ]

  -- A message that comes from the medium queue, in a select that sends it.
  unfoldable pub take_medium : LoopState → Sender F H → Sender F H
  take_medium after s = elim s.network.priority_queue.medium [
    | [] ↦ s
    | m ∷ rest ↦ send m after (with_queue (record (s.network.priority_queue) { medium = rest }) s)
  ]

  -- The outer select, beside the high queue.
  unfoldable pub hold_medium : Sender F H → Sender F H
  hold_medium s = elim s.network.priority_queue.medium [
    | [] ↦ s
    | m ∷ rest ↦
        let s' = with_queue (record (s.network.priority_queue) { medium = rest }) s in
        record s' { loop = holding_medium m }
  ]

  unfoldable pub hold_low : Sender F H → Sender F H
  hold_low s = elim s.network.priority_queue.low [
    | [] ↦ s
    | m ∷ rest ↦
        let s' = with_queue (record (s.network.priority_queue) { low = rest }) s in
        record s' { loop = holding_low m }
  ]

  -- The message put back, or dropped if its queue is full.
  unfoldable pub return_medium : Message → Sender F H → Sender F H
  unfolding offer
  return_medium m s = elim (offer medium_capacity m s.network.priority_queue.medium) [
    | none ↦ record s { network = drop_message s.network; loop = receiving }
    | some ms ↦
        let s' = with_queue (record (s.network.priority_queue) { medium = ms }) s in
        record s' { loop = receiving }
  ]

  unfoldable pub return_low : Message → Sender F H → Sender F H
  unfolding offer
  return_low m s = elim (offer low_capacity m s.network.priority_queue.low) [
    | none ↦ record s { network = drop_message s.network; loop = receiving }
    | some ms ↦
        let s' = with_queue (record (s.network.priority_queue) { low = ms }) s in
        record s' { loop = receiving }
  ]

  -- The default of the inner select with a medium message: nothing of high priority waits.
  unfoldable pub default_medium : Message → Sender F H → Sender F H
  default_medium m s = if is_empty s.network.priority_queue.high then send m receiving s else s

  module _ (fl : Float64 F) where
    -- The default with a low message, which looks at the congestion.
    unfoldable pub default_low : Message → Sender F H → Sender F H
    default_low m s =
        if is_empty s.network.priority_queue.high && is_empty s.network.priority_queue.medium
        then (if fl.lt s.network.congestion_ctrl.congestion_level (fl.decimal 80)
            then send m receiving s
            else record s { network = drop_message s.network; loop = receiving })
        else s

    -- The select of messageLoop that the loop stands at.
    unfoldable pub select_at : LoopState → Choice → Sender F H → Sender F H
    unfolding take_high take_medium hold_medium hold_low return_medium return_low default_medium
        default_low
    select_at receiving from_high s = take_high receiving s
    select_at receiving from_medium s = hold_medium s
    select_at receiving from_low s = hold_low s
    select_at receiving default s = s
    select_at (holding_medium m) from_high s = take_high (returning_medium m) s
    select_at (holding_medium m) from_medium s = s
    select_at (holding_medium m) from_low s = s
    select_at (holding_medium m) default s = default_medium m s
    select_at (holding_low m) from_high s = take_high (returning_low m) s
    select_at (holding_low m) from_medium s = take_medium (returning_low m) s
    select_at (holding_low m) from_low s = s
    select_at (holding_low m) default s = default_low m s
    select_at (returning_medium m) _ s = return_medium m s
    select_at (returning_low m) _ s = return_low m s

    -- A step of messageLoop.
    unfoldable pub loop_step : Choice → Sender F H → Sender F H
    unfolding select_at
    loop_step choice s = select_at s.loop choice s

    -- updateCongestionLevel, at the time `now`
    unfoldable pub update_congestion_level : ℕ → Network F H → Network F H
    update_congestion_level now n =
        let q = n.priority_queue in
        let c = n.congestion_ctrl in
        let queue_size = length q.high + length q.medium + length q.low in
        let congestion_level = fl.div (fl.of_u64 queue_size) (fl.of_u64 q.max_size) in
        let level =
          fl.add (fl.mul c.congestion_level (fl.decimal 80))
            (fl.mul congestion_level (fl.decimal 20)) in
        let n' : Network F H = record n {
          congestion_ctrl = record c { congestion_level = level; last_update = now };
        } in
        if ltb now (c.last_update + second)
        then n
        else if fl.lt (fl.decimal 80) level
        then record n' {
          stats = record (n.stats) { congestion_events = add64 n.stats.congestion_events 1 };
        }
        else n'
