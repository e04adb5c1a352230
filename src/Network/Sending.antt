-- ===== src/Network/Sending.antt =====
-- network.go: the limit on bytes, and the queues that broadcast fills.
use shardmatrix.Prelude.{
  ℕ, ◌+◌, ◌/◌, ◌-◌, Bool, true, false, List, [], ◌∷◌, ◌++◌, length, ltb, leb, ◌==◌, if◌then◌else◌,
  Result, ok, err, Option, none, some,
}
use shardmatrix.Prelude.Words.{add64}
use shardmatrix.Network.{
  Network, Message, BandwidthLimiter, drop_message, get_message_priority, priority_high,
  priority_medium, priority_low, second,
}

-- The first lines of checkBandwidth: the bucket is filled every second.
abbrev pub reset_bucket : ℕ → BandwidthLimiter → BandwidthLimiter
reset_bucket now l =
    if leb (l.last_reset + second) now
    then record l { tokens = l.bucket_size; used = 0; last_reset = now }
    else l

-- requiredTokens
abbrev pub required_tokens : ℕ → BandwidthLimiter → ℕ
required_tokens size l = let r = size / l.bytes_per_token in if r == 0 then 1 else r

-- checkBandwidth
unfoldable pub check_bandwidth : ℕ → ℕ → BandwidthLimiter → Bool × BandwidthLimiter
check_bandwidth now size l =
    let l' = reset_bucket now l in
    let r = required_tokens size l' in
    if leb r l'.tokens
    then (true, record l' { tokens = l'.tokens - r; used = add64 l'.used size })
    else (false, l')

-- SetBandwidthLimit
unfoldable pub set_bandwidth_limit : ℕ → BandwidthLimiter → BandwidthLimiter
set_bandwidth_limit limit l = record l { limit = limit; bucket_size = limit; tokens = limit }

-- The capacities of the channels.
abbrev pub high_capacity : ℕ
high_capacity = 1000

abbrev pub medium_capacity : ℕ
medium_capacity = 5000

abbrev pub low_capacity : ℕ
low_capacity = 10000

-- `select { case ch <- msg: default: }`: the channel after it, or `none` for the default.
unfoldable pub offer : ℕ → Message → List Message → Option (List Message)
offer capacity m ms = if ltb (length ms) capacity then some (ms ++ m ∷ []) else none

-- The first lines of broadcast.
unfoldable pub prepare : Message → Message
unfolding get_message_priority
prepare m = record m { priority = get_message_priority m.msg_type; size = length m.«data» }

-- The errors of broadcast.
pub data SendError : Type 0 where
  bandwidth_exceeded high_queue_full medium_queue_full low_queue_full unknown_priority : SendError

-- What a call of broadcast gives: the message as it was queued.
abbrev pub Sending : Type 0 → Type 0 → Type 0
Sending F H = Result SendError Message × Network F H

module _ {F H : Type 0} where
  unfoldable pub queue_high : Message → Network F H → Sending F H
  unfolding offer
  queue_high m n = elim (offer high_capacity m n.priority_queue.high) [
    | none ↦ (err high_queue_full, drop_message n)
    | some ms ↦ (
      ok m,
      record n {
        priority_queue = record (n.priority_queue) { high = ms };
        stats = record (n.stats) {
          high_priority_messages = add64 n.stats.high_priority_messages 1;
        };
      },
    )
  ]

  unfoldable pub queue_medium : Message → Network F H → Sending F H
  unfolding offer
  queue_medium m n = elim (offer medium_capacity m n.priority_queue.medium) [
    | none ↦ (err medium_queue_full, drop_message n)
    | some ms ↦ (
      ok m,
      record n {
        priority_queue = record (n.priority_queue) { medium = ms };
        stats = record (n.stats) {
          medium_priority_messages = add64 n.stats.medium_priority_messages 1;
        };
      },
    )
  ]

  unfoldable pub queue_low : Message → Network F H → Sending F H
  unfolding offer
  queue_low m n = elim (offer low_capacity m n.priority_queue.low) [
    | none ↦ (err low_queue_full, drop_message n)
    | some ms ↦ (
      ok m,
      record n {
        priority_queue = record (n.priority_queue) { low = ms };
        stats = record (n.stats) { low_priority_messages = add64 n.stats.low_priority_messages 1 };
      },
    )
  ]

  -- The switch at the end of broadcast.
  unfoldable pub queue_message : Message → Network F H → Sending F H
  unfolding queue_high queue_medium queue_low
  queue_message m n =
      if m.priority == priority_high
      then queue_high m n
      else if m.priority == priority_medium
      then queue_medium m n
      else if m.priority == priority_low
      then queue_low m n
      else (err unknown_priority, n)

  -- broadcast, at the time `now`
  unfoldable pub broadcast : ℕ → Message → Network F H → Sending F H
  unfolding check_bandwidth queue_message prepare
  broadcast now m n =
      let m' = prepare m in
      let (fits, l) = check_bandwidth now m'.size n.bandwidth_limiter in
      let n' : Network F H = record n { bandwidth_limiter = l } in
      if fits then queue_message m' n' else (err bandwidth_exceeded, drop_message n')
