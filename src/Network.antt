-- ===== src/Network.antt =====
-- pkg/network/network.go: what the network does with messages. To send, three bounded queues by priority,
-- a limit on the bytes of a second, and the loop that takes from the queues; to receive, the cache that
-- tells messages already seen, the handlers and the passing on. A type of messages is its number. Names of nodes
-- and identities of messages are only compared, numbers; times and durations are nanoseconds. Every
-- peer has a connection. The limit on bytes is not negative. Left out: the connections themselves, the
-- making of the messages' data, printing, and the reports.
pub mod Sending
pub mod Looping
pub mod Receiving
pub mod Order
pub mod Moves
pub mod Queueing
pub mod Steps
pub mod Bandwidth
pub mod Cache
mod Tests
use shardmatrix.Prelude.{
  ℕ, ◌*◌, ◌^◌, Bool, true, false, ◌||◌, Result, ok, err, List, [], length, ltb, leb, ◌==◌,
  if◌then◌else◌,
}
use shardmatrix.Prelude.Assoc.{Assoc, insert}
use shardmatrix.Prelude.Words.{add64}
use shardmatrix.Dpos.Health.{Float64}

-- MessageType
abbrev pub MessageType : Type 0
MessageType = ℕ

abbrev pub msg_new_block : MessageType
msg_new_block = 0

abbrev pub msg_new_transaction : MessageType
msg_new_transaction = 1

abbrev pub msg_block_request : MessageType
msg_block_request = 2

abbrev pub msg_heartbeat : MessageType
msg_heartbeat = 5

abbrev pub msg_ping : MessageType
msg_ping = 6

abbrev pub msg_pong : MessageType
msg_pong = 7

abbrev pub msg_validator_update : MessageType
msg_validator_update = 8

abbrev pub msg_empty_block : MessageType
msg_empty_block = 9

-- MessagePriority
abbrev pub MessagePriority : Type 0
MessagePriority = ℕ

abbrev pub priority_high : MessagePriority
priority_high = 0

abbrev pub priority_medium : MessagePriority
priority_medium = 1

abbrev pub priority_low : MessagePriority
priority_low = 2

-- GetMessagePriority
unfoldable pub get_message_priority : MessageType → MessagePriority
get_message_priority t =
    if t == msg_new_block || t == msg_validator_update || t == msg_empty_block
    then priority_high
    else if t == msg_new_transaction || t == msg_heartbeat || t == msg_ping || t == msg_pong
    then priority_medium
    else priority_low

-- Message. `ttl` is a word of 64 bits, signed.
pub record Message : Type 0 where
  pub msg_type : MessageType
  pub priority : MessagePriority
  pub «data» : List ℕ
  pub timestamp : ℕ
  pub node_id : ℕ
  pub message_id : ℕ
  pub ttl : ℕ
  pub size : ℕ

pub record Peer : Type 0 where
  pub address : ℕ
  pub last_seen : ℕ
  pub is_healthy : Bool
  pub fail_count : ℕ
  pub messages_recv : ℕ

-- PriorityQueue: the channels, each from the message that has waited longest.
pub record PriorityQueue : Type 0 where
  pub high : List Message
  pub medium : List Message
  pub low : List Message
  pub max_size : ℕ
  pub is_running : Bool

-- CongestionController, what is used of it.
pub record CongestionController (F : Type 0) : Type 0 where
  pub congestion_level : F
  pub last_update : ℕ

pub record BandwidthLimiter : Type 0 where
  pub limit : ℕ
  pub used : ℕ
  pub last_reset : ℕ
  pub bucket_size : ℕ
  pub tokens : ℕ
  pub bytes_per_token : ℕ

-- NetworkStats
pub record NetworkStats : Type 0 where
  pub total_messages_received : ℕ
  pub total_bytes_received : ℕ
  pub duplicate_messages : ℕ
  pub start_time : ℕ
  pub high_priority_messages : ℕ
  pub medium_priority_messages : ℕ
  pub low_priority_messages : ℕ
  pub dropped_messages : ℕ
  pub congestion_events : ℕ

-- Network. `H` is the type of the handlers.
pub record Network (F H : Type 0) : Type 0 where
  pub node_id : ℕ
  pub peers : Assoc Peer
  pub is_running : Bool
  pub msg_handlers : Assoc H
  pub priority_queue : PriorityQueue
  pub congestion_ctrl : CongestionController F
  pub bandwidth_limiter : BandwidthLimiter
  pub message_cache : Assoc ℕ
  pub cache_expiry : ℕ
  pub max_cache_size : ℕ
  pub health_check_interval : ℕ
  pub max_fail_count : ℕ
  pub stats : NetworkStats

abbrev pub second : ℕ
second = 10 ^ 9

-- NewNetwork, at the time `now`
unfoldable pub new_network : {F H : Type 0} → Float64 F → ℕ → ℕ → Network F H
new_network fl node_id now = record {
  node_id = node_id;
  peers = [];
  is_running = false;
  msg_handlers = [];
  priority_queue = record {
    high = [];
    medium = [];
    low = [];
    max_size = 16000;
    is_running = false;
  };
  congestion_ctrl = record { congestion_level = fl.of_u64 0; last_update = 0 };
  bandwidth_limiter = record {
    limit = 10 * 1024 * 1024;
    used = 0;
    last_reset = now;
    bucket_size = 10 * 1024 * 1024;
    tokens = 10 * 1024 * 1024;
    bytes_per_token = 1;
  };
  message_cache = [];
  cache_expiry = 300 * second;
  max_cache_size = 10000;
  health_check_interval = 30 * second;
  max_fail_count = 3;
  stats = record {
    total_messages_received = 0;
    total_bytes_received = 0;
    duplicate_messages = 0;
    start_time = now;
    high_priority_messages = 0;
    medium_priority_messages = 0;
    low_priority_messages = 0;
    dropped_messages = 0;
    congestion_events = 0;
  };
}

module _ {F H : Type 0} where
  -- Start, with whether it can listen, and Stop
  unfoldable pub start : Bool → ℕ → Network F H → Bool × Network F H
  start listens now n =
      if n.is_running
      then (false, n)
      else if listens
      then (
        true,
        record n {
          is_running = true;
          stats = record (n.stats) { start_time = now };
          priority_queue = record (n.priority_queue) { is_running = true };
        },
      )
      else (false, n)

  unfoldable pub stop : Network F H → Network F H
  stop n =
      if n.is_running
      then record n {
        is_running = false;
        priority_queue = record (n.priority_queue) { is_running = false };
      }
      else n

  -- RegisterHandler
  unfoldable pub register_handler : MessageType → H → Network F H → Network F H
  register_handler t h n = record n { msg_handlers = insert t h n.msg_handlers }

  -- `n.stats.DroppedMessages++`
  abbrev pub drop_message : Network F H → Network F H
  drop_message n = record n {
    stats = record (n.stats) { dropped_messages = add64 n.stats.dropped_messages 1 };
  }
