-- ===== src/Network/Tests.antt =====
-- Runs of the network's queues and cache, and its theorems at concrete inputs.
use shardmatrix.Prelude.{ℕ, ◌+◌, ◌*◌, ◌-◌, ◌≤◌, ◌≡◌, refl, true, List, [], ◌∷◌, arith, map}
use shardmatrix.Prelude.Assoc.{lookup}
use shardmatrix.Dpos.Health.{fractions}
use shardmatrix.Network.{
  Network, Message, BandwidthLimiter, new_network, msg_new_block, msg_new_transaction, second,
}
use shardmatrix.Network.Looping.{Sender, receiving, from_high, from_medium, default}
use shardmatrix.Network.Order.{with_priority, Ordered}
use shardmatrix.Network.Steps.{Event, broadcasting, looping, act_all, act_all-Ordered}
use shardmatrix.Network.Bandwidth.{Attempt, bytes_allowed, bytes_allowed-bounded}
use shardmatrix.Network.Receiving.{remember, clean_expired_cache, in_order, is_duplicate_message}
use shardmatrix.Network.Cache.{Arrival, see_all, is_duplicate_message_again}

abbrev a_network : Network (ℕ × ℕ) (Unit {0})
unfolding new_network
a_network = new_network fractions 1 0

abbrev message : ℕ → ℕ → Message
message t id = record {
  msg_type = t;
  priority = 0;
  «data» = 1 ∷ 2 ∷ 3 ∷ [];
  timestamp = 0;
  node_id = 2;
  message_id = id;
  ttl = 5;
  size = 0;
}

abbrev idle : Sender (ℕ × ℕ) (Unit {0})
idle = record { network = a_network; loop = receiving; accepted = []; sent = [] }

abbrev id_of : Message → ℕ
id_of m = m.message_id

-- A transaction waits; the loop takes it, a block comes, is sent first, and the transaction goes back.
abbrev overtaking : List Event
overtaking =
    broadcasting 10 (message msg_new_transaction 1)
    ∷ looping from_medium
    ∷ broadcasting 20 (message msg_new_block 2)
    ∷ looping from_high
    ∷ looping default
    ∷ looping from_medium
    ∷ looping default
    ∷ []

block_first : map id_of (act_all fractions overtaking idle).sent ≡ 2 ∷ 1 ∷ []
unfolding act_all a_network
block_first = refl

-- A transaction that is put back goes behind one that came after it.
abbrev two_transactions : List Event
two_transactions =
    broadcasting 10 (message msg_new_transaction 1)
    ∷ broadcasting 11 (message msg_new_transaction 2)
    ∷ looping from_medium
    ∷ broadcasting 20 (message msg_new_block 3)
    ∷ looping from_high
    ∷ looping default
    ∷ looping from_medium
    ∷ looping default
    ∷ []

second_first : map id_of (act_all fractions two_transactions idle).sent ≡ 3 ∷ 2 ∷ []
unfolding act_all a_network
second_first = refl

act_all-Ordered_example : Ordered (act_all fractions two_transactions idle)
unfolding a_network with_priority
act_all-Ordered_example = act_all-Ordered fractions two_transactions idle (record {
  in_high = tt;
  in_medium = tt;
  in_low = tt;
  held = tt;
  high_fits = omega arith;
  medium_fits = omega arith;
  low_fits = omega arith;
  in_order = refl;
})

abbrev small_bucket : BandwidthLimiter
small_bucket = record {
  limit = 100;
  used = 0;
  last_reset = 0;
  bucket_size = 100;
  tokens = 100;
  bytes_per_token = 1;
}

-- The second call finds too little, and the third a full bucket.
abbrev attempts : List Attempt
attempts =
    record { at = 10; bytes = 60 }
    ∷ record { at = 20; bytes = 60 }
    ∷ record { at = second; bytes = 90 }
    ∷ []

allowed : bytes_allowed attempts small_bucket ≡ 150
unfolding bytes_allowed
allowed = refl

bytes_allowed-bounded_example :
    bytes_allowed attempts small_bucket * second ≤ 100 * (second + (2 * second - 0))
bytes_allowed-bounded_example =
    bytes_allowed-bounded 5 (2 * second) attempts small_bucket refl (omega arith) (omega arith)
      (omega arith, (omega arith, (omega arith, omega arith)))

abbrev arrivals : List Arrival
arrivals =
    record { cleaned_at = 30; stored_at = 31; id = 8 }
    ∷ record { cleaned_at = 40; stored_at = 41; id = 7 }
    ∷ []

is_duplicate_message_again_example :
    (is_duplicate_message in_order 50 51 7
      (see_all in_order arrivals (is_duplicate_message in_order 20 21 7 a_network).1)).0
    ≡ true
unfolding a_network is_duplicate_message lookup remember in_order clean_expired_cache
is_duplicate_message_again_example =
    is_duplicate_message_again in_order 20 21 50 51 7 arrivals a_network refl (omega arith)
      (omega arith, (omega arith, tt)) (omega arith)
