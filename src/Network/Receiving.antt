-- ===== src/Network/Receiving.antt =====
-- network.go: what comes in. The cache of the identities seen, a message from a peer, and the health of peers.
-- In what order a `range` meets the entries of the cache is an argument (`CacheRange`). A peer that its
-- connection has no more under its name is not looked after.
use mathlib.Core.List.{Permᴰ}
use mathlib.Core.List.Permᴰ as PermD
use shardmatrix.Prelude.{
  ℕ, ◌+◌, ◌*◌, Bool, true, false, not, ◌&&◌, List, [], ◌∷◌, length, ltb, leb, ◌==◌, if◌then◌else◌,
  Option, none, some, ◌/◌,
}
use shardmatrix.Prelude.Assoc.{Assoc, lookup, insert, erase}
use shardmatrix.Prelude.Words.{add64, sub64, lt_i64}
use shardmatrix.Network.{Network, Message, Peer}

-- The order in which `range` meets the entries of the cache: any.
pub record CacheRange : Type 0 where
  pub order : Assoc ℕ → Assoc ℕ
  pub order-perm : (m : Assoc ℕ) → Permᴰ (order m) m

-- The order of the list, for running the model.
unfoldable pub in_order : CacheRange
in_order = record { order = λ m. m; order-perm = PermD.refl }

-- cleanExpiredCache, at the time `now`
unfoldable pub clean_expired_cache : ℕ → ℕ → Assoc ℕ → Assoc ℕ
clean_expired_cache now expiry [] = []
clean_expired_cache now expiry ((id, timestamp) ∷ m) =
    let rest = clean_expired_cache now expiry m in
    if ltb (timestamp + expiry) now then rest else (id, timestamp) ∷ rest

-- The loop that empties a half: entries go until no more than `half` are left.
unfoldable pub delete_until : ℕ → Assoc ℕ → Assoc ℕ
delete_until half [] = []
delete_until half (_ ∷ m) =
    let rest = delete_until half m in if leb (length m) half then m else rest

-- The body of isDuplicateMessage once the cache is clean; the entry is made at the time `now`.
unfoldable pub remember : CacheRange → ℕ → ℕ → ℕ → Assoc ℕ → Bool × Assoc ℕ
unfolding delete_until
remember r now max_size id m = elim (lookup id m) [
  | some _ ↦ (true, m)
  | none ↦
      let m' = if leb max_size (length m) then delete_until (max_size / 2) (r.order m) else m in
      (false, insert id now m')
]

-- What comes of a message: whether it is new, the handler that it is given to, and if it
-- is passed on, the message then and the peers.
pub record Receipt (H : Type 0) : Type 0 where
  pub is_new : Bool
  pub handler : Option H
  pub passed_on : Option (Message × List ℕ)

-- The peers that forwardMessage sends to.
unfoldable pub others : ℕ → Assoc Peer → List ℕ
others sender [] = []
others sender ((id, peer) ∷ ps) =
    let rest = others sender ps in if not (id == sender) && peer.is_healthy then id ∷ rest else rest

-- The peers that sendToPeers sends to.
unfoldable pub healthy_peers : Assoc Peer → List ℕ
healthy_peers [] = []
healthy_peers ((id, peer) ∷ ps) =
    let rest = healthy_peers ps in if peer.is_healthy then id ∷ rest else rest

-- The loop of performHealthCheck over the peers: these, those that a ping goes to, and those whose
-- connection is closed.
unfoldable pub check_peers : ℕ → ℕ → ℕ → Assoc Peer → Assoc Peer × List ℕ × List ℕ
check_peers now interval max_fail [] = ([], [], [])
check_peers now interval max_fail ((id, peer) ∷ ps) =
    let (ps', pings, closed) = check_peers now interval max_fail ps in
    let silent = ltb (peer.last_seen + interval * 2) now in
    let peer' : Peer =
      if silent
      then record peer { is_healthy = false; fail_count = peer.fail_count + 1 }
      else peer in
    (
      (id, peer') ∷ ps',
      if silent then id ∷ pings else pings,
      if leb (max_fail * 2) peer'.fail_count then id ∷ closed else closed,
    )

module _ {F H : Type 0} where
  -- isDuplicateMessage, with the times of the two looks at the clock
  unfoldable pub is_duplicate_message : CacheRange → ℕ → ℕ → ℕ → Network F H → Bool × Network F H
  unfolding clean_expired_cache remember
  is_duplicate_message r now later id n =
      let clean = clean_expired_cache now n.cache_expiry n.message_cache in
      let (seen, cache) = remember r later n.max_cache_size id clean in
      let n' : Network F H = record n { message_cache = cache } in
      if seen
      then (
        true,
        record n' {
          stats = record (n.stats) { duplicate_messages = add64 n.stats.duplicate_messages 1 };
        },
      )
      else (false, n')

  -- A message from the peer resets what is known against it.
  heard_from : ℕ → ℕ → Network F H → Network F H
  heard_from now sender n = elim (lookup sender n.peers) [
    | none ↦ n
    | some peer ↦
        let peer' : Peer = record peer {
          last_seen = now;
          fail_count = 0;
          is_healthy = true;
          messages_recv = add64 peer.messages_recv 1;
        } in
        record n { peers = insert sender peer' n.peers }
  ]

  abbrev count_received : Message → Network F H → Network F H
  count_received m n = record n {
    stats = record (n.stats) {
      total_messages_received = add64 n.stats.total_messages_received 1;
      total_bytes_received = add64 n.stats.total_bytes_received (length m.«data»);
    };
  }

  -- The end of handleConnection's loop: a message of another node that may go further does so.
  unfoldable pub pass_on : ℕ → Message → Network F H → Option (Message × List ℕ)
  unfolding others
  pass_on sender m n =
      if lt_i64 0 m.ttl && not (m.node_id == n.node_id)
      then some (record m { ttl = sub64 m.ttl 1 }, others sender n.peers)
      else none

  -- The body of handleConnection's loop on a decoded message, the peer it comes from and the times.
  unfoldable pub receive : CacheRange → ℕ → ℕ → ℕ → Message → Network F H → Receipt H × Network F H
  unfolding is_duplicate_message heard_from pass_on
  receive r now later sender m n =
      let n1 = count_received m (heard_from now sender n) in
      let (seen, n2) = is_duplicate_message r now later m.message_id n1 in
      if seen then (record { is_new = false; handler = none; passed_on = none }, n2) else (
        record {
          is_new = true;
          handler = lookup m.msg_type n2.msg_handlers;
          passed_on = pass_on sender m n2;
        },
        n2,
      )

  -- handleConnection where a message does not decode, and its deferred end.
  unfoldable pub close_connection : ℕ → Network F H → Network F H
  close_connection sender n = record n { peers = erase sender n.peers }

  -- performHealthCheck, with the peers that it pings and those whose connection it closes
  unfoldable pub perform_health_check : ℕ → Network F H → (List ℕ × List ℕ) × Network F H
  unfolding check_peers
  perform_health_check now n =
      let (ps, pings, closed) = check_peers now n.health_check_interval n.max_fail_count n.peers in
      ((pings, closed), record n { peers = ps })
