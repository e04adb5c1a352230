-- ===== src/Synchronizer/Operations.antt =====
-- synchronizer.go: starting, stopping and configuring, and the questions about the peers.
use shardmatrix.Prelude.{
  ℕ, Bool, true, false, ◌&&◌, ◌||◌, Option, none, some, [], ◌∷◌, ◌++◌, Result, ok, err, ltb,
  if◌then◌else◌,
}
use shardmatrix.Prelude.Assoc.{Assoc, insert, erase}
use shardmatrix.Chain.{Manager}
use shardmatrix.Dpos.Health.{Float64}
use shardmatrix.Synchronizer.{
  SyncState, idle, completed, SyncError, already_running, SyncPeer, SyncConfig, BlockSynchronizer,
  Action, lock, unlock, rlock, modify, read, return, ◌>>=◌, ◌>>◌, default_sync_config,
}

-- hasHigherPeers, on the peers
unfoldable pub has_higher_peers : ℕ → Assoc SyncPeer → Bool
has_higher_peers height [] = false
has_higher_peers height ((_, peer) ∷ rest) =
    (ltb height peer.latest_height && peer.is_reliable) || has_higher_peers height rest

-- The loop of findReliablePeers.
unfoldable pub has_reliable_peer : Assoc SyncPeer → Bool
has_reliable_peer [] = false
has_reliable_peer ((_, peer) ∷ rest) = peer.is_reliable || has_reliable_peer rest

-- The loop of negotiateTargetHeight: the greatest height of a reliable peer, if it is above the
-- one given.
unfoldable pub target_above : ℕ → Assoc SyncPeer → ℕ
target_above height [] = height
target_above height ((_, peer) ∷ rest) =
    target_above
      (if peer.is_reliable && ltb height peer.latest_height then peer.latest_height else height)
      rest

abbrev pub can_sync : SyncState → Bool
can_sync idle = true
can_sync completed = true
can_sync _ = false

module _ {S F V C : Type 0} where
  -- NewBlockSynchronizer
  unfoldable pub new_block_synchronizer :
      Float64 F → Manager S → Option V → BlockSynchronizer S F V C
  new_block_synchronizer fl blockchain validator = record {
    mu = false;
    blockchain = blockchain;
    validator = validator;
    state = idle;
    config = default_sync_config;
    peers = [];
    target_height = 0;
    current_height = 0;
    sync_progress = fl.decimal 0;
    last_sync_time = 0;
    error_count = 0;
    is_running = false;
    sync_callbacks = [];
    calls = [];
  }

  -- Start, with what the storage gives for the latest height; the loop runs then.
  unfoldable pub start : Option ℕ → Action S F V C (Result SyncError (Unit {0}))
  start latest = do
    lock
    running ← read (λ bs. bs.is_running)
    if running then (unlock >> return (err already_running)) else (do
      modify (λ bs. record bs {
        is_running = true;
        current_height = elim latest [ none ↦ 0 | some height ↦ height ];
      })
      unlock
      return (ok tt))

  -- Stop
  unfoldable pub stop : Action S F V C (Unit {0})
  stop = do
    lock
    modify (λ bs. if bs.is_running then record bs { is_running = false; state = idle } else bs)
    unlock

  -- RegisterSyncCallback, AddPeer, RemovePeer, SetConfig and ForceSyncFrom
  unfoldable pub register_sync_callback : C → Action S F V C (Unit {0})
  register_sync_callback c =
      lock >> modify (λ bs. record bs { sync_callbacks = bs.sync_callbacks ++ c ∷ [] }) >> unlock

  unfoldable pub add_peer : SyncPeer → Action S F V C (Unit {0})
  add_peer peer =
      lock >> modify (λ bs. record bs { peers = insert peer.id peer bs.peers }) >> unlock

  unfoldable pub remove_peer : ℕ → Action S F V C (Unit {0})
  remove_peer id = lock >> modify (λ bs. record bs { peers = erase id bs.peers }) >> unlock

  unfoldable pub set_config : SyncConfig → Action S F V C (Unit {0})
  set_config config = lock >> modify (λ bs. record bs { config = config }) >> unlock

  unfoldable pub force_sync_from : ℕ → Action S F V C (Unit {0})
  force_sync_from height = do
    lock
    modify (λ bs. record bs { current_height = height; state = idle; error_count = 0 })
    unlock

  -- shouldSync
  unfoldable pub should_sync : Action S F V C Bool
  unfolding has_higher_peers
  should_sync = do
    rlock
    read (λ bs. can_sync bs.state && has_higher_peers bs.current_height bs.peers)
