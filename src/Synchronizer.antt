-- ===== src/Synchronizer.antt =====
-- pkg/blockchain/synchronizer.go: the block synchronizer. Its mutex is explicit, since a method that
-- holds it calls another one that takes it: an action is a function from the synchronizer to a run,
-- which finishes with a result or blocks for ever at a lock. `mu` says that the writer's lock
-- is held; one goroutine runs at a time, and a reader's lock is given back before the next one is taken.
-- Peers have names that are only compared, numbers. The calls of the callbacks, each in a goroutine of
-- its own, are collected in `calls`, the last first. Waiting, printing and GetSyncStatus are left out.
pub mod Operations
pub mod Syncing
pub mod Outcomes
pub mod Batches
pub mod Completion
pub mod Stuck
mod Tests
use shardmatrix.Prelude.{
  ℕ, zero, suc, ◌+◌, ◌-◌, ◌*◌, ◌^◌, Bool, true, false, not, ◌&&◌, Option, none, some, List, [], ◌∷◌,
  ◌++◌, Result, ok, err, ltb, ◌==◌, if◌then◌else◌,
}
use shardmatrix.Prelude.Words.{add64, lt_i64}
use shardmatrix.Prelude.Assoc.{Assoc, insert, erase}
use shardmatrix.Types.{Hash, Block}
use shardmatrix.Chain.{Manager}

pub data SyncState : Type 0 where
  idle finding_peers negotiating downloading validating applying completed error : SyncState

pub data SyncError : Type 0 where
  already_running no_reliable_peers no_target_peer invalid_batch not_added : SyncError
  out_of_fuel : SyncError

pub record SyncPeer : Type 0 where
  pub id : ℕ
  pub address : ℕ
  pub latest_height : ℕ
  pub latest_hash : Hash
  pub latency : ℕ
  pub last_seen : ℕ
  pub is_reliable : Bool

-- The timeout is in nanoseconds.
pub record SyncConfig : Type 0 where
  pub max_peers : ℕ
  pub batch_size : ℕ
  pub request_timeout : ℕ
  pub max_retries : ℕ
  pub conflict_resolution : List ℕ
  pub validation_enabled : Bool
  pub checkpoint_sync : Bool

-- BlockValidator, of which only ValidateSequence is called.
pub record BlockValidator (V : Type 0) : Type 0 where
  pub validate_sequence : List Block → V → Bool

pub record BlockSynchronizer (S F V C : Type 0) : Type 0 where
  pub mu : Bool
  pub blockchain : Manager S
  pub validator : Option V
  pub state : SyncState
  pub config : SyncConfig
  pub peers : Assoc SyncPeer
  pub target_height : ℕ
  pub current_height : ℕ
  pub sync_progress : F
  pub last_sync_time : ℕ
  pub error_count : ℕ
  pub is_running : Bool
  pub sync_callbacks : List C
  pub calls : List (C × SyncState × F × ℕ)

pub data Run (S F V C A : Type 0) : Type 0 where
  finished : A → BlockSynchronizer S F V C → Run S F V C A
  blocked : BlockSynchronizer S F V C → Run S F V C A

abbrev pub Action : Type 0 → Type 0 → Type 0 → Type 0 → Type 0 → Type 0
Action S F V C A = BlockSynchronizer S F V C → Run S F V C A

module _ {S F V C : Type 0} where
  infixl 5 ◌>>=◌ ◌>>◌
  abbrev pub ◌>>=◌ : {A B : Type 0} → Action S F V C A → (A → Action S F V C B) → Action S F V C B
  (m >>= k) bs = elim (m bs) [ finished a bs' ↦ k a bs' | blocked bs' ↦ blocked bs' ]

  abbrev pub ◌>>◌ : {B : Type 0} → Action S F V C (Unit {0}) → Action S F V C B → Action S F V C B
  m >> k = m >>= λ _. k

  abbrev pub return : {A : Type 0} → A → Action S F V C A
  return a bs = finished a bs

  -- bs.mu.Lock() and bs.mu.Unlock()
  abbrev pub lock : Action S F V C (Unit {0})
  lock bs = if bs.mu then blocked bs else finished tt (record bs { mu = true })

  abbrev pub unlock : Action S F V C (Unit {0})
  unlock bs = finished tt (record bs { mu = false })

  -- bs.mu.RLock(), which bs.mu.RUnlock() follows in the same method
  abbrev pub rlock : Action S F V C (Unit {0})
  rlock bs = if bs.mu then blocked bs else finished tt bs

  abbrev pub modify :
      (BlockSynchronizer S F V C → BlockSynchronizer S F V C) → Action S F V C (Unit {0})
  modify f bs = finished tt (f bs)

  abbrev pub read : {A : Type 0} → (BlockSynchronizer S F V C → A) → Action S F V C A
  read f bs = finished (f bs) bs

  -- `if err != nil { return err }`
  abbrev pub then_or_return :
      {A : Type 0}
      → Result SyncError (Unit {0})
      → Action S F V C (Result SyncError A)
      → Action S F V C (Result SyncError A)
  then_or_return (ok _) k = k
  then_or_return (err e) k = return (err e)

-- "longest_chain"
abbrev longest_chain : List ℕ
longest_chain =
    b'l' ∷ b'o' ∷ b'n' ∷ b'g' ∷ b'e' ∷ b's' ∷ b't' ∷ b'_' ∷ b'c' ∷ b'h' ∷ b'a' ∷ b'i' ∷ b'n' ∷ []

abbrev pub default_sync_config : SyncConfig
default_sync_config = record {
  max_peers = 10;
  batch_size = 50;
  request_timeout = 30 * 10 ^ 9;
  max_retries = 3;
  conflict_resolution = longest_chain;
  validation_enabled = true;
  checkpoint_sync = true;
}

module _ {S F V C : Type 0} where
  abbrev pub calls_of : BlockSynchronizer S F V C → List C → List (C × SyncState × F × ℕ)
  calls_of bs [] = []
  calls_of bs (c ∷ cs) = (c, bs.state, bs.sync_progress, bs.current_height) ∷ calls_of bs cs

  -- notifyStateChange
  unfoldable pub notify_state_change : Action S F V C (Unit {0})
  notify_state_change =
      rlock >> modify (λ bs. record bs { calls = calls_of bs bs.sync_callbacks ++ bs.calls })
