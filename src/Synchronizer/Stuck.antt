-- ===== src/Synchronizer/Stuck.antt =====
-- synchronizer.go: the error state is left only by Stop and ForceSyncFrom.
use shardmatrix.Prelude.{ℕ, ◌≡◌, refl, false, Option, Result, Bool-cases, inl, inr}
use shardmatrix.Primitives.{Primitives}
use shardmatrix.Storage.{Storage}
use shardmatrix.Chain.{Manager}
use shardmatrix.Dpos.Health.{Float64}
use shardmatrix.Synchronizer.{
  error, SyncError, SyncPeer, SyncConfig, Run, finished, blocked, BlockValidator, BlockSynchronizer,
}
use shardmatrix.Synchronizer.Operations.{
  start, add_peer, remove_peer, set_config, register_sync_callback, should_sync,
}
use shardmatrix.Synchronizer.Syncing.{sync_tick}

module _ {S F V C : Type 0} (st : Storage S) (p : Primitives) (fl : Float64 F)
    (bv : BlockValidator V) where
  -- What can happen to a synchronizer, other than Stop and ForceSyncFrom.
  pub data Step : BlockSynchronizer S F V C → BlockSynchronizer S F V C → Type 0 where
    ticks :
        (clock : ℕ → ℕ) (fuel now : ℕ) {bs bs' : BlockSynchronizer S F V C}
        → sync_tick st p fl bv clock fuel now bs ≡ finished tt bs'
        → Step bs bs'
    starts :
        (latest : Option ℕ) (r : Result SyncError (Unit {0})) {bs bs' : BlockSynchronizer S F V C}
        → start latest bs ≡ finished r bs'
        → Step bs bs'
    adds :
        (peer : SyncPeer) {bs bs' : BlockSynchronizer S F V C}
        → add_peer peer bs ≡ finished tt bs'
        → Step bs bs'
    removes :
        (id : ℕ) {bs bs' : BlockSynchronizer S F V C}
        → remove_peer id bs ≡ finished tt bs'
        → Step bs bs'
    configures :
        (config : SyncConfig) {bs bs' : BlockSynchronizer S F V C}
        → set_config config bs ≡ finished tt bs'
        → Step bs bs'
    registers :
        (callback : C) {bs bs' : BlockSynchronizer S F V C}
        → register_sync_callback callback bs ≡ finished tt bs'
        → Step bs bs'

  pub data Steps : BlockSynchronizer S F V C → BlockSynchronizer S F V C → Type 0 where
    done : {bs : BlockSynchronizer S F V C} → Steps bs bs
    next : {bs bs' bs'' : BlockSynchronizer S F V C} → Step bs bs' → Steps bs' bs'' → Steps bs bs''

  -- The error state, with the lock free, over one chain.
  pub record IsStuck (m : Manager S) (bs : BlockSynchronizer S F V C) : Type 0 where
    pub unlocked : bs.mu ≡ false
    pub in_error : bs.state ≡ error
    pub chain : bs.blockchain ≡ m

  -- It is kept by what a run that finishes leaves.
  abbrev EndsStuck : {A : Type 0} → Manager S → Run S F V C A → Type 0
  EndsStuck m (finished _ bs) = IsStuck m bs
  EndsStuck m (blocked bs) = Unit

  finished-IsStuck :
      {A : Type 0} (m : Manager S) (r : Run S F V C A) {a : A} {bs : BlockSynchronizer S F V C}
      → EndsStuck m r
      → r ≡ finished a bs
      → IsStuck m bs
  finished-IsStuck m (finished _ b) {bs} h e = let same : b ≡ bs = cc in rw (← same) h
  finished-IsStuck m (blocked b) h e = cc

  Step-IsStuck :
      {m : Manager S} {bs bs' : BlockSynchronizer S F V C}
      → IsStuck m bs
      → Step bs bs'
      → IsStuck m bs'
  unfolding sync_tick should_sync start add_peer remove_peer set_config register_sync_callback
  Step-IsStuck {m} {bs} h (ticks clock fuel now e) =
      finished-IsStuck m (sync_tick st p fl bv clock fuel now bs)
        (rw (sync_tick, h.unlocked, h.in_error)
          (record { unlocked = refl; in_error = refl; chain = h.chain }))
        e
  Step-IsStuck {m} {bs} h (starts latest r e) =
      finished-IsStuck m (start latest bs)
        (elim (Bool-cases bs.is_running) [
          | inl on ↦
              rw (start, h.unlocked, on)
                (record { unlocked = refl; in_error = h.in_error; chain = h.chain })
          | inr off ↦
              rw (start, h.unlocked, off)
                (record { unlocked = refl; in_error = h.in_error; chain = h.chain })
        ])
        e
  Step-IsStuck {m} {bs} h (adds peer e) =
      finished-IsStuck m (add_peer peer bs)
        (rw (add_peer, h.unlocked)
          (record { unlocked = refl; in_error = h.in_error; chain = h.chain }))
        e
  Step-IsStuck {m} {bs} h (removes id e) =
      finished-IsStuck m (remove_peer id bs)
        (rw (remove_peer, h.unlocked)
          (record { unlocked = refl; in_error = h.in_error; chain = h.chain }))
        e
  Step-IsStuck {m} {bs} h (configures config e) =
      finished-IsStuck m (set_config config bs)
        (rw (set_config, h.unlocked)
          (record { unlocked = refl; in_error = h.in_error; chain = h.chain }))
        e
  Step-IsStuck {m} {bs} h (registers callback e) =
      finished-IsStuck m (register_sync_callback callback bs)
        (rw (register_sync_callback, h.unlocked)
          (record { unlocked = refl; in_error = h.in_error; chain = h.chain }))
        e

  -- From the error state, with the lock free, no ticks of the loop, calls of Start, AddPeer,
  -- RemovePeer, SetConfig and RegisterSyncCallback, in any number and order, lead out of the error state,
  -- and the chain stays as it is: no tick synchronises again.
  pub Steps-IsStuck :
      {m : Manager S} {bs bs' : BlockSynchronizer S F V C}
      → IsStuck m bs
      → Steps bs bs'
      → IsStuck m bs'
  Steps-IsStuck h done = h
  Steps-IsStuck h (next s rest) = Steps-IsStuck (Step-IsStuck h s) rest
