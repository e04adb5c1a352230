-- ===== src/Synchronizer/Outcomes.antt =====
-- synchronizer.go: how a synchronisation can end.
use shardmatrix.Prelude.{
  ℕ, ◌<◌, ◌≡◌, inl, inr, refl, false, List, Result, ok, err, ltb, ltb→lt, Bool-cases, Option-cases,
}
use shardmatrix.Types.{Block}
use shardmatrix.Chain.{Manager}
use shardmatrix.Synchronizer.{
  SyncState, SyncError, Run, finished, blocked, BlockValidator, BlockSynchronizer, Action,
  notify_state_change, then_or_return,
}
use shardmatrix.Synchronizer.Operations.{target_above}
use shardmatrix.Synchronizer.Syncing.{
  enter, find_reliable_peers, negotiate_target_height, validate_blocks, check_batch,
}

module _ {S F V C A : Type 0} (f : ℕ → Manager S → ℕ → ℕ → ℕ → A)
    (W : BlockSynchronizer S F V C → Type 0) where
  -- The lock is free, and what f reads of the last time, the chain, the batch size, the
  -- height and the count of errors is c.
  abbrev pub Free : A → BlockSynchronizer S F V C → Type 0
  Free c bs =
      (bs.mu ≡ false)
      × (f bs.last_sync_time bs.blockchain bs.config.batch_size bs.current_height bs.error_count
          ≡ c)

  -- The run ends like that.
  abbrev pub Frees : {B : Type 0} → A → Run S F V C B → Type 0
  Frees c (finished a bs) = Free c bs
  Frees c (blocked bs) = ⊥

  -- It ends like that with an error, or it blocks as W says.
  abbrev pub Fails : A → Run S F V C (Result SyncError (Unit {0})) → Type 0
  Fails c (finished (ok _) bs) = ⊥
  Fails c (finished (err e) bs) = Free c bs
  Fails c (blocked bs) = W bs

  -- After an action that frees the lock, what holds of the rest holds of the whole.
  pub after_free :
      {X Y : Type 0} (P : Run S F V C Y → Type 0) (c : A) (r : Run S F V C X)
      (k : X → Action S F V C Y)
      → Frees c r
      → ((x : X) (bs : BlockSynchronizer S F V C) → Free c bs → P (k x bs))
      → P (elim r [ finished a bs ↦ k a bs | blocked bs ↦ blocked bs ])
  after_free P c (finished x bs) k h g = g x bs h
  after_free P c (blocked bs) k h g = absurd h

  pub enter-Frees :
      (c : A) (s : SyncState) (bs : BlockSynchronizer S F V C) → Free c bs → Frees c (enter s bs)
  enter-Frees c s bs h = rw h.0 (refl, h.1)

  pub notify_state_change-Frees :
      (c : A) (bs : BlockSynchronizer S F V C) → Free c bs → Frees c (notify_state_change bs)
  unfolding notify_state_change
  notify_state_change-Frees c bs h = rw h.0 (refl, h.1)

  pub find_reliable_peers-Frees :
      (c : A) (bs : BlockSynchronizer S F V C) → Free c bs → Frees c (find_reliable_peers bs)
  unfolding find_reliable_peers
  find_reliable_peers-Frees c bs h = rw h.0 (refl, h.1)

  -- It ends with a target above the current height, or with an error.
  abbrev pub Aims : A → Run S F V C (Result SyncError (Unit {0})) → Type 0
  Aims c (finished (ok _) bs) = Free c bs × (bs.current_height < bs.target_height)
  Aims c (finished (err e) bs) = Free c bs
  Aims c (blocked bs) = ⊥

  pub negotiate_target_height-Aims :
      (c : A) (bs : BlockSynchronizer S F V C) → Free c bs → Aims c (negotiate_target_height bs)
  unfolding negotiate_target_height notify_state_change
  negotiate_target_height-Aims c bs h =
      elim (Bool-cases (ltb bs.current_height (target_above bs.current_height bs.peers))) [
        | inl above ↦
            rw (negotiate_target_height, h.0, above)
              (
                (refl, h.1),
                ltb→lt bs.current_height (target_above bs.current_height bs.peers) above,
              )
        | inr below ↦ rw (negotiate_target_height, h.0, below) (refl, h.1)
      ]

  pub check_batch-Frees :
      (bv : BlockValidator V) (c : A) (blocks : List Block) (bs : BlockSynchronizer S F V C)
      → Free c bs
      → Frees c (check_batch bv blocks bs)
  unfolding check_batch validate_blocks
  check_batch-Frees bv c blocks bs h = elim (Bool-cases bs.config.validation_enabled) [
    | inr off ↦ rw (check_batch, off) h
    | inl on ↦ elim (Option-cases bs.validator) [
      | inl none_set ↦ rw (check_batch, on, h.0, none_set) (refl, h.1)
      | inr (v, is_set) ↦ rw (check_batch, on, h.0, is_set) (refl, h.1)
    ]
  ]

  pub then_or_return-Fails :
      (c : A) (r : Result SyncError (Unit {0})) (k : Action S F V C (Result SyncError (Unit {0})))
      (bs : BlockSynchronizer S F V C)
      → Free c bs
      → Fails c (k bs)
      → Fails c (then_or_return r k bs)
  then_or_return-Fails c (ok _) k bs h g = g
  then_or_return-Fails c (err e) k bs h g = h

  pub after_failure :
      (c : A) (r : Run S F V C (Result SyncError (Unit {0})))
      (k : Action S F V C (Result SyncError (Unit {0})))
      → Fails c r
      → Fails c (elim r [ finished done bs ↦ then_or_return done k bs | blocked bs ↦ blocked bs ])
  after_failure c (finished (ok _) bs) k h = absurd h
  after_failure c (finished (err e) bs) k h = h
  after_failure c (blocked bs) k h = h

  pub after_aim :
      (c : A) (r : Run S F V C (Result SyncError (Unit {0})))
      (k : Action S F V C (Result SyncError (Unit {0})))
      → Aims c r
      → ((bs : BlockSynchronizer S F V C)
          → Free c bs
          → bs.current_height < bs.target_height
          → Fails c (k bs))
      → Fails c
          (elim r [ finished agreed bs ↦ then_or_return agreed k bs | blocked bs ↦ blocked bs ])
  after_aim c (finished (ok _) bs) k h g = g bs h.0 h.1
  after_aim c (finished (err e) bs) k h g = h
  after_aim c (blocked bs) k h g = absurd h
