-- ===== src/Synchronizer/Batches.antt =====
-- synchronizer.go: why a synchronisation fails when its first batch does.
use shardmatrix.Prelude.{
  ℕ, suc, ◌+◌, ◌-◌, ◌<◌, ◌≤◌, ◌≡◌, refl, false, ◌++◌, arith, ltb, if◌then◌else◌,
}
use shardmatrix.Prelude.Words.{add64, sub64}
use shardmatrix.Primitives.{Primitives}
use shardmatrix.Storage.{Storage}
use shardmatrix.Chain.{Manager}
use shardmatrix.Dpos.Health.{Float64}
use shardmatrix.Synchronizer.{
  downloading, applying, calls_of, BlockValidator, BlockSynchronizer, notify_state_change,
}
use shardmatrix.Synchronizer.Syncing.{
  enter, find_reliable_peers, negotiate_target_height, check_batch, apply_and_report,
  download_batch, sync_batch, download_from, download_blocks, sync_steps,
}
use shardmatrix.Synchronizer.Outcomes.{
  Free, Fails, after_free, after_failure, after_aim, then_or_return-Fails, check_batch-Frees,
  enter-Frees, find_reliable_peers-Frees, negotiate_target_height-Aims,
}

module _ {S F V C A : Type 0} (f : ℕ → Manager S → ℕ → ℕ → ℕ → A)
    (W : BlockSynchronizer S F V C → Type 0) (st : Storage S) (p : Primitives) (fl : Float64 F)
    (bv : BlockValidator V) (clock : ℕ → ℕ) (c : A) where
  -- A batch fails if applying it does, and then the rest of downloadBlocks is not reached.
  sync_batch-Fails :
      (height end_height : ℕ) (bs : BlockSynchronizer S F V C)
      → Free f W c bs
      → ((b : BlockSynchronizer S F V C)
          → Free f W c b
          → Fails f W c (
              apply_and_report st p fl (download_batch p clock height (end_height + 1 - height)) b))
      → Fails f W c (sync_batch st p fl bv clock height end_height bs)
  unfolding sync_batch
  sync_batch-Fails height end_height bs h applied =
      let blocks = download_batch p clock height (end_height + 1 - height) in
      after_free f W (Fails f W c) c (check_batch bv blocks bs) _
        (check_batch-Frees f W bv c blocks bs h)
        (λ valid b1 h1. then_or_return-Fails f W c valid _ b1 h1 (
          after_free f W (Fails f W c) c (enter applying b1) _ (enter-Frees f W c applying b1 h1)
            (λ _ b2 h2. applied b2 h2)))

  -- Where the first batch of a download from a height ends.
  abbrev pub batch_end : ℕ → BlockSynchronizer S F V C → ℕ
  batch_end height bs =
      let last = sub64 (add64 height bs.config.batch_size) 1 in
      if ltb bs.target_height last then bs.target_height else last

  -- What is asked of the first batch.
  abbrev pub FirstFails : ℕ → BlockSynchronizer S F V C → Type 0
  FirstFails height bs =
      (b : BlockSynchronizer S F V C)
      → Free f W c b
      → Fails f W c (
          apply_and_report st p fl
            (download_batch p clock height (batch_end height bs + 1 - height)) b)

  download_from-Fails :
      (fuel height : ℕ) (bs : BlockSynchronizer S F V C)
      → Free f W c bs
      → height ≤ bs.target_height
      → FirstFails height bs
      → Fails f W c (download_from st p fl bv clock (suc fuel) height bs)
  unfolding download_from
  download_from-Fails fuel height bs h due first =
      let not_done : ltb bs.target_height height ≡ false = ground arith in
      let batch = sync_batch-Fails height (batch_end height bs) bs h first in
      rw (download_from, not_done) (after_failure f W c _ _ batch)

  download_blocks-Fails :
      (fuel : ℕ) (bs : BlockSynchronizer S F V C)
      → Free f W c bs
      → bs.current_height < bs.target_height
      → FirstFails (add64 bs.current_height 1) bs
      → Fails f W c (download_blocks st p fl bv clock (suc fuel) bs)
  unfolding download_blocks notify_state_change
  download_blocks-Fails fuel bs h below first =
      let height = add64 bs.current_height 1 in
      let bs' = record bs {
        mu = false;
        state = downloading;
        calls =
            calls_of (record bs { mu = false; state = downloading }) bs.sync_callbacks ++ bs.calls;
      } in
      let rest = download_from-Fails fuel height bs' (refl, h.1) (omega arith) first in
      rw (download_blocks, h.0) rest

  -- With fuel for one batch, performSync's steps fail if the first batch does, whatever the target.
  pub sync_steps-Fails :
      (fuel : ℕ) (bs : BlockSynchronizer S F V C)
      → Free f W c bs
      → ((b : BlockSynchronizer S F V C)
          → Free f W c b
          → b.current_height < b.target_height
          → FirstFails (add64 b.current_height 1) b)
      → Fails f W c (sync_steps st p fl bv clock (suc fuel) bs)
  unfolding sync_steps
  sync_steps-Fails fuel bs h first =
      after_free f W (Fails f W c) c (find_reliable_peers bs) _
        (find_reliable_peers-Frees f W c bs h)
        (λ found b1 h1. then_or_return-Fails f W c found _ b1 h1 (
          after_aim f W c (negotiate_target_height b1) (download_blocks st p fl bv clock (suc fuel))
            (negotiate_target_height-Aims f W c b1 h1)
            (λ b2 h2 below. download_blocks-Fails fuel b2 h2 below (first b2 h2 below))))
