-- ===== src/Synchronizer/Completion.antt =====
-- synchronizer.go: how performSync ends.
use shardmatrix.Prelude.{
  ℕ, zero, suc, ◌+◌, ◌-◌, ◌<◌, ◌≤◌, ◌≡◌, ◌≢◌, inl, inr, refl, true, false, some, List, [], ◌∷◌,
  Result, ok, err, arith, ltb, Bool-cases, Result-cases, if◌then◌else◌, ap, sym, subst, ◌∙◌,
}
use shardmatrix.Prelude.Words.{word, add64, sub64, lt_i64}
use shardmatrix.Primitives.{Primitives}
use shardmatrix.Storage.{Storage}
use shardmatrix.Types.{Block, hash_block}
use shardmatrix.Chain.{Manager, ChainError, not_initialized}
use shardmatrix.Chain.Blocks
use shardmatrix.Chain.Blocks.{add_block}
use shardmatrix.Chain.Blocks.Append.{validate_block_iff}
use shardmatrix.Dpos.Health.{Float64}
use shardmatrix.Synchronizer.{
  idle, finding_peers, error, SyncError, Run, finished, blocked, BlockValidator, BlockSynchronizer,
  Action, notify_state_change, not_added,
}
use shardmatrix.Synchronizer.Syncing.{
  enter, handle_sync_error, update_progress, add_to_chain, simulated_block, apply_blocks,
  apply_and_report, download_batch, sync_steps, perform_sync,
}
use shardmatrix.Synchronizer.Outcomes.{
  Free, Frees, Fails, after_free, then_or_return-Fails, enter-Frees, notify_state_change-Frees,
}
use shardmatrix.Synchronizer.Batches.{FirstFails, batch_end, sync_steps-Fails}

module _ {S F V C A : Type 0} (f : ℕ → Manager S → ℕ → ℕ → ℕ → A)
    (W : BlockSynchronizer S F V C → Type 0) (c : A) where
  -- After n errors there is one more, but for which what f reads is c; the lock is free, and the
  -- synchronizer is idle while the errors are fewer than the retries allowed, and else in the error state.
  abbrev pub GivesUp : ℕ → Run S F V C (Unit {0}) → Type 0
  GivesUp n (finished _ bs) =
      Free f W c (record bs { error_count = n })
      × (bs.error_count ≡ add64 n 1)
      × (bs.state ≡ (if lt_i64 bs.error_count bs.config.max_retries then idle else error))
  GivesUp n (blocked bs) = W bs

  handle_sync_error-GivesUp :
      (bs : BlockSynchronizer S F V C)
      → Free f W c bs
      → GivesUp bs.error_count (handle_sync_error bs)
  unfolding handle_sync_error notify_state_change
  handle_sync_error-GivesUp bs h =
      elim (Bool-cases (lt_i64 (add64 bs.error_count 1) bs.config.max_retries)) [
        | inl again ↦ rw (handle_sync_error, h.0, again) ((refl, h.1), refl, rw again refl)
        | inr enough ↦ rw (handle_sync_error, h.0, enough) ((refl, h.1), refl, rw enough refl)
      ]

  after_failed_steps :
      (n : ℕ) (r : Run S F V C (Result SyncError (Unit {0})))
      (k : Result SyncError (Unit {0}) → Action S F V C (Unit {0}))
      → Fails f W c r
      → ((e : SyncError) (bs : BlockSynchronizer S F V C)
          → Free f W c bs
          → GivesUp n (k (err e) bs))
      → GivesUp n (elim r [ finished done bs ↦ k done bs | blocked bs ↦ blocked bs ])
  after_failed_steps n (finished (ok _) bs) k h g = absurd h
  after_failed_steps n (finished (err e) bs) k h g = g e bs h
  after_failed_steps n (blocked bs) k h g = h

  perform_sync-GivesUp :
      (st : Storage S) (p : Primitives) (fl : Float64 F) (bv : BlockValidator V) (clock : ℕ → ℕ)
      (fuel now : ℕ) (bs : BlockSynchronizer S F V C)
      → Free f W c bs
      → ((b : BlockSynchronizer S F V C) → Free f W c b → b.error_count ≡ bs.error_count)
      → ((b : BlockSynchronizer S F V C)
          → Free f W c b
          → b.current_height < b.target_height
          → FirstFails f W st p fl bv clock c (add64 b.current_height 1) b)
      → GivesUp bs.error_count (perform_sync st p fl bv clock (suc fuel) now bs)
  unfolding perform_sync
  perform_sync-GivesUp st p fl bv clock fuel now bs h counts first =
      let n = bs.error_count in
      after_free f W (GivesUp n) c (enter finding_peers bs) _ (enter-Frees f W c finding_peers bs h)
        (λ _ b1 h1.
          after_free f W (GivesUp n) c (notify_state_change b1) _
            (notify_state_change-Frees f W c b1 h1)
            (λ _ b2 h2.
              after_failed_steps n (sync_steps st p fl bv clock (suc fuel) b2) _
                (sync_steps-Fails f W st p fl bv clock c fuel b2 h2 first)
                (λ e b3 h3.
                  subst (λ k. GivesUp k (handle_sync_error b3)) (counts b3 h3)
                    (handle_sync_error-GivesUp b3 h3))))

-- It blocks with the writer's lock held.
abbrev pub HoldsLock : {S F V C : Type 0} → BlockSynchronizer S F V C → Type 0
HoldsLock bs = bs.mu ≡ true

-- What is watched: the last time and the count of errors; or the chain, the batch size and the height too.
abbrev pub same_time : {S : Type 0} → ℕ → Manager S → ℕ → ℕ → ℕ → ℕ × ℕ
same_time t m size height errors = (t, errors)

abbrev pub all_same : {S : Type 0} → ℕ → Manager S → ℕ → ℕ → ℕ → ℕ × Manager S × ℕ × ℕ × ℕ
all_same t m size height errors = (t, m, size, height, errors)

after_stuck :
    {S F V C : Type 0} (t : ℕ × ℕ) (r : Run S F V C (Unit {0}))
    (k : Unit {0} → Action S F V C (Result SyncError (Unit {0}))) (b : BlockSynchronizer S F V C)
    → r ≡ blocked b
    → HoldsLock b
    → Fails same_time HoldsLock t (elim r [ finished x bs ↦ k x bs | blocked bs ↦ blocked bs ])
after_stuck t (finished x bs) k b e h = cc
after_stuck t (blocked bs) k b e h = let same : bs ≡ b = cc in rw same h

update_progress-blocked :
    {S F V C : Type 0} (fl : Float64 F) (bs : BlockSynchronizer S F V C)
    → bs.mu ≡ false
    → (b : BlockSynchronizer S F V C) × (update_progress fl bs ≡ blocked b) × HoldsLock b
unfolding update_progress notify_state_change
update_progress-blocked fl bs h = elim (Bool-cases (ltb 0 bs.target_height)) [
  | inl some_target ↦ (
    record bs {
      mu = true;
      sync_progress =
          fl.mul (fl.div (fl.of_u64 bs.current_height) (fl.of_u64 bs.target_height))
            (fl.decimal 10000);
    },
    rw (update_progress, h, some_target) refl,
    refl,
  )
  | inr no_target ↦ (record bs { mu = true }, rw (update_progress, h, no_target) refl, refl)
]

module _ {S : Type 0} (st : Storage S) (p : Primitives) where
  simulated_block-refused :
      (clock : ℕ → ℕ) (height : ℕ) (a : Block) (m : Manager S)
      → m.current_block ≡ some a
      → hash_block p a ≢ 0
      → (e : ChainError) × (add_block st p (simulated_block p clock height) m ≡ (err e, m))
  unfolding add_block simulated_block
  simulated_block-refused clock height a m current h = elim (Bool-cases m.is_initialized) [
    | inr not_ready ↦ (not_initialized, ground arith)
    | inl ready ↦ elim (Result-cases (Blocks.validate_block p a (simulated_block p clock height))) [
      | inl (_, valid) ↦
          let follows = (validate_block_iff p a (simulated_block p clock height)).0 valid in
          absurd (h (sym (follows.link)))
      | inr (e, invalid) ↦ (e, ground arith)
    ]
  ]

module _ {S F V C : Type 0} (st : Storage S) (p : Primitives) (fl : Float64 F) where
  apply_blocks-Frees :
      (t : ℕ × ℕ) (blocks : List Block) (bs : BlockSynchronizer S F V C)
      → Free same_time HoldsLock t bs
      → Frees same_time HoldsLock t (apply_blocks st p blocks bs)
  unfolding apply_blocks add_to_chain
  apply_blocks-Frees t [] bs h = h
  apply_blocks-Frees t (b ∷ rest) bs h = elim (Result-cases (add_block st p b bs.blockchain).0) [
    | inr (e, failed) ↦ rw (apply_blocks, failed) h
    | inl (_, added) ↦
        let bs' = record bs {
          blockchain = (add_block st p b bs.blockchain).1;
          current_height = b.header.number;
          mu = false;
        } in
        let next = apply_blocks-Frees t rest bs' (refl, h.1) in rw (apply_blocks, added, h.0) next
  ]

  -- Blocks that can be added are followed by the report, which blocks.
  apply_and_report-Fails :
      (t : ℕ × ℕ) (blocks : List Block) (bs : BlockSynchronizer S F V C)
      → Free same_time HoldsLock t bs
      → Fails same_time HoldsLock t (apply_and_report st p fl blocks bs)
  unfolding apply_and_report
  apply_and_report-Fails t blocks bs h =
      after_free same_time HoldsLock (Fails same_time HoldsLock t) t (apply_blocks st p blocks bs) _
        (apply_blocks-Frees t blocks bs h)
        (λ applied b1 h1.
          let (b, stuck, held) = update_progress-blocked fl b1 h1.0 in
          then_or_return-Fails same_time HoldsLock t applied _ b1 h1
            (after_stuck t (update_progress fl b1) _ b stuck held))

  -- performSync never completes. Started with the lock free, whatever the peers, the chain, the
  -- validator and the clock, and with fuel for one batch, one of two things happens. It ends with the count of
  -- errors one higher (as a 64-bit word) and the time of the last synchronisation as it was, idle if the
  -- count is then below the retries allowed and else in the error state, with the lock free; or it blocks
  -- for ever, holding the lock.
  pub perform_sync-incomplete :
      (bv : BlockValidator V) (clock : ℕ → ℕ) (fuel now : ℕ) (bs : BlockSynchronizer S F V C)
      → bs.mu ≡ false
      → GivesUp same_time HoldsLock
          (bs.last_sync_time, bs.error_count)
          bs.error_count
          (perform_sync st p fl bv clock (suc fuel) now bs)
  perform_sync-incomplete bv clock fuel now bs h =
      perform_sync-GivesUp same_time HoldsLock (bs.last_sync_time, bs.error_count) st p fl bv clock
        fuel now bs (h, refl) (λ b hb. ap (λ x. x.1) hb.1)
        (λ b hb below b' hb'.
          apply_and_report-Fails (bs.last_sync_time, bs.error_count)
            (download_batch p clock (add64 b.current_height 1) (
              batch_end same_time HoldsLock st p fl bv clock (bs.last_sync_time, bs.error_count)
                (add64 b.current_height 1) b
              + 1
              - add64 b.current_height 1))
            b' hb')

after_finished :
    {S F V C X Y : Type 0} (r : Run S F V C X) (k : X → Action S F V C Y) {x : X}
    {b : BlockSynchronizer S F V C}
    → r ≡ finished x b
    → elim r [ finished y bs ↦ k y bs | blocked bs ↦ blocked bs ] ≡ k x b
after_finished (finished y bs) k e = cc
after_finished (blocked bs) k e = cc

-- The end of the first batch is not below its start.
first_end-le :
    (height target size : ℕ)
    → height ≤ target
    → 1 ≤ size
    → height + size ≤ word
    → let last = sub64 (add64 height size) 1 in height ≤ (if ltb target last then target else last)
first_end-le height target size h k bound = ground arith

-- It never blocks.
abbrev pub Never : {S F V C : Type 0} → BlockSynchronizer S F V C → Type 0
Never bs = ⊥

module _ {S F V C : Type 0} (st : Storage S) (p : Primitives) (fl : Float64 F) where
  refused_report :
      (b : Block) (rest : List Block) (bs : BlockSynchronizer S F V C) (e : ChainError)
      → (add_block st p b bs.blockchain).0 ≡ err e
      → apply_and_report st p fl (b ∷ rest) bs
        ≡ finished (err not_added) (record bs { blockchain = (add_block st p b bs.blockchain).1 })
  unfolding apply_and_report apply_blocks add_to_chain
  refused_report b rest bs e refused =
      let stops : apply_blocks st p (b ∷ rest) bs
          ≡ finished (err not_added)
              (record bs { blockchain = (add_block st p b bs.blockchain).1 }) =
        rw (apply_blocks, refused) refl in
      after_finished (apply_blocks st p (b ∷ rest) bs) _ stops

  refused_batch :
      (c : ℕ × Manager S × ℕ × ℕ × ℕ) (b : Block) (rest : List Block)
      (bs : BlockSynchronizer S F V C) (e : ChainError)
      → Free all_same Never c bs
      → add_block st p b bs.blockchain ≡ (err e, bs.blockchain)
      → Fails all_same Never c (apply_and_report st p fl (b ∷ rest) bs)
  refused_batch c b rest bs e h refused =
      let stops : apply_and_report st p fl (b ∷ rest) bs
          ≡ finished (err not_added)
              (record bs { blockchain = (add_block st p b bs.blockchain).1 }) =
        refused_report b rest bs e (ap (λ r. r.0) refused) in
      let chain : (add_block st p b bs.blockchain).1 ≡ bs.blockchain = ap (λ r. r.1) refused in
      subst (Fails all_same Never c) (sym stops) (
        h.0,
        ap (λ m. (bs.last_sync_time, m, bs.config.batch_size, bs.current_height, bs.error_count))
              chain
            ∙ h.1,
      )

  -- A batch that is not empty begins with a simulated block.
  first_simulated :
      (c : ℕ × Manager S × ℕ × ℕ × ℕ) (clock : ℕ → ℕ) (height count : ℕ) (a : Block)
      (bs : BlockSynchronizer S F V C)
      → 1 ≤ count
      → Free all_same Never c bs
      → bs.blockchain.current_block ≡ some a
      → hash_block p a ≢ 0
      → Fails all_same Never c (apply_and_report st p fl (download_batch p clock height count) bs)
  unfolding download_batch
  first_simulated c clock height zero a bs some_count h current nonzero = absurd (omega arith)
  first_simulated c clock height (suc count) a bs some_count h current nonzero =
      let (e, refused) =
        simulated_block-refused st p clock height a bs.blockchain current nonzero in
      refused_batch c (simulated_block p clock height) (download_batch p clock (height + 1) count)
        bs e h refused

  -- performSync adds no block: what it downloads are made-up blocks without the hash of a block
  -- before. Let the chain have a current block, whose hash is not zero, and let the batch size be at least 1, with
  -- no overflow at the current height. Started with the lock free, and with fuel for one batch,
  -- performSync does not block; it leaves the chain as it was, counts one more error, and ends idle if the
  -- count is then below the retries allowed and else in the error state.
  pub perform_sync-refused :
      (bv : BlockValidator V) (clock : ℕ → ℕ) (fuel now : ℕ) (a : Block)
      (bs : BlockSynchronizer S F V C)
      → bs.mu ≡ false
      → bs.blockchain.current_block ≡ some a
      → hash_block p a ≢ 0
      → 1 ≤ bs.config.batch_size
      → bs.current_height + 1 + bs.config.batch_size ≤ word
      → GivesUp all_same Never
          (
            bs.last_sync_time, bs.blockchain, bs.config.batch_size, bs.current_height,
            bs.error_count,
          )
          bs.error_count
          (perform_sync st p fl bv clock (suc fuel) now bs)
  perform_sync-refused bv clock fuel now a bs h current nonzero some_size bound =
      let c : ℕ × Manager S × ℕ × ℕ × ℕ = (
        bs.last_sync_time, bs.blockchain, bs.config.batch_size, bs.current_height, bs.error_count,
      ) in
      perform_sync-GivesUp all_same Never c st p fl bv clock fuel now bs (h, refl)
        (λ b hb. ap (λ x. x.4) hb.1)
        (λ b hb below b' hb'.
          let height = add64 b.current_height 1 in
          let end = batch_end all_same Never st p fl bv clock c height b in
          let size : b.config.batch_size ≡ bs.config.batch_size = ap (λ x. x.2) hb.1 in
          let at : b.current_height ≡ bs.current_height = ap (λ x. x.3) hb.1 in
          let reaches =
            first_end-le height b.target_height b.config.batch_size (omega arith) (omega arith)
              (omega arith) in
          let chain : b'.blockchain ≡ bs.blockchain = ap (λ x. x.1) hb'.1 in
          first_simulated c clock height (end + 1 - height) a b' (omega (arith, reaches)) hb'
            (rw chain current) nonzero)
