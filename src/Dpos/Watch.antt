-- ===== src/Dpos/Watch.antt =====
-- dpos.go: the health of the nodes, the safety mode, and the health check that runs every fifteen
-- seconds. `now` is time.Now().Unix(), which a check reads anew in each of its parts.
pub mod Keeps
pub mod Seats
pub mod Safety
use shardmatrix.Prelude.{
  ℕ, ◌+◌, ◌*◌, Bool, true, false, not, ◌&&◌, Option, none, some, List, [], ◌∷◌, length, ◌==◌,
  if◌then◌else◌,
}
use shardmatrix.Prelude.Words.{add64, sub64, lt_i64, le_i64}
use shardmatrix.Prelude.Assoc.{Assoc, lookup, insert}
use shardmatrix.Storage.{Storage}
use shardmatrix.Types.{Address, Validator}
use shardmatrix.Dpos.{Dpos, deactivated}
use shardmatrix.Dpos.Sorting.{Sorter}
use shardmatrix.Dpos.Health.{Float64, NodeHealthInfo, new_health, update_node_active_score}

-- How long ago a node was heard of.
abbrev pub silence : {F : Type 0} → ℕ → NodeHealthInfo F → ℕ
silence now h = sub64 now h.last_heartbeat

abbrev pub reactivated : Validator → Validator
reactivated v = record v { is_active = true }

module _ {F : Type 0} where
  abbrev pub health_or_new : Float64 F → Address → Assoc (NodeHealthInfo F) → NodeHealthInfo F
  health_or_new fl a m = elim (lookup a m) [ some h ↦ h | none ↦ new_health fl ]

  abbrev pub is_responsive : Assoc (NodeHealthInfo F) → Validator → Bool
  is_responsive m v =
      v.is_active && (elim (lookup v.address m) [ some h ↦ h.is_responsive | none ↦ false ])

  -- The count of CheckNodeActivity and GetActiveValidatorRatio.
  unfoldable pub responsive_count : Assoc (NodeHealthInfo F) → List Validator → ℕ
  responsive_count m [] = 0
  responsive_count m (v ∷ vs) =
      let rest = responsive_count m vs in if is_responsive m v then 1 + rest else rest

  -- The loop of cleanupExpiredHealth: five minutes of silence.
  unfoldable pub cleanup_each : ℕ → Assoc (NodeHealthInfo F) → Assoc (NodeHealthInfo F)
  cleanup_each now [] = []
  cleanup_each now ((a, h) ∷ m) =
      let rest = cleanup_each now m in if lt_i64 300 (silence now h) then rest else (a, h) ∷ rest

  -- What autoAdjustValidators makes of one validator, and whether it then saves it.
  abbrev pub adjusted : ℕ → Assoc (NodeHealthInfo F) → Validator → Validator × Bool
  adjusted now m v = elim (lookup v.address m) [
    | none ↦ (v, false)
    | some h ↦
        if v.is_active && (not h.is_responsive && lt_i64 120 (silence now h))
        then (deactivated v, true)
        else if not v.is_active && (h.is_responsive && le_i64 (silence now h) 60)
        then (reactivated v, true)
        else (v, false)
  ]

module _ {S F : Type 0} (fl : Float64 F) where
  -- UpdateNodeHeartbeat
  unfoldable pub update_node_heartbeat : ℕ → Address → ℕ → Dpos S F → Dpos S F
  unfolding update_node_active_score
  update_node_heartbeat now a latency d =
      let h = health_or_new fl a d.node_health in
      let heard : NodeHealthInfo F = record h {
        last_heartbeat = now;
        network_latency = latency;
        is_responsive = true;
      } in
      record d { node_health = insert a (update_node_active_score fl now heard) d.node_health }

  -- UpdateNodeBlockProduction
  unfoldable pub update_node_block_production : ℕ → Address → ℕ → Bool → Dpos S F → Dpos S F
  unfolding update_node_active_score
  update_node_block_production now a block_time produced d =
      let h : NodeHealthInfo F = record (health_or_new fl a d.node_health) {
        last_block_time = block_time;
      } in
      let counted : NodeHealthInfo F =
        if produced
        then record h { blocks_produced = add64 h.blocks_produced 1 }
        else record h { missed_blocks = add64 h.missed_blocks 1 } in
      record d { node_health = insert a (update_node_active_score fl now counted) d.node_health }

  -- CheckNodeActivity; the threshold is the 0.6 that the constructor sets.
  unfoldable pub check_node_activity : ℕ → Dpos S F → Dpos S F
  unfolding responsive_count
  check_node_activity now d =
      let ratio =
        fl.div (fl.of_u64 (responsive_count d.node_health d.validators))
          (fl.of_u64 (length d.validators)) in
      record d { safety_mode = fl.lt ratio (fl.decimal 60); last_health_check = now }

module _ {S F : Type 0} where
  -- IsInSafetyMode
  unfoldable pub is_in_safety_mode : Dpos S F → Bool
  is_in_safety_mode d = d.safety_mode

  -- GetActiveValidatorRatio
  unfoldable pub get_active_validator_ratio : Float64 F → Dpos S F → F
  unfolding responsive_count
  get_active_validator_ratio fl d =
      if length d.validators == 0
      then fl.decimal 0
      else fl.div (fl.of_u64 (responsive_count d.node_health d.validators))
          (fl.of_u64 (length d.validators))

module _ {S F : Type 0} where
  -- cleanupExpiredHealth
  unfoldable pub cleanup_expired_health : ℕ → Dpos S F → Dpos S F
  unfolding cleanup_each
  cleanup_expired_health now d = record d { node_health = cleanup_each now d.node_health }

  module _ (st : Storage S) where
    -- The loop; an error of the storage is dropped.
    unfoldable pub adjust_each :
        ℕ → Assoc (NodeHealthInfo F) → List Validator → S → List Validator × S
    adjust_each now m [] s = ([], s)
    adjust_each now m (v ∷ vs) s =
        let (w, changed) = adjusted now m v in
        let s1 = if changed then (st.save_validator w s).1 else s in
        let (ws, s2) = adjust_each now m vs s1 in (w ∷ ws, s2)

    -- autoAdjustValidators
    unfoldable pub auto_adjust_validators : Sorter → ℕ → Dpos S F → Dpos S F
    unfolding adjust_each
    auto_adjust_validators sorter now d =
        let (vs, s) = adjust_each now d.node_health d.validators d.storage in
        record d { validators = sorter.sort vs; storage = s }

    -- performHealthCheck, with the time that each of its parts reads.
    unfoldable pub perform_health_check : Float64 F → Sorter → ℕ → ℕ → ℕ → Dpos S F → Dpos S F
    unfolding check_node_activity cleanup_expired_health auto_adjust_validators
    perform_health_check fl sorter checked cleaned adjusted_at d =
        auto_adjust_validators sorter adjusted_at
          (cleanup_expired_health cleaned (check_node_activity fl checked d))
