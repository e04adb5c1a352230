-- ===== src/ThreeLayer/Consensus.antt =====
-- three_layer_validator.go against dpos.go: the consensus layer and DPoSConsensus.ValidateBlock.
use shardmatrix.Prelude.{◌≡◌, ◌↔◌, true, ◌&&◌, ok, arith, inl, inr, refl, Result-cases}
use shardmatrix.Primitives.{Primitives}
use shardmatrix.Types.{Block, block_is_empty, is_zero}
use shardmatrix.Dpos
use shardmatrix.Dpos.{Dpos, is_validator, is_current_validator}
use shardmatrix.Interfaces.{ConsensusEngine, dpos_engine}
use shardmatrix.ThreeLayer.Layers.{
  validate_consensus, validate_empty_block_marker, validate_validator_permission,
  validate_block_signature,
}

-- The consensus layer passes exactly if its three checks do.
validate_consensus_iff :
    {E : Type 0} (en : ConsensusEngine E) (p : Primitives) (e : E) (b : Block)
    → (validate_consensus en p e b ≡ ok tt) ↔ (
        (validate_validator_permission en e b ≡ ok tt)
        × (validate_block_signature en p e b ≡ ok tt)
        × (validate_empty_block_marker p b ≡ ok tt))
unfolding validate_consensus
validate_consensus_iff en p e b = (
  λ h. elim (Result-cases (validate_validator_permission en e b)) [
    | inr (_, r) ↦ absurd (ground arith)
    | inl (_, r) ↦ elim (Result-cases (validate_block_signature en p e b)) [
      | inr (_, s) ↦ absurd (ground arith)
      | inl (_, s) ↦ elim (Result-cases (validate_empty_block_marker p b)) [
        | inr (_, t) ↦ absurd (ground arith)
        | inl (_, t) ↦ (r, s, t)
      ]
    ]
  ],
  λ h. rw (h.0, h.1, h.2) refl,
)

module _ {S F : Type 0} (p : Primitives) where
  -- Of a block without transactions and signature, the consensus layer checks no key: it accepts
  -- it exactly if the header names an active validator whose turn it is, and the empty transaction
  -- root.
  validate_consensus-unsigned :
      (d : Dpos S F) (b : Block)
      → (block_is_empty b && is_zero b.header.signature) ≡ true
      → (validate_consensus dpos_engine p d b ≡ ok tt) ↔ (
          (is_validator d b.header.validator ≡ true)
          × (is_current_validator d b.header.validator b.header.number ≡ true)
          × (validate_empty_block_marker p b ≡ ok tt))
  unfolding dpos_engine validate_validator_permission validate_block_signature is_validator
  validate_consensus-unsigned d b unsigned = (
    λ h.
        let (may, _, marked) = (validate_consensus_iff dpos_engine p d b).0 h in
        (ground arith, ground arith, marked),
    λ h. (validate_consensus_iff dpos_engine p d b).1 (ground arith, ground arith, h.2),
  )
