-- ===== src/ThreeLayer/Sequences.antt =====
-- three_layer_validator.go: ValidateSequence checks every block against the same last block.
use shardmatrix.Prelude.{ℕ, ◌<◌, ◌≡◌, some, true, List, ◌∷◌, ok, err, arith, inl, inr, Result-cases}
use shardmatrix.Prelude.Words.{add64}
use shardmatrix.Primitives.{Primitives}
use shardmatrix.Types.{Block}
use shardmatrix.Interfaces.{StateManager, ConsensusEngine}
use shardmatrix.ThreeLayer.{ThreeLayerValidator}
use shardmatrix.ThreeLayer.Layers.{
  validate_block, SequenceError, validate_each, validate_sequence, check_links,
}
use shardmatrix.ThreeLayer.Accepts.{
  validate_structure-Structured, validate_block-layers, when-ok, validate_block_height-ok,
}

module _ {E M C : Type 0} (en : ConsensusEngine E) (sm : StateManager M) (p : Primitives) where
  validate_block-height :
      (tv : ThreeLayerValidator E M C) (now : ℕ) (b : Block)
      → tv.config.enable_structure_validation ≡ true
      → 0 < b.header.number
      → validate_block en sm p tv now b ≡ ok tt
      → (a : Block) × (sm.get_last_block tv.state_manager ≡ some a)
        × (b.header.number ≡ add64 a.header.number 1)
  validate_block-height tv now b enabled pos h =
      let (first, _, _) = validate_block-layers en sm p tv now b h in
      let s = validate_structure-Structured sm p tv now b (when-ok _ enabled first) in
      let (a, last, height, _) = validate_block_height-ok sm p tv.state_manager b pos s.next in
      (a, last, height)

  -- The two blocks that stand first in an accepted sequence pass ValidateBlock, and are consecutive.
  validate_sequence-first_two :
      (tv : ThreeLayerValidator E M C) (clock : ℕ → ℕ) (a b : Block) (bs : List Block)
      → validate_sequence en sm p tv clock (a ∷ b ∷ bs) ≡ ok tt
      → (validate_block en sm p tv (clock 0) a ≡ ok tt)
        × (validate_block en sm p tv (clock 1) b ≡ ok tt)
        × (b.header.number ≡ add64 a.header.number 1)
  unfolding validate_sequence validate_each check_links
  validate_sequence-first_two tv clock a b bs h =
      elim (Result-cases (validate_block en sm p tv (clock 0) a)) [
        | inr (_, r) ↦ absurd (ground arith)
        | inl (_, r) ↦ elim (Result-cases (validate_block en sm p tv (clock 1) b)) [
          | inr (_, s) ↦ absurd (ground arith)
          | inl (_, s) ↦ (
            r,
            s,
            elim (Result-cases (validate_each en sm p tv clock 2 bs)) [
              | inr (_, t) ↦ absurd (ground arith)
              | inl (_, t) ↦ ground arith
            ],
          )
        ]
      ]

  -- With the structure layer enabled, ValidateSequence refuses every sequence of two or more
  -- blocks whose first two have numbers above 0, over any consensus engine and state manager:
  -- both must be the next block after the same last one, and the second the next after the first.
  pub validate_sequence-refuses :
      (tv : ThreeLayerValidator E M C) (clock : ℕ → ℕ) (a b : Block) (bs : List Block)
      → tv.config.enable_structure_validation ≡ true
      → 0 < a.header.number
      → 0 < b.header.number
      → (e : SequenceError) × (validate_sequence en sm p tv clock (a ∷ b ∷ bs) ≡ err e)
  validate_sequence-refuses tv clock a b bs enabled pos_a pos_b =
      elim (Result-cases (validate_sequence en sm p tv clock (a ∷ b ∷ bs))) [
        | inr found ↦ found
        | inl (_, h) ↦
            let (first, second, next) = validate_sequence-first_two tv clock a b bs h in
            let (l, last, height) = validate_block-height tv (clock 0) a enabled pos_a first in
            let (k, last', height') = validate_block-height tv (clock 1) b enabled pos_b second in
            let one : l.header.number ≡ k.header.number = cc in absurd (omega arith)
      ]
