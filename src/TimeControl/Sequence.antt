-- ===== src/TimeControl/Sequence.antt =====
-- What a validated sequence of blocks looks like.
use shardmatrix.Prelude.{◌+◌, ◌-◌, ◌*◌, ◌≤◌, ◌<◌, ◌≡◌, ok, List, [], ◌∷◌, arith, All}
use shardmatrix.Prelude.Words.{word, half_word, sub64}
use shardmatrix.Types.{Block}
use shardmatrix.TimeControl.{
  TimeController, block_time_of, validate_block_time, validate_block, validate_after,
  validate_sequence,
}
use shardmatrix.TimeControl.Schedule.{IsRegular, block_time_of-eq}

module _ {C : Type 0} (tc : TimeController C) where
  -- A block whose number is on the schedule and whose time is in range.
  abbrev pub OnSchedule : Block → Type 0
  OnSchedule b =
      (tc.block_offset ≤ b.header.number)
      × (b.header.number < word)
      × (tc.genesis_time + 2 * (b.header.number - tc.block_offset) < half_word)

  -- Each block's number is one more than that of the block before it.
  abbrev pub Consecutive : Block → List Block → Type 0
  Consecutive a [] = Unit
  Consecutive a (b ∷ bs) = (b.header.number ≡ a.header.number + 1) × Consecutive b bs

  abbrev pub Timed : List Block → Type 0
  Timed = All (λ b. b.header.timestamp ≡ block_time_of tc b.header.number)

  validate_block-eq :
      (b : Block)
      → validate_block tc b ≡ ok tt
      → b.header.timestamp ≡ block_time_of tc b.header.number
  unfolding validate_block validate_block_time
  validate_block-eq b h = ground arith

  validate_after-eq-ok :
      (a b : Block) (bs : List Block)
      → validate_after tc a (b ∷ bs) ≡ ok tt
      → (validate_block tc b ≡ ok tt)
        × (sub64 b.header.timestamp a.header.timestamp ≡ 2)
        × (validate_after tc b bs ≡ ok tt)
  unfolding validate_after validate_block
  validate_after-eq-ok a b bs h = ground arith

  validate_sequence-eq-ok :
      (a : Block) (bs : List Block)
      → validate_sequence tc (a ∷ bs) ≡ ok tt
      → (validate_block tc a ≡ ok tt) × (validate_after tc a bs ≡ ok tt)
  unfolding validate_sequence validate_block
  validate_sequence-eq-ok a bs h = ground arith

  next_number :
      (a b : Block)
      → IsRegular tc
      → OnSchedule a
      → OnSchedule b
      → a.header.timestamp ≡ block_time_of tc a.header.number
      → b.header.timestamp ≡ block_time_of tc b.header.number
      → sub64 b.header.timestamp a.header.timestamp ≡ 2
      → b.header.number ≡ a.header.number + 1
  next_number a b r sa sb ta tb gap = omega (
    arith,
    block_time_of-eq tc a.header.number r sa.0 sa.1 sa.2,
    block_time_of-eq tc b.header.number r sb.0 sb.1 sb.2,
  )

  validate_after-Consecutive :
      (a : Block) (bs : List Block)
      → IsRegular tc
      → OnSchedule a
      → a.header.timestamp ≡ block_time_of tc a.header.number
      → All OnSchedule bs
      → validate_after tc a bs ≡ ok tt
      → Consecutive a bs × Timed bs
  validate_after-Consecutive a [] r sa ta s h = (tt, tt)
  validate_after-Consecutive a (b ∷ bs) r sa ta s h =
      let (valid, gap, rest) = validate_after-eq-ok a b bs h in
      let tb = validate_block-eq b valid in
      let (numbers, times) = validate_after-Consecutive b bs r s.0 tb s.1 rest in
      ((next_number a b r sa s.0 ta tb gap, numbers), (tb, times))

  -- A sequence of blocks that StrictTimeValidator accepts has consecutive numbers, each with exactly
  -- its scheduled time, if the controller is regular and the numbers are on the schedule.
  pub validate_sequence-Consecutive :
      (a : Block) (bs : List Block)
      → IsRegular tc
      → All OnSchedule (a ∷ bs)
      → validate_sequence tc (a ∷ bs) ≡ ok tt
      → Consecutive a bs × Timed (a ∷ bs)
  validate_sequence-Consecutive a bs r s h =
      let (valid, rest) = validate_sequence-eq-ok a bs h in
      let ta = validate_block-eq a valid in
      let (numbers, times) = validate_after-Consecutive a bs r s.0 ta s.1 rest in
      (numbers, (ta, times))
