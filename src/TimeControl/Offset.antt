-- ===== src/TimeControl/Offset.antt =====
-- What a block offset does to the calls of the loop, against the schedule from the genesis time.
use shardmatrix.Prelude.{
  ℕ, ◌+◌, ◌*◌, ◌<◌, ◌≤◌, ◌≡◌, true, refl, some, List, [], ◌∷◌, arith, All, Option-cases, Bool-cases,
  inl, inr,
}
use shardmatrix.Prelude.Words.{half_word, lt_i64}
use shardmatrix.TimeControl.{
  TimeController, current_block_number, due, announcements_from, time_control_loop,
}
use shardmatrix.TimeControl.Schedule.{IsRegular, current_block_number-eq, block_time_of-eq}
use shardmatrix.TimeControl.Loop.{due-later}

-- A call (time, number) for a block after the offset, two seconds early for each block of the offset
-- against the schedule that gives block n the time genesis + 2 * n.
abbrev pub IsEarly : ℕ → ℕ → ℕ × ℕ → Type 0
IsEarly offset genesis (time, number) =
    (offset < number) × (time + 2 * offset ≡ genesis + 2 * number)

module _ {C : Type 0} (tc : TimeController C) where
  due-current :
      (last now time number : ℕ)
      → due tc last now ≡ some (time, number)
      → number ≡ current_block_number tc now
  unfolding due
  due-current last now time number h = ground arith

  current_before :
      (now : ℕ) → lt_i64 now tc.genesis_time ≡ true → current_block_number tc now ≡ tc.block_offset
  unfolding current_block_number
  current_before now early = rw early refl

  due-IsEarly :
      (last now time number : ℕ)
      → IsRegular tc
      → tc.block_offset ≤ last
      → now + 2 * tc.block_offset < half_word
      → due tc last now ≡ some (time, number)
      → IsEarly tc.block_offset tc.genesis_time (time, number)
  due-IsEarly last now time number r from fits call =
      let (later, at, reached) = due-later tc last now time number call in
      let current = due-current last now time number call in
      let genesis = r.genesis in
      elim (Bool-cases (lt_i64 now tc.genesis_time)) [
        | inl early ↦ let none_yet = current_before now early in absurd (omega arith)
        | inr begun ↦
            let since : tc.genesis_time ≤ now = ground arith in
            let eq = current_block_number-eq tc now r since (omega arith) (omega arith) in
            let time_eq = block_time_of-eq tc number r (omega arith) (omega arith) (omega arith) in
            (omega arith, omega arith)
      ]

  announcements_from-IsEarly :
      (last : ℕ) (ticks : List ℕ)
      → IsRegular tc
      → tc.block_offset ≤ last
      → All (λ now. now + 2 * tc.block_offset < half_word) ticks
      → All (IsEarly tc.block_offset tc.genesis_time) (announcements_from tc last ticks)
  unfolding announcements_from
  announcements_from-IsEarly last [] r from fits = tt
  announcements_from-IsEarly last (now ∷ ticks) r from (here, fits) =
      elim (Option-cases (due tc last now)) [
        | inl quiet ↦ rw quiet (announcements_from-IsEarly last ticks r from fits)
        | inr ((time, number), call) ↦
            let early = due-IsEarly last now time number r from here call in
            rw call (early, announcements_from-IsEarly number ticks r (omega (arith, early.0)) fits)
      ]

  -- Every call of the loop is early, at ticks that stay in range.
  pub time_control_loop-IsEarly :
      (ticks : List ℕ)
      → IsRegular tc
      → All (λ now. now + 2 * tc.block_offset < half_word) ticks
      → All (IsEarly tc.block_offset tc.genesis_time) (time_control_loop tc ticks)
  unfolding time_control_loop
  time_control_loop-IsEarly ticks r fits =
      announcements_from-IsEarly tc.block_offset ticks r (omega arith) fits
