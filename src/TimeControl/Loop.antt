-- ===== src/TimeControl/Loop.antt =====
-- The ticker loop: which blocks are announced, in which order, at which times.
use shardmatrix.Prelude.{
  ℕ, zero, suc, ◌+◌, ◌-◌, ◌/◌, ◌≤◌, ◌<◌, ◌≡◌, true, some, none, List, [], ◌∷◌, arith, ◌==◌,
  if◌then◌else◌, Option-cases, Bool-cases, inl, inr,
}
use shardmatrix.Prelude.Words.{word, half_word, le_i64}
use shardmatrix.TimeControl.{
  TimeController, block_time_of, due, announcements_from, time_control_loop,
}
use shardmatrix.TimeControl.Schedule.{
  IsRegular, current_block_number-eq, block_time_of-current_block_number,
}

module _ {C : Type 0} (tc : TimeController C) where
  -- Calls that go on from a block: each is for a later block than the one before, with its time.
  abbrev pub Ascends : ℕ → List (ℕ × ℕ) → Type 0
  Ascends last [] = Unit
  Ascends last ((time, number) ∷ rest) =
      (last < number) × (time ≡ block_time_of tc number) × Ascends number rest

  pub due-later :
      (last now time number : ℕ)
      → due tc last now ≡ some (time, number)
      → (last < number) × (time ≡ block_time_of tc number) × (le_i64 time now ≡ true)
  unfolding due
  due-later last now time number h = ground arith

  announcements_from-Ascends :
      (last : ℕ) (ticks : List ℕ) → Ascends last (announcements_from tc last ticks)
  unfolding announcements_from
  announcements_from-Ascends last [] = tt
  announcements_from-Ascends last (now ∷ ticks) = elim (Option-cases (due tc last now)) [
    | inl quiet ↦ rw quiet (announcements_from-Ascends last ticks)
    | inr ((time, number), call) ↦
        let (later, at, _) = due-later last now time number call in
        rw call (later, at, announcements_from-Ascends number ticks)
  ]

  -- Whatever the ticks, also with a clock that jumps, the loop announces no block twice and none out
  -- of order: the numbers grow from the block offset on, and each comes with its scheduled time.
  pub time_control_loop-Ascends :
      (ticks : List ℕ) → Ascends tc.block_offset (time_control_loop tc ticks)
  unfolding time_control_loop
  time_control_loop-Ascends ticks = announcements_from-Ascends tc.block_offset ticks

  -- A clock that goes on from `before` without jumps of more than a block time, and stays in range.
  abbrev pub IsSteady : ℕ → List ℕ → Type 0
  IsSteady before [] = Unit
  IsSteady before (now ∷ ticks) =
      (before ≤ now)
      × (now ≤ before + 2)
      × (now < half_word)
      × (tc.block_offset + (now - tc.genesis_time) / 2 < word)
      × IsSteady now ticks

  abbrev pub last_tick : ℕ → List ℕ → ℕ
  last_tick before [] = before
  last_tick before (now ∷ ticks) = last_tick now ticks

  -- The calls for the `count` blocks after `number`.
  abbrev pub scheduled : ℕ → ℕ → List (ℕ × ℕ)
  scheduled number zero = []
  scheduled number (suc count) =
      (block_time_of tc (number + 1), number + 1) ∷ scheduled (number + 1) count

  abbrev number_at : ℕ → ℕ
  number_at now = tc.block_offset + (now - tc.genesis_time) / 2

  last_tick_grows :
      (before : ℕ) (ticks : List ℕ) → IsSteady before ticks → before ≤ last_tick before ticks
  last_tick_grows before [] h = omega arith
  last_tick_grows before (now ∷ ticks) h = omega (arith, last_tick_grows now ticks (h.4))

  -- One tick of a steady clock.
  due_steady :
      (before now : ℕ)
      → IsRegular tc
      → tc.genesis_time ≤ before
      → before ≤ now
      → now ≤ before + 2
      → now < half_word
      → number_at now < word
      → due tc (number_at before) now ≡ (
          if number_at now == number_at before
          then none
          else some (block_time_of tc (number_at now), number_at now))
  unfolding due
  due_steady before now r g h1 h2 h3 h4 =
      let number = current_block_number-eq tc now r (omega arith) h3 h4 in
      let reached = (block_time_of-current_block_number tc now r (omega arith) h3 h4).0 in
      let early : block_time_of tc (number_at now) ≤ now = rw number at reached in
      rw number (ground arith)

  announcements_steady :
      (before : ℕ) (ticks : List ℕ)
      → IsRegular tc
      → tc.genesis_time ≤ before
      → IsSteady before ticks
      → announcements_from tc (number_at before) ticks
        ≡ scheduled (number_at before) (number_at (last_tick before ticks) - number_at before)
  unfolding announcements_from
  announcements_steady before [] r g h =
      let none_left : number_at before - number_at before ≡ 0 = omega arith in rw none_left
  announcements_steady before (now ∷ ticks) r g h =
      let (h1, h2, h3, h4, rest) = h in
      let tick = due_steady before now r g h1 h2 h3 h4 in
      let later = announcements_steady now ticks r (omega arith) rest in
      let grows = last_tick_grows now ticks rest in
      elim (Bool-cases (number_at now == number_at before)) [
        | inl same ↦
            let e : number_at now ≡ number_at before = ground arith in
            rw (tick, same) (rw e at later)
        | inr new ↦
            let e : number_at now ≡ number_at before + 1 = ground arith in
            let count : number_at (last_tick now ticks) - number_at before
                ≡ suc (number_at (last_tick now ticks) - number_at now) =
              omega arith in
            rw (tick, new, count) (cc (e, later))
      ]

  -- A regular controller that has not announced anything before the second `before`, which is past
  -- the genesis time and in the block offset's own slot, and whose clock goes on from there in steps
  -- of at most two seconds, announces every block that falls due, in order, once, with its time.
  pub time_control_loop_steady :
      (before : ℕ) (ticks : List ℕ)
      → IsRegular tc
      → tc.genesis_time ≤ before
      → before < tc.genesis_time + 2
      → IsSteady before ticks
      → time_control_loop tc ticks
        ≡ scheduled tc.block_offset ((last_tick before ticks - tc.genesis_time) / 2)
  unfolding time_control_loop
  time_control_loop_steady before ticks r g first h =
      let slot : number_at before ≡ tc.block_offset = omega arith in
      let count : number_at (last_tick before ticks) - tc.block_offset
          ≡ (last_tick before ticks - tc.genesis_time) / 2 =
        omega arith in
      cc (slot, count, announcements_steady before ticks r g h)
