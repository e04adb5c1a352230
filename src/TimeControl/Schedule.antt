-- ===== src/TimeControl/Schedule.antt =====
-- The schedule: block n is due at its time, and a time belongs to one block.
use shardmatrix.Prelude.{ℕ, ◌+◌, ◌-◌, ◌*◌, ◌/◌, ◌≤◌, ◌<◌, ◌≡◌, arith}
use shardmatrix.Prelude.Words.{word, half_word}
use shardmatrix.TimeControl.{TimeController, current_block_number, block_time_of}

-- The controller that the program makes: blocks of two seconds, a genesis that is no negative time.
pub record IsRegular {C : Type 0} (tc : TimeController C) : Type 0 where
  pub two_seconds : tc.block_time ≡ 2
  pub genesis : tc.genesis_time < half_word
  pub offset : tc.block_offset < word

module _ {C : Type 0} (tc : TimeController C) where
  -- The two directions, as plain arithmetic.
  pub current_block_number-eq :
      (now : ℕ)
      → IsRegular tc
      → tc.genesis_time ≤ now
      → now < half_word
      → tc.block_offset + (now - tc.genesis_time) / 2 < word
      → current_block_number tc now ≡ tc.block_offset + (now - tc.genesis_time) / 2
  unfolding current_block_number
  current_block_number-eq now r late bound fits = rw (r.two_seconds) (ground arith)

  pub block_time_of-eq :
      (number : ℕ)
      → IsRegular tc
      → tc.block_offset ≤ number
      → number < word
      → tc.genesis_time + 2 * (number - tc.block_offset) < half_word
      → block_time_of tc number ≡ tc.genesis_time + 2 * (number - tc.block_offset)
  unfolding block_time_of
  block_time_of-eq number r late bound fits = rw (r.two_seconds) (ground arith)

  -- A block number is the current one at its own time: for a regular controller, a number from the
  -- block offset on, and a time that is no negative int64.
  current_block_number-block_time_of :
      (number : ℕ)
      → IsRegular tc
      → tc.block_offset ≤ number
      → number < word
      → tc.genesis_time + 2 * (number - tc.block_offset) < half_word
      → current_block_number tc (block_time_of tc number) ≡ number
  current_block_number-block_time_of number r late bound fits =
      let time = block_time_of-eq number r late bound fits in
      let back =
        current_block_number-eq (tc.genesis_time + 2 * (number - tc.block_offset)) r (omega arith)
          fits (omega arith) in
      rw time (rw back (omega arith))

  -- From the genesis time on, the current block's time is reached, and the next block's is not.
  pub block_time_of-current_block_number :
      (now : ℕ)
      → IsRegular tc
      → tc.genesis_time ≤ now
      → now < half_word
      → tc.block_offset + (now - tc.genesis_time) / 2 < word
      → (block_time_of tc (current_block_number tc now) ≤ now)
        × (now < block_time_of tc (current_block_number tc now) + 2)
  block_time_of-current_block_number now r late bound fits =
      let number = current_block_number-eq now r late bound fits in
      let time =
        block_time_of-eq (tc.block_offset + (now - tc.genesis_time) / 2) r (omega arith) fits
          (omega arith) in
      rw number (rw time (omega arith, omega arith))
