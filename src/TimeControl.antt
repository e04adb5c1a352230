-- ===== src/TimeControl.antt =====
-- pkg/consensus/time_controller.go: which block is due when. Times are int64 seconds and block
-- numbers uint64, both as 64-bit words; the clock is an argument, `now`. Callbacks are values of a
-- type C under names, which are only compared, so that a name is a number. The loop's goroutine is a
-- function over the seconds at which its ticker fires.
-- `AdjustTime` takes whole seconds here. Waiting, the reports and `SyncWithNetwork`, which does
-- nothing, are left out.
pub mod Schedule
pub mod Loop
pub mod Offset
pub mod Sequence
mod Tests
use shardmatrix.Prelude.{
  ℕ, zero, suc, ◌+◌, ◌*◌, ◌^◌, Bool, true, false, not, ◌&&◌, Option, none, some, List, [], ◌∷◌,
  ◌++◌, Result, ok, err, ltb, leb, ◌==◌, if◌then◌else◌, require, ◌>>=◌, ◌>>◌,
}
use shardmatrix.Prelude.Words.{add64, sub64, mul64, lt_i64, le_i64, is_neg, neg64, div_i64, rem_i64}
use shardmatrix.Prelude.Assoc.{Assoc, insert, erase}
use shardmatrix.Types.{Block, block_seconds}

pub data TimeError : Type 0 where
  is_started genesis_not_set : TimeError
  bad_timestamp bad_interval : TimeError

pub record TimeController (C : Type 0) : Type 0 where
  pub genesis_time : ℕ
  pub block_time : ℕ
  pub block_offset : ℕ
  pub started : Bool
  pub callbacks : Assoc C

-- What a round of the loop leaves as the last announced block, and adds to the calls.
abbrev pub last_after : ℕ → Option (ℕ × ℕ) → ℕ
last_after last none = last
last_after last (some (_, number)) = number

abbrev pub announce : Option (ℕ × ℕ) → List (ℕ × ℕ) → List (ℕ × ℕ)
announce none rest = rest
announce (some call) rest = call ∷ rest

module _ {C : Type 0} where
  -- NewTimeController
  unfoldable pub new_time_controller : ℕ → TimeController C
  new_time_controller genesis_time = record {
    genesis_time = genesis_time;
    block_time = block_seconds;
    block_offset = 0;
    started = false;
    callbacks = [];
  }

  -- SetGenesisTime: an odd second is moved down to the even one below.
  unfoldable pub set_genesis_time :
      ℕ → TimeController C → Result TimeError (Unit {0}) × TimeController C
  set_genesis_time timestamp tc =
      let even = if rem_i64 timestamp 2 == 0 then timestamp else sub64 timestamp 1 in
      if tc.started then (err is_started, tc) else (ok tt, record tc { genesis_time = even })

  -- SetBlockOffset
  unfoldable pub set_block_offset :
      ℕ → TimeController C → Result TimeError (Unit {0}) × TimeController C
  set_block_offset offset tc =
      if tc.started then (err is_started, tc) else (ok tt, record tc { block_offset = offset })

  -- AdjustTime
  unfoldable pub adjust_time : ℕ → TimeController C → Result TimeError (Unit {0}) × TimeController C
  adjust_time seconds tc =
      if tc.started
      then (err is_started, tc)
      else (ok tt, record tc { genesis_time = add64 tc.genesis_time seconds })

  -- Start and Stop
  unfoldable pub start : TimeController C → Result TimeError (Unit {0}) × TimeController C
  start tc =
      if tc.started
      then (err is_started, tc)
      else if tc.genesis_time == 0
      then (err genesis_not_set, tc)
      else (ok tt, record tc { started = true })

  unfoldable pub stop : TimeController C → TimeController C
  stop tc = record tc { started = false }

  -- RegisterCallback and UnregisterCallback
  unfoldable pub register_callback : ℕ → C → TimeController C → TimeController C
  register_callback name callback tc = record tc { callbacks = insert name callback tc.callbacks }

  unfoldable pub unregister_callback : ℕ → TimeController C → TimeController C
  unregister_callback name tc = record tc { callbacks = erase name tc.callbacks }

  -- calculateCurrentBlockNumber
  unfoldable pub current_block_number : TimeController C → ℕ → ℕ
  current_block_number tc now =
      if lt_i64 now tc.genesis_time
      then tc.block_offset
      else add64 tc.block_offset (div_i64 (sub64 now tc.genesis_time) tc.block_time)

  -- calculateBlockTime, and GetBlockTime
  unfoldable pub block_time_of : TimeController C → ℕ → ℕ
  block_time_of tc number =
      if ltb number tc.block_offset
      then tc.genesis_time
      else add64 tc.genesis_time (mul64 (sub64 number tc.block_offset) tc.block_time)

  -- ValidateBlockTime
  unfoldable pub validate_block_time : TimeController C → ℕ → ℕ → Bool
  validate_block_time tc number timestamp = timestamp == block_time_of tc number

  -- GetNextBlockTime
  unfoldable pub next_block_time : TimeController C → ℕ → ℕ
  next_block_time tc number = block_time_of tc (add64 number 1)

  -- TimeToNextBlock, in nanoseconds
  unfoldable pub time_to_next_block : TimeController C → ℕ → ℕ → ℕ
  unfolding next_block_time
  time_to_next_block tc number now =
      let next = next_block_time tc number in
      if le_i64 next now then 0 else mul64 (sub64 next now) (10 ^ 9)

  -- IsBlockTime
  unfoldable pub is_block_time : TimeController C → ℕ → ℕ → Bool
  is_block_time tc number now =
      let expected = block_time_of tc number in le_i64 expected now && lt_i64 now (add64 expected 1)

  -- IsValidBlockTimestamp; the tolerance is in nanoseconds.
  unfoldable pub is_valid_block_timestamp : TimeController C → ℕ → ℕ → ℕ → Bool
  is_valid_block_timestamp tc number timestamp tolerance =
      let diff = sub64 timestamp (block_time_of tc number) in
      let distance = if is_neg diff then neg64 diff else diff in
      le_i64 (mul64 distance (10 ^ 9)) tolerance

  -- One round of timeControlLoop at the second `now`: the block that is announced, if any.
  unfoldable pub due : TimeController C → ℕ → ℕ → Option (ℕ × ℕ)
  due tc last now =
      let current = current_block_number tc now in
      let time = block_time_of tc current in
      if ltb last current && le_i64 time now then some (time, current) else none

  -- The loop from the last announced block on: the calls (time, number) that every callback gets.
  unfoldable pub announcements_from : TimeController C → ℕ → List ℕ → List (ℕ × ℕ)
  announcements_from tc last [] = []
  announcements_from tc last (now ∷ ticks) =
      let call = due tc last now in
      announce call (announcements_from tc (last_after last call) ticks)

  -- timeControlLoop begins after the block offset.
  unfoldable pub time_control_loop : TimeController C → List ℕ → List (ℕ × ℕ)
  unfolding announcements_from
  time_control_loop tc ticks = announcements_from tc tc.block_offset ticks

  -- StrictTimeValidator.ValidateBlock
  unfoldable pub validate_block : TimeController C → Block → Result TimeError (Unit {0})
  validate_block tc b =
      require (validate_block_time tc b.header.number b.header.timestamp) bad_timestamp

  -- The loop of ValidateSequence behind its first block.
  validate_after : TimeController C → Block → List Block → Result TimeError (Unit {0})
  unfolding validate_block
  validate_after tc previous [] = ok tt
  validate_after tc previous (b ∷ bs) =
      let rest = validate_after tc b bs in
      do
        validate_block tc b
        require (sub64 b.header.timestamp previous.header.timestamp == block_seconds) bad_interval
        rest

  -- StrictTimeValidator.ValidateSequence
  unfoldable pub validate_sequence : TimeController C → List Block → Result TimeError (Unit {0})
  unfolding validate_after
  validate_sequence tc [] = ok tt
  validate_sequence tc (b ∷ bs) = validate_block tc b >> validate_after tc b bs
