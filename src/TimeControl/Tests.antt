-- ===== src/TimeControl/Tests.antt =====
-- Runs of time_controller.go, and the theorems at concrete inputs.
use shardmatrix.Prelude.{ℕ, ◌-◌, ◌/◌, ◌≡◌, refl, true, false, ok, [], ◌∷◌, arith}
use shardmatrix.Prelude.Words.{neg64}
use shardmatrix.Types.{Block}
use shardmatrix.TimeControl.{
  TimeController, set_genesis_time, current_block_number, block_time_of, time_control_loop,
  validate_sequence, due, validate_block, validate_block_time,
}
use shardmatrix.TimeControl.Schedule.{IsRegular}
use shardmatrix.TimeControl.Loop.{
  Ascends, scheduled, time_control_loop-Ascends, time_control_loop_steady,
}
use shardmatrix.TimeControl.Sequence.{Consecutive, Timed, validate_sequence-Consecutive}

abbrev clock : TimeController ℕ
clock = record {
  genesis_time = 1000;
  block_time = 2;
  block_offset = 10;
  started = false;
  callbacks = [];
}

clock-IsRegular : IsRegular clock
clock-IsRegular = record { two_seconds = refl; genesis = omega arith; offset = omega arith }

abbrev block_at : ℕ → ℕ → Block
block_at number timestamp = record {
  header = record {
    number = number;
    timestamp = timestamp;
    prev_hash = 5;
    tx_root = 6;
    state_root = 7;
    validator = 11;
    signature = 77;
    shard_id = 1;
    adjacent_hashes = (0, 0, 0);
  };
  transactions = [];
}

-- A clock that stalls and jumps back announces blocks 11 and 14.
stalling_clock :
    time_control_loop clock (1000 ∷ 1002 ∷ 1001 ∷ 1009 ∷ 1003 ∷ []) ≡ (1002, 11) ∷ (1008, 14) ∷ []
unfolding time_control_loop due current_block_number block_time_of
stalling_clock = refl

odd_second_before_1970 : (set_genesis_time (neg64 3) clock).1.genesis_time ≡ neg64 4
unfolding set_genesis_time
odd_second_before_1970 = refl

abbrev running : TimeController ℕ
running = record clock { started = true }

time_control_loop-Ascends_example :
    Ascends clock 10 (time_control_loop clock (1000 ∷ 1002 ∷ 1001 ∷ 1009 ∷ []))
time_control_loop-Ascends_example = time_control_loop-Ascends clock (1000 ∷ 1002 ∷ 1001 ∷ 1009 ∷ [])

time_control_loop_steady_example :
    time_control_loop clock (1001 ∷ 1003 ∷ 1004 ∷ []) ≡ scheduled clock 10 ((1004 - 1000) / 2)
time_control_loop_steady_example =
    time_control_loop_steady clock 1000 (1001 ∷ 1003 ∷ 1004 ∷ []) clock-IsRegular (omega arith)
      (omega arith) (omega arith)

two_blocks : validate_sequence clock (block_at 11 1002 ∷ block_at 12 1004 ∷ []) ≡ ok tt
unfolding validate_sequence validate_block validate_block_time block_time_of
two_blocks = refl

validate_sequence-Consecutive_example :
    Consecutive clock (block_at 11 1002) (block_at 12 1004 ∷ [])
    × Timed clock (block_at 11 1002 ∷ block_at 12 1004 ∷ [])
validate_sequence-Consecutive_example =
    validate_sequence-Consecutive clock (block_at 11 1002) (block_at 12 1004 ∷ []) clock-IsRegular
      (omega arith) two_blocks
