-- ===== src/Dpos/Tests.antt =====
-- Runs of dpos.go over the storage in memory, and the theorems at concrete inputs.
use shardmatrix.Prelude.{
  Sifts, ends, keeps, skips, ℕ, ◌*◌, ◌<◌, ◌≤◌, ◌≡◌, ◌≢◌, ◌↔◌, refl, true, false, none, some, Option,
  List, [], ◌∷◌, ok, err, arith, ◌==◌, ==-refl, if◌then◌else◌,
}
use shardmatrix.Primitives.{toy}
use shardmatrix.Storage.{Storage}
use shardmatrix.Storage.KeyValue.{Key, Value, memory}
use shardmatrix.Storage.LevelDb.{
  LevelDb, level_db, new_storage, save_validator, get_validator as stored_validator,
}
use shardmatrix.Types.{Address, BlockHeader, Validator, get_validator, slot_of, active_of}
use shardmatrix.Crypto.{verify_block}
use shardmatrix.TimeControl.{TimeController}
use shardmatrix.Dpos.{
  Dpos, delegate, undelegate, slash_validator, add_validator, start, current_validator,
  is_current_validator, validate_block, get_active_validator_count, delegated, undelegated, slashed,
  unknown_validator, low_delegation, low_stake, exists_already, already_active, save_removed,
}
use shardmatrix.Dpos.Sorting.{by_insertion}
use shardmatrix.Dpos.Sets.{Distinct, IsSound}
use shardmatrix.Dpos.Calls.{to_delegate, to_slash, to_remove, perform_all, perform_all-IsSound}
use shardmatrix.Dpos.Members.{calls_change_one, undelegate-delegate}
use shardmatrix.Dpos.Producing.{ClockAccepts, one_producer, validate_block-ok_iff}
use shardmatrix.Prelude.Assoc.{lookup}
use shardmatrix.Dpos.{is_validator}
use shardmatrix.Dpos.Health.{NodeHealthInfo, fractions}
use shardmatrix.Dpos.Watch.{check_node_activity, auto_adjust_validators}
use shardmatrix.Dpos.Watch.Safety.{IsLive, check_node_activity-safety_mode}
use shardmatrix.Dpos.Watch.Seats.{slashed_returns}

abbrev Disk : Type 0
Disk = LevelDb (List (Key × Value))

abbrev disk : Storage Disk
disk = level_db memory toy

abbrev candidate : Address → ℕ → Validator
candidate a stake = record {
  address = a;
  public_key = a ∷ [];
  stake_amount = stake;
  delegated_amt = 0;
  vote_power = stake;
  is_active = true;
  slash_count = 0;
}

abbrev first : Validator
first = candidate 11 50000

abbrev second : Validator
second = candidate 22 40000

abbrev engine : Dpos Disk ℕ
engine = record {
  storage = new_storage [];
  validators = first ∷ second ∷ [];
  round = 0;
  is_active = true;
  key_pair = record { private_key = []; public_key = []; address = 11 };
  node_health = [];
  safety_mode = false;
  last_health_check = 0;
}

apart : second.address ≢ first.address
apart e = omega arith

engine-Distinct : Distinct engine.validators
engine-Distinct = ((apart, tt), (tt, tt))

engine-IsSound : IsSound engine.validators
engine-IsSound = record {
  power = (refl, (refl, tt));
  order = ((omega arith, tt), (tt, tt));
  distinct = engine-Distinct;
}

refusals :
    ((delegate disk by_insertion 33 5 engine).0 ≡ err unknown_validator)
    × ((undelegate disk by_insertion 11 5 engine).0 ≡ err low_delegation)
    × ((add_validator disk by_insertion (candidate 33 9999) engine).0 ≡ err low_stake)
    × ((add_validator disk by_insertion (candidate 22 99999) engine).0 ≡ err exists_already)
    × ((start disk by_insertion engine).0 ≡ err already_active)
unfolding delegate undelegate add_validator start slot_of
refusals = (refl, refl, refl, refl, refl)

perform_all-IsSound_example :
    IsSound
      (perform_all disk by_insertion
        (to_delegate 22 20000 ∷ to_slash 11 ∷ to_remove 22 ∷ [])
        engine).validators
perform_all-IsSound_example =
    perform_all-IsSound disk by_insertion (to_delegate 22 20000 ∷ to_slash 11 ∷ to_remove 22 ∷ [])
      engine engine-IsSound

second_found : get_validator 22 engine.validators ≡ some second
unfolding get_validator
second_found = refl

calls_change_one_example :
    (get_validator 22 (delegate disk by_insertion 22 500 engine).1.validators
      ≡ (if 22 == 22 then some (delegated 500 second) else get_validator 22 engine.validators))
    × (get_validator 22 (slash_validator disk by_insertion 22 engine).1.validators
        ≡ (if 22 == 22 then some (slashed second) else get_validator 22 engine.validators))
    × (500 ≤ second.delegated_amt
        → get_validator 22 (undelegate disk by_insertion 22 500 engine).1.validators ≡ (
            if 22 == 22 then some (undelegated 500 second) else get_validator 22 engine.validators))
calls_change_one_example =
    calls_change_one disk by_insertion 22 22 500 second engine engine-Distinct second_found

undelegate-delegate_example :
    get_validator 11
      (undelegate disk by_insertion 22 500
        (delegate disk by_insertion 22 500 engine).1).1.validators
    ≡ get_validator 11 engine.validators
undelegate-delegate_example =
    undelegate-delegate disk by_insertion 22 11 500 second engine engine-Distinct second_found refl
      (omega arith)

added : (add_validator disk by_insertion (candidate 33 60000) engine).0 ≡ ok tt
unfolding add_validator slot_of level_db save_validator memory by_insertion save_removed
added = refl

reads :
    (w : Validator) (s : Disk)
    → (disk.save_validator w s).0 ≡ true
    → disk.get_validator w.address (disk.save_validator w s).1 ≡ some w
unfolding level_db save_validator stored_validator memory
reads w s h = rw (stored_validator, ==-refl w.address) refl

one_producer_example :
    (v : Validator) × (current_validator engine 7 ≡ ok v)
    × (v.is_active ≡ true)
    × (get_validator v.address engine.validators ≡ some v)
    × ((a : Address) → (is_current_validator engine a 7 ≡ true) ↔ (a ≡ v.address))
unfolding get_active_validator_count active_of
one_producer_example = one_producer engine 7 engine-Distinct (omega arith)

abbrev header : BlockHeader
header = record {
  number = 2;
  timestamp = 1000;
  prev_hash = 5;
  tx_root = 6;
  state_root = 7;
  validator = 11;
  signature = 77;
  shard_id = 1;
  adjacent_hashes = (0, 0, 0);
}

abbrev no_clock : Option (TimeController ℕ)
no_clock = none

validate_block-ok_iff_example :
    (validate_block toy no_clock engine (record { header = header; transactions = [] }) ≡ ok tt) ↔ (
      (v : Validator) × (get_validator 11 engine.validators ≡ some v)
      × (v.is_active ≡ true)
      × (is_current_validator engine 11 2 ≡ true)
      × (verify_block toy header v.public_key ≡ true)
      × ClockAccepts no_clock (record { header = header; transactions = [] }))
validate_block-ok_iff_example =
    validate_block-ok_iff toy no_clock engine (record { header = header; transactions = [] })

abbrev heard : NodeHealthInfo (ℕ × ℕ)
heard = record {
  last_heartbeat = 1000;
  last_block_time = 0;
  blocks_produced = 3;
  missed_blocks = 1;
  network_latency = 200;
  is_responsive = true;
  active_score = (9, 10);
}

abbrev culprit : Validator
culprit = record second { slash_count = 2 }

abbrev watched : Dpos Disk (ℕ × ℕ)
watched = record {
  storage = new_storage [];
  validators = first ∷ culprit ∷ [];
  round = 0;
  is_active = true;
  key_pair = record { private_key = []; public_key = []; address = 11 };
  node_health = (22, heard) ∷ [];
  safety_mode = false;
  last_health_check = 0;
}

-- Of the two, only the second has a health record.
second_sifted : Sifts (IsLive watched.node_health) (first ∷ culprit ∷ []) (culprit ∷ [])
unfolding lookup
second_sifted =
    skips (λ h. let known = h.known in ground arith)
      (keeps (record { health = heard; active = refl; known = refl; responds = refl }) ends)

check_node_activity-safety_mode_example :
    ((check_node_activity fractions 1010 watched).safety_mode ≡ true) ↔ (5 * 1 < 3 * 2)
check_node_activity-safety_mode_example =
    check_node_activity-safety_mode fractions 1010 watched (culprit ∷ []) (omega arith)
      second_sifted

culprit_found : get_validator 22 watched.validators ≡ some culprit
unfolding get_validator
culprit_found = refl

known : lookup 22 watched.node_health ≡ some heard
unfolding lookup
known = refl

slashed_returns_example :
    let d' = (slash_validator disk by_insertion 22 watched).1 in
    (is_validator d' 22 ≡ false)
    × (is_validator (auto_adjust_validators disk by_insertion 1010 d') 22 ≡ true)
slashed_returns_example =
    slashed_returns disk by_insertion 22 culprit 1010 heard watched ((apart, tt), (tt, tt))
      culprit_found (omega arith) (omega arith) (omega arith) known refl refl
