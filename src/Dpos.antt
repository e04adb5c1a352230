-- ===== src/Dpos.antt =====
-- pkg/consensus/dpos.go: the validators of the shard, and who may produce a block. A pointer that
-- `GetValidator` returns into the slice is the slot that it points to, so that after a sort it points
-- to whatever validator stands there. `sort.Slice`, which is not stable, is any sort that returns a
-- permutation in the wanted order (`Sorter`).
-- A method returns its result and the state that it leaves. The reports are left out.
pub mod Sorting
pub mod Health
pub mod Sets
pub mod Calls
pub mod Lookup
pub mod Members
pub mod Storing
pub mod Producing
pub mod Watch
mod Tests
use shardmatrix.Prelude.{
  ℕ, zero, suc, ◌+◌, ◌-◌, ◌*◌, ◌/◌, ◌<◌, Bool, true, false, not, ◌&&◌, Option, none, some, List, [],
  ◌∷◌, ◌++◌, Result, ok, err, ltb, leb, ◌==◌, if◌then◌else◌, require, ◌>>=◌, ◌>>◌, length,
  get_elem?, set, take, drop, map_err,
}
use shardmatrix.Prelude.Words.{add64, sub64}
use shardmatrix.Prelude.Assoc.{Assoc}
use shardmatrix.Primitives.{Primitives}
use shardmatrix.Storage.{Storage}
use shardmatrix.Types.{
  Address, Block, Validator, ValidatorSet, slot_of, get_validator, active_of, validator_at,
  get_total_vote_power, validator_count, min_stake_amount,
}
use shardmatrix.Crypto.{KeyPair, verify_block}
use shardmatrix.TimeControl
use shardmatrix.TimeControl.{TimeController}
use shardmatrix.Dpos.Sorting.{Sorter}
use shardmatrix.Dpos.Health.{NodeHealthInfo}

pub data DposError : Type 0 where
  already_active no_validators not_loaded not_saved : DposError
  exists_already unknown_validator low_stake low_delegation : DposError
  not_a_validator not_active not_current bad_signature bad_time : DposError

pub record Dpos (S F : Type 0) : Type 0 where
  pub storage : S
  pub validators : List Validator
  pub round : ℕ
  pub is_active : Bool
  pub key_pair : KeyPair
  pub node_health : Assoc (NodeHealthInfo F)
  pub safety_mode : Bool
  pub last_health_check : ℕ

-- v.VotePower = v.StakeAmount + v.DelegatedAmt
abbrev pub with_power : Validator → Validator
with_power v = record v { vote_power = add64 v.stake_amount v.delegated_amt }

abbrev pub delegated : ℕ → Validator → Validator
delegated amount v = with_power (record v { delegated_amt = add64 v.delegated_amt amount })

abbrev pub undelegated : ℕ → Validator → Validator
undelegated amount v = with_power (record v { delegated_amt = sub64 v.delegated_amt amount })

-- The body of SlashValidator: a tenth of the stake twice, the seat the third time.
abbrev pub slashed : Validator → Validator
slashed v =
    let counted : Validator = record v { slash_count = add64 v.slash_count 1 } in
    let fine = v.stake_amount / 10 in
    if leb 3 counted.slash_count
    then record counted { is_active = false }
    else if ltb fine v.stake_amount
    then with_power (record counted { stake_amount = sub64 v.stake_amount fine })
    else counted

abbrev pub admitted : Validator → Validator
admitted v = record (with_power v) { is_active = true }

abbrev pub deactivated : Validator → Validator
deactivated v = record v { is_active = false }

-- A write through the pointer of slot i.
unfoldable pub change_slot : (Validator → Validator) → ℕ → List Validator → List Validator
change_slot f i [] = []
change_slot f zero (v ∷ vs) = f v ∷ vs
change_slot f (suc i) (v ∷ vs) = v ∷ change_slot f i vs

abbrev pub default_validator : KeyPair → Validator
default_validator k = record {
  address = k.address;
  public_key = k.public_key;
  stake_amount = 1000000;
  delegated_amt = 0;
  vote_power = 1000000;
  is_active = true;
  slash_count = 0;
}

abbrev pub Outcome : Type 0 → Type 0 → Type 0
Outcome S F = Result DposError (Unit {0}) × Dpos S F

module _ {S F : Type 0} where
  -- GetCurrentValidator
  unfoldable pub current_validator : Dpos S F → ℕ → Result DposError Validator
  current_validator d height = elim (validator_at (active_of d.validators) height) [
    | none ↦ err no_validators
    | some v ↦ ok v
  ]

  -- IsValidator
  unfoldable pub is_validator : Dpos S F → Address → Bool
  is_validator d a = elim (get_validator a d.validators) [ none ↦ false | some v ↦ v.is_active ]

  -- IsCurrentValidator
  unfoldable pub is_current_validator : Dpos S F → Address → ℕ → Bool
  unfolding current_validator
  is_current_validator d a height = elim (current_validator d height) [
    | err _ ↦ false
    | ok v ↦ v.address == a
  ]

  -- ValidateBlock; the time controller may be absent.
  unfoldable pub validate_block :
      {C : Type 0}
      → Primitives
      → Option (TimeController C)
      → Dpos S F
      → Block
      → Result DposError (Unit {0})
  unfolding is_current_validator
  validate_block p clock d b = elim (get_validator b.header.validator d.validators) [
    | none ↦ err not_a_validator
    | some v ↦ do
      require v.is_active not_active
      require (is_current_validator d b.header.validator b.header.number) not_current
      require (verify_block p b.header v.public_key) bad_signature
      elim clock [
        | none ↦ ok tt
        | some tc ↦ map_err (λ _. bad_time) (TimeControl.validate_block tc b)
      ]
  ]

  -- Stop
  unfoldable pub stop : Dpos S F → Dpos S F
  stop d = record d { is_active = false; node_health = []; safety_mode = false }

  -- UpdateRound
  unfoldable pub update_round : ℕ → Dpos S F → Dpos S F
  update_round round d = record d { round = round }

  -- GetValidatorByIndex, for an index that is not negative; GetActiveValidatorCount
  unfoldable pub get_validator_by_index : ℕ → Dpos S F → Option Validator
  get_validator_by_index i d = get_elem? (active_of d.validators) i

  unfoldable pub get_active_validator_count : Dpos S F → ℕ
  get_active_validator_count d = length (active_of d.validators)

module _ {S : Type 0} (st : Storage S) where
  -- AddValidator's loop over the validators that are cut off; its errors are dropped.
  unfoldable pub save_removed : List Validator → S → S
  save_removed [] s = s
  save_removed (v ∷ vs) s = save_removed vs (st.save_validator (deactivated v) s).1

module _ {S F : Type 0} (st : Storage S) (sorter : Sorter) where
  -- storage.SaveValidator of the validator in a slot, and the error of the method if it fails.
  unfoldable pub save_slot : ℕ → Dpos S F → Outcome S F
  save_slot i d = elim (get_elem? d.validators i) [
    | none ↦ (ok tt, d)
    | some v ↦
        let (saved, s) = st.save_validator v d.storage in
        (if saved then ok tt else err not_saved, record d { storage = s })
  ]

  -- Change slot i, sort, and save what then stands in slot i.
  unfoldable pub change_and_save : (Validator → Validator) → ℕ → Dpos S F → Outcome S F
  unfolding save_slot
  change_and_save f i d =
      save_slot i (record d { validators = sorter.sort (change_slot f i d.validators) })

  -- Delegate
  unfoldable pub delegate : Address → ℕ → Dpos S F → Outcome S F
  unfolding change_and_save
  delegate a amount d = elim (slot_of a d.validators) [
    | none ↦ (err unknown_validator, d)
    | some i ↦ change_and_save (delegated amount) i d
  ]

  -- Undelegate
  unfoldable pub undelegate : Address → ℕ → Dpos S F → Outcome S F
  unfolding change_and_save
  undelegate a amount d = elim (slot_of a d.validators) [
    | none ↦ (err unknown_validator, d)
    | some i ↦ elim (get_elem? d.validators i) [
      | none ↦ (err unknown_validator, d)
      | some v ↦
          if ltb v.delegated_amt amount
          then (err low_delegation, d)
          else change_and_save (undelegated amount) i d
    ]
  ]

  -- SlashValidator
  unfoldable pub slash_validator : Address → Dpos S F → Outcome S F
  unfolding change_and_save
  slash_validator a d = elim (slot_of a d.validators) [
    | none ↦ (err unknown_validator, d)
    | some i ↦ change_and_save slashed i d
  ]

  -- RemoveValidator: the validator stays in the list, not active.
  unfoldable pub remove_validator : Address → Dpos S F → Outcome S F
  unfolding save_slot
  remove_validator a d = elim (slot_of a d.validators) [
    | none ↦ (err unknown_validator, d)
    | some i ↦ save_slot i (record d { validators = change_slot deactivated i d.validators })
  ]

  -- AddValidator: the new validator is saved last, whether it was cut off or not.
  unfoldable pub add_validator : Validator → Dpos S F → Outcome S F
  unfolding save_removed
  add_validator v d = elim (slot_of v.address d.validators) [
    | some _ ↦ (err exists_already, d)
    | none ↦
        if ltb v.stake_amount min_stake_amount
        then (err low_stake, d)
        else let all = sorter.sort (d.validators ++ admitted v ∷ []) in
          let s1 = save_removed st (drop validator_count all) d.storage in
          let (saved, s2) = st.save_validator (admitted v) s1 in
          (
            if saved then ok tt else err not_saved,
            record d { storage = s2; validators = take validator_count all },
          )
  ]

  -- loadValidatorSet, also ForceValidatorSync
  unfoldable pub load_validator_set : Dpos S F → Outcome S F
  load_validator_set d = elim (st.get_all_validators d.storage) [
    | none ↦ (err not_loaded, d)
    | some [] ↦
        let v = default_validator d.key_pair in
        let (saved, s) = st.save_validator v d.storage in
        if saved
        then (ok tt, record d { storage = s; validators = sorter.sort (v ∷ []); round = 0 })
        else (err not_saved, record d { storage = s })
    | some (v ∷ vs) ↦ (ok tt, record d { validators = sorter.sort (v ∷ vs); round = 0 })
  ]

  -- Start
  unfoldable pub start : Dpos S F → Outcome S F
  unfolding load_validator_set
  start d =
      if d.is_active
      then (err already_active, d)
      else let (r, d') = load_validator_set d in
        elim r [ err e ↦ (err e, d') | ok _ ↦ (ok tt, record d' { is_active = true }) ]
