-- ===== src/Types/Tests.antt =====
-- Runs of the methods of types.go, and the theorems at concrete inputs.
use shardmatrix.Prelude.{ℕ, ◌≡◌, refl, true, false, List, [], ◌∷◌, arith, some}
use shardmatrix.Types.{
  BlockHeader, Transaction, Validator, slot_of, get_total_vote_power, get_current_validator,
  validate_block_time,
}
use shardmatrix.Types.Encoding.{InRange}

abbrev pub payment : Transaction
payment = record {
  shard_id = 1;
  from = 11;
  to = 22;
  amount = 300;
  gas_price = 2;
  gas_limit = 5;
  nonce = 1;
  payload = 9 ∷ [];
  signature = 77;
}

abbrev pub other_payment : Transaction
other_payment = record payment { amount = 44 }

abbrev pub some_header : BlockHeader
some_header = record {
  number = 3;
  timestamp = 1006;
  prev_hash = 5;
  tx_root = 6;
  state_root = 7;
  validator = 11;
  signature = 77;
  shard_id = 1;
  adjacent_hashes = (0, 0, 0);
}

abbrev pub validator_of : ℕ → ℕ → Validator
validator_of address stake = record {
  address = address;
  public_key = address ∷ [];
  stake_amount = stake;
  delegated_amt = 0;
  vote_power = stake;
  is_active = true;
  slash_count = 0;
}

abbrev pub three_validators : List Validator
three_validators =
    validator_of 1 300 ∷ record (validator_of 2 200) { is_active = false } ∷ validator_of 3 100 ∷ []

total_of_three : get_total_vote_power (record { validators = three_validators; round = 0 }) ≡ 400
unfolding get_total_vote_power
total_of_three = refl

third_at_height_5 :
    get_current_validator (record { validators = three_validators; round = 0 }) 5
    ≡ some (validator_of 3 100)
unfolding get_current_validator
third_at_height_5 = refl

slot_of_second : slot_of 2 three_validators ≡ some 1
unfolding slot_of
slot_of_second = refl

time_of_block_3 : validate_block_time 1000 3 1006 ≡ true
unfolding validate_block_time
time_of_block_3 = refl

payment-InRange : InRange payment
payment-InRange = omega arith
