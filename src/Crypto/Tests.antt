-- ===== src/Crypto/Tests.antt =====
-- Runs of crypto.go, and the theorems at concrete inputs.
use shardmatrix.Prelude.{ℕ, arith, ◌↔◌, ◌≡◌, refl, true, ok, err, List, [], ◌∷◌}
use shardmatrix.Prelude.Bytes.{le_bytes}
use shardmatrix.Primitives.{toy}
use shardmatrix.Types.{Transaction, BlockHeader}
use shardmatrix.Crypto.{
  serialize_transaction, encode_hex, KeyPair, new_key_pair, public_key_to_address, sign_transaction,
  verify_transaction, array_to_hex, invalid_private_key,
}
use shardmatrix.Crypto.Signing.{IsSignedAlike, sign_transaction-covers}

abbrev key : List ℕ
unfolding le_bytes
key = le_bytes 64 123456789

abbrev pair : KeyPair
pair = record {
  private_key = key;
  public_key = toy.public_key key;
  address = public_key_to_address toy (toy.public_key key);
}

abbrev pay : ℕ → Transaction
pay amount = record {
  shard_id = 1;
  from = 11;
  to = 22;
  amount = amount;
  gas_price = 2;
  gas_limit = 5;
  nonce = 1;
  payload = [];
  signature = 77;
}

abbrev header : BlockHeader
header = record {
  number = 3;
  timestamp = 1006;
  prev_hash = 5;
  tx_root = 6;
  state_root = 7;
  validator = 11;
  signature = 0;
  shard_id = 1;
  adjacent_hashes = (0, 0, 0);
}

key_makes_pair : new_key_pair toy key ≡ ok pair
unfolding toy new_key_pair le_bytes
key_makes_pair = refl

short_key : new_key_pair toy (1 ∷ 2 ∷ []) ≡ err invalid_private_key
unfolding new_key_pair
short_key = refl

hex_of_address : array_to_hex 2 43981 ≡ b'c' ∷ b'd' ∷ b'a' ∷ b'b' ∷ []
unfolding array_to_hex encode_hex le_bytes
hex_of_address = refl

-- A payment of 300 and one of 300 + 256 are signed over the same bytes.
sign_transaction-covers_example :
    (verify_transaction toy (sign_transaction toy pair (pay 300)) pair.public_key ≡ true)
    × (verify_transaction toy
          (record (sign_transaction toy pair (pay 300)) { amount = 556 })
          pair.public_key
        ≡ true)
    × ((serialize_transaction (record (pay 300) { signature = 0 })
          ≡ serialize_transaction (record (pay 556) { signature = 0 }))
        ↔ IsSignedAlike (pay 300) (pay 556))
sign_transaction-covers_example =
    sign_transaction-covers toy key (pay 300) (pay 556) 556 {k = pair} key_makes_pair refl
      (omega arith) (omega arith) (omega arith) (omega arith)
