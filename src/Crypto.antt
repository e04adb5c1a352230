-- ===== src/Crypto.antt =====
-- pkg/crypto/crypto.go: key pairs, addresses, hexadecimal text, and what is signed and verified.
-- The random generators are left out; `GenerateKeyPair` is `new_key_pair` of the key that the
-- library draws. An error keeps its kind, not its text.
pub mod Signing
pub mod Hex
mod Tests
use shardmatrix.Prelude.{
  ℕ, ◌+◌, ◌*◌, ◌-◌, ◌/◌, ◌%◌, Bool, true, false, not, ◌&&◌, Option, none, some, List, [], ◌∷◌, ◌++◌,
  Result, ok, err, map, ◌>>=◌, ◌>>◌, require, length, drop, leb, ◌==◌, if◌then◌else◌,
}
use shardmatrix.Prelude.Bytes.{le_bytes, of_le_bytes}
use shardmatrix.Primitives.{Primitives}
use shardmatrix.Types.{BlockHeader, Transaction, Hash, Address, Signature, is_zero}

pub data CryptoError : Type 0 where
  invalid_private_key bad_hex bad_length : CryptoError

pub record KeyPair : Type 0 where
  pub private_key : List ℕ
  pub public_key : List ℕ
  pub address : Address

-- serializeTransaction: each number is cut to its lowest byte, `byte(n)`.
unfoldable pub serialize_transaction : Transaction → List ℕ
serialize_transaction t =
    (t.shard_id % 256)
    ∷ (le_bytes 20 t.from
        ++ (le_bytes 20 t.to
            ++ ((t.amount % 256)
                ∷ (t.gas_price % 256)
                ∷ (t.gas_limit % 256)
                ∷ (t.nonce % 256)
                ∷ t.payload)))

-- serializeBlockHeader
unfoldable pub serialize_block_header : BlockHeader → List ℕ
serialize_block_header h =
    let (left, parent, right) = h.adjacent_hashes in
    (h.number % 256)
    ∷ (h.timestamp % 256)
    ∷ (le_bytes 32 h.prev_hash
        ++ (le_bytes 32 h.tx_root
            ++ (le_bytes 32 h.state_root
                ++ (le_bytes 20 h.validator
                    ++ ((h.shard_id % 256)
                        ∷ (le_bytes 32 left ++ (le_bytes 32 parent ++ le_bytes 32 right)))))))

module _ (p : Primitives) where
  -- PublicKeyToAddress: bytes 12 to 31 of the digest
  unfoldable pub public_key_to_address : List ℕ → Address
  public_key_to_address key = of_le_bytes (drop 12 (le_bytes 32 (p.sha256 key)))

  -- NewKeyPairFromPrivateKey
  unfoldable pub new_key_pair : List ℕ → Result CryptoError KeyPair
  unfolding public_key_to_address
  new_key_pair key =
      if length key == 64
      then ok (record {
        private_key = key;
        public_key = p.public_key key;
        address = public_key_to_address (p.public_key key);
      })
      else err invalid_private_key

  -- VerifySignatureWithAddress
  unfoldable pub verify_signature_with_address : Address → List ℕ → Signature → List ℕ → Bool
  unfolding public_key_to_address
  verify_signature_with_address address message s key =
      public_key_to_address key == address && p.verify key message s

  -- SignTransaction and VerifyTransaction clear the signature of a copy before they serialize it.
  unfoldable pub sign_transaction : KeyPair → Transaction → Transaction
  unfolding serialize_transaction
  sign_transaction k t = record t {
    signature = p.sign k.private_key (serialize_transaction (record t { signature = 0 }));
  }

  unfoldable pub verify_transaction : Transaction → List ℕ → Bool
  unfolding serialize_transaction
  verify_transaction t key =
      p.verify key (serialize_transaction (record t { signature = 0 })) t.signature

  unfoldable pub sign_block : KeyPair → BlockHeader → BlockHeader
  unfolding serialize_block_header
  sign_block k h = record h {
    signature = p.sign k.private_key (serialize_block_header (record h { signature = 0 }));
  }

  unfoldable pub verify_block : BlockHeader → List ℕ → Bool
  unfolding serialize_block_header
  verify_block h key =
      p.verify key (serialize_block_header (record h { signature = 0 })) h.signature

-- hex.EncodeToString writes lower-case digits.
unfoldable pub hex_digit : ℕ → ℕ
hex_digit d = if leb d 9 then b'0' + d else b'a' + (d - 10)

unfoldable pub encode_hex : List ℕ → List ℕ
unfolding hex_digit
encode_hex [] = []
encode_hex (b ∷ bs) = hex_digit (b / 16) ∷ hex_digit (b % 16) ∷ encode_hex bs

-- hex.DecodeString takes digits of either case, in pairs.
unfoldable pub hex_value : ℕ → Option ℕ
hex_value c =
    if leb b'0' c && leb c b'9'
    then some (c - b'0')
    else if leb b'a' c && leb c b'f'
    then some (c - b'a' + 10)
    else if leb b'A' c && leb c b'F'
    then some (c - b'A' + 10)
    else none

join_digits : Option ℕ → Option ℕ → Option (List ℕ) → Option (List ℕ)
join_digits (some high) (some low) (some rest) = some ((high * 16 + low) ∷ rest)
join_digits _ _ _ = none

unfoldable pub decode_hex : List ℕ → Option (List ℕ)
unfolding hex_value join_digits
decode_hex [] = some []
decode_hex (c ∷ []) = none
decode_hex (c ∷ d ∷ cs) = join_digits (hex_value c) (hex_value d) (decode_hex cs)

sized : ℕ → Option (List ℕ) → Result CryptoError ℕ
sized size none = err bad_hex
sized size (some bytes) = if length bytes == size then ok (of_le_bytes bytes) else err bad_length

-- AddressFromHex, HashFromHex and SignatureFromHex are this at 20, 32 and 64 bytes.
unfoldable pub array_from_hex : ℕ → List ℕ → Result CryptoError ℕ
unfolding sized
array_from_hex size text = sized size (decode_hex text)

-- The String method of Address, Hash and Signature.
unfoldable pub array_to_hex : ℕ → ℕ → List ℕ
array_to_hex size a = encode_hex (le_bytes size a)
