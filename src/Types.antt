-- ===== src/Types.antt =====
-- pkg/types/types.go: blocks, transactions, accounts and validators, and their methods.
-- Arrays of bytes are numbers (`Prelude/Bytes`): Hash has 32 bytes, Address 20, Signature 64. An
-- integer field is a 64-bit word (`Prelude/Words`), a string a list of bytes. A slice's length is
-- not bounded, so that `Size` cannot overflow.
pub mod Encoding
pub mod Rotation
mod Tests
use shardmatrix.Prelude.{
  ℕ, zero, suc, ◌+◌, ◌*◌, ◌%◌, ◌^◌, ◌≤◌, ◌<◌, ◌≡◌, Bool, true, false, not, ◌&&◌, Option, none, some,
  List, [], ◌∷◌, ◌++◌, length, get_elem?, ◌==◌, if◌then◌else◌,
}
use shardmatrix.Prelude.Words.{word, add64, mul64}
use shardmatrix.Prelude.Bytes.{le_bytes}
use shardmatrix.Prelude.Assoc.{Assoc}
use shardmatrix.Primitives.{Primitives}

abbrev pub Hash : Type 0
Hash = ℕ

abbrev pub Address : Type 0
Address = ℕ

abbrev pub Signature : Type 0
Signature = ℕ

-- BlockTime.Seconds()
abbrev pub block_seconds : ℕ
block_seconds = 2

abbrev pub max_block_size : ℕ
max_block_size = 2 * 1024 * 1024

abbrev pub max_tx_per_block : ℕ
max_tx_per_block = 10000

abbrev pub validator_count : ℕ
validator_count = 21

abbrev pub min_stake_amount : ℕ
min_stake_amount = 10000

abbrev pub first_shard : ℕ
first_shard = 1

pub record BlockHeader : Type 0 where
  pub number : ℕ
  pub timestamp : ℕ
  pub prev_hash : Hash
  pub tx_root : Hash
  pub state_root : Hash
  pub validator : Address
  pub signature : Signature
  pub shard_id : ℕ
  pub adjacent_hashes : Hash × Hash × Hash

pub record Block : Type 0 where
  pub header : BlockHeader
  pub transactions : List Hash

pub record Transaction : Type 0 where
  pub shard_id : ℕ
  pub from : Address
  pub to : Address
  pub amount : ℕ
  pub gas_price : ℕ
  pub gas_limit : ℕ
  pub nonce : ℕ
  pub payload : List ℕ
  pub signature : Signature

pub record Account : Type 0 where
  pub address : Address
  pub balance : ℕ
  pub nonce : ℕ
  pub staked : ℕ

pub record Validator : Type 0 where
  pub address : Address
  pub public_key : List ℕ
  pub stake_amount : ℕ
  pub delegated_amt : ℕ
  pub vote_power : ℕ
  pub is_active : Bool
  pub slash_count : ℕ

pub record ValidatorSet : Type 0 where
  pub validators : List Validator
  pub round : ℕ

pub record GenesisBlock : Type 0 where
  pub timestamp : ℕ
  pub init_accounts : List Account
  pub validators : List Validator
  pub chain_id : List ℕ
  pub config : List (List ℕ × List ℕ)

-- The `IsEmpty` of Hash, Address and Signature.
abbrev pub is_zero : ℕ → Bool
is_zero a = a == 0

-- What BlockHeader.Hash feeds to SHA-256.
unfoldable pub header_preimage : BlockHeader → List ℕ
header_preimage h =
    le_bytes 8 h.number
    ++ (le_bytes 8 h.timestamp
        ++ (le_bytes 32 h.prev_hash
            ++ (le_bytes 32 h.tx_root ++ (le_bytes 32 h.state_root ++ le_bytes 20 h.validator))))

-- What Transaction.Hash feeds to SHA-256.
unfoldable pub tx_preimage : Transaction → List ℕ
tx_preimage t =
    le_bytes 8 t.shard_id
    ++ (le_bytes 20 t.from
        ++ (le_bytes 20 t.to
            ++ (le_bytes 8 t.amount
                ++ (le_bytes 8 t.gas_price
                    ++ (le_bytes 8 t.gas_limit ++ (le_bytes 8 t.nonce ++ t.payload))))))

-- What CalculateTxRoot feeds to SHA-256: the hashes one after the other, none for no transaction.
unfoldable pub tx_root_preimage : List Hash → List ℕ
tx_root_preimage [] = []
tx_root_preimage (h ∷ hs) = le_bytes 32 h ++ tx_root_preimage hs

module _ (p : Primitives) where
  unfoldable pub hash_header : BlockHeader → Hash
  unfolding header_preimage
  hash_header h = p.sha256 (header_preimage h)

  unfoldable pub hash_block : Block → Hash
  unfolding hash_header
  hash_block b = hash_header b.header

  unfoldable pub hash_tx : Transaction → Hash
  unfolding tx_preimage
  hash_tx t = p.sha256 (tx_preimage t)

  unfoldable pub empty_tx_root : Hash
  empty_tx_root = p.sha256 []

  unfoldable pub calculate_tx_root : List Hash → Hash
  unfolding tx_root_preimage
  calculate_tx_root [] = empty_tx_root
  calculate_tx_root (h ∷ hs) = p.sha256 (tx_root_preimage (h ∷ hs))

-- Block.IsEmpty
unfoldable pub block_is_empty : Block → Bool
block_is_empty b = length b.transactions == 0

-- Block.Size
unfoldable pub block_size : Block → ℕ
block_size b = 200 + length b.transactions * 32

-- Transaction.Verify
unfoldable pub tx_verify : Transaction → Bool
tx_verify t = not (is_zero t.signature)

-- A list of the validators that are active.
unfoldable pub active_of : List Validator → List Validator
active_of [] = []
active_of (v ∷ vs) = let rest = active_of vs in if v.is_active then v ∷ rest else rest

total_vote_power_from : ℕ → List Validator → ℕ
total_vote_power_from total [] = total
total_vote_power_from total (v ∷ vs) =
    total_vote_power_from (if v.is_active then add64 total v.vote_power else total) vs

-- ValidatorSet.GetTotalVotePower
unfoldable pub get_total_vote_power : ValidatorSet → ℕ
unfolding total_vote_power_from
get_total_vote_power s = total_vote_power_from 0 s.validators

next_slot : Option ℕ → Option ℕ
next_slot none = none
next_slot (some i) = some (suc i)

-- ValidatorSet.GetValidator. The pointer that it returns is the slot of the slice that it points to.
unfoldable pub slot_of : Address → List Validator → Option ℕ
unfolding next_slot
slot_of a [] = none
slot_of a (v ∷ vs) =
    let rest = next_slot (slot_of a vs) in if v.address == a then some zero else rest

unfoldable pub get_validator : Address → List Validator → Option Validator
get_validator a [] = none
get_validator a (v ∷ vs) = let rest = get_validator a vs in if v.address == a then some v else rest

-- The slot whose turn it is at a height, among n: `height % n`.
unfoldable pub validator_at : List Validator → ℕ → Option Validator
validator_at [] height = none
validator_at (v ∷ vs) height = get_elem? (v ∷ vs) (height % length (v ∷ vs))

-- ValidatorSet.GetCurrentValidator
unfoldable pub get_current_validator : ValidatorSet → ℕ → Option Validator
unfolding validator_at
get_current_validator s height = validator_at s.validators height

-- CalculateBlockTime
unfoldable pub calculate_block_time : ℕ → ℕ → ℕ
calculate_block_time genesis_time number = add64 genesis_time (mul64 number block_seconds)

-- ValidateBlockTime
unfoldable pub validate_block_time : ℕ → ℕ → ℕ → Bool
unfolding calculate_block_time
validate_block_time genesis_time number timestamp =
    timestamp == calculate_block_time genesis_time number
