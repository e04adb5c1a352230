-- ===== src/Storage/KeyValue.antt =====
-- The key-value store under pkg/storage/leveldb_storage.go: goleveldb, a package that the program
-- calls. A key is a constructor for each prefix of the source's constants applied to what the
-- source prints behind it; two such texts are equal only if prefix and argument are. A value is what
-- encoding/json writes and reads back, or the eight bytes of a height.
use shardmatrix.Prelude.{
  ℕ, ◌≡◌, ◌≢◌, refl, Bool, true, false, Option, some, List, [], ◌∷◌, ◌==◌, if◌then◌else◌, arith,
}
use shardmatrix.Types.{Block, Transaction, Account, Validator, GenesisBlock, Hash, Signature}

-- Checkpoint
pub record Checkpoint : Type 0 where
  pub height : ℕ
  pub block_hash : Hash
  pub state_root : Hash
  pub validator_set_hash : Hash
  pub timestamp : ℕ
  pub signature : Signature

pub data Key : Type 0 where
  block_key hash_key tx_key account_key validator_key checkpoint_key : ℕ → Key
  genesis_key latest_height_key latest_checkpoint_key : Key

pub data Value : Type 0 where
  a_block : Block → Value
  a_height : ℕ → Value
  a_transaction : Transaction → Value
  an_account : Account → Value
  a_validator : Validator → Value
  a_genesis : GenesisBlock → Value
  a_checkpoint : Checkpoint → Value

-- What `db.Get` answers: a value, leveldb.ErrNotFound, or another error.
pub data Reply : Type 0 where
  found : Value → Reply
  not_found failed : Reply

-- The operations on a store of type D, with what the package documents: after a `Put` that returns
-- no error its key reads as the value that was put, and the other keys read as before.
pub record KeyValue (D : Type 0) : Type 0 where
  pub put : Key → Value → D → Bool × D
  pub get : Key → D → Reply
  -- the values under the validator prefix, in key order; `none` is an error of the iterator
  pub validators : D → Option (List Value)
  pub get-put : (k : Key) (v : Value) (d : D) → (put k v d).0 ≡ true → get k (put k v d).1 ≡ found v
  pub get-put_ne :
      (k j : Key) (v : Value) (d : D) → (put k v d).0 ≡ true → j ≢ k → get j (put k v d).1 ≡ get j d

-- A store in memory that never fails, for running the model: the newest entry of a key counts.
abbrev pub key_eq : Key → Key → Bool
key_eq (block_key a) (block_key b) = a == b
key_eq (hash_key a) (hash_key b) = a == b
key_eq (tx_key a) (tx_key b) = a == b
key_eq (account_key a) (account_key b) = a == b
key_eq (validator_key a) (validator_key b) = a == b
key_eq (checkpoint_key a) (checkpoint_key b) = a == b
key_eq genesis_key genesis_key = true
key_eq latest_height_key latest_height_key = true
key_eq latest_checkpoint_key latest_checkpoint_key = true
key_eq _ _ = false

key_eq-refl : (k : Key) → key_eq k k ≡ true
key_eq-refl (block_key a) = ground arith
key_eq-refl (hash_key a) = ground arith
key_eq-refl (tx_key a) = ground arith
key_eq-refl (account_key a) = ground arith
key_eq-refl (validator_key a) = ground arith
key_eq-refl (checkpoint_key a) = ground arith
key_eq-refl genesis_key = refl
key_eq-refl latest_height_key = refl
key_eq-refl latest_checkpoint_key = refl

key_eq-eq : (j k : Key) → key_eq j k ≡ true → j ≡ k
key_eq-eq (block_key a) k h = ground arith
key_eq-eq j k h = ground arith

memory_get : Key → List (Key × Value) → Reply
memory_get k [] = not_found
memory_get k ((j, v) ∷ d) = if key_eq k j then found v else memory_get k d

memory_validators : List (Key × Value) → List Value
memory_validators [] = []
memory_validators ((validator_key a, v) ∷ d) = v ∷ memory_validators d
memory_validators ((k, v) ∷ d) = memory_validators d

memory-get-put :
    (k : Key) (v : Value) (d : List (Key × Value)) → memory_get k ((k, v) ∷ d) ≡ found v
unfolding memory_get
memory-get-put k v d = rw (key_eq-refl k)

memory-get-put_ne :
    (k j : Key) (v : Value) (d : List (Key × Value))
    → j ≢ k
    → memory_get j ((k, v) ∷ d) ≡ memory_get j d
unfolding memory_get
memory-get-put_ne k j v d ne = ground (arith, key_eq-eq j k)

unfoldable pub memory : KeyValue (List (Key × Value))
unfolding memory_get memory_validators memory-get-put memory-get-put_ne key_eq-refl key_eq-eq
memory = record {
  put = λ k v d. (true, (k, v) ∷ d);
  get = memory_get;
  validators = λ d. some (memory_validators d);
  get-put = λ k v d h. memory-get-put k v d;
  get-put_ne = λ k j v d h ne. memory-get-put_ne k j v d ne;
}
