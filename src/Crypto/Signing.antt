-- ===== src/Crypto/Signing.antt =====
-- crypto.go: signing and verifying together.
use shardmatrix.Prelude.{
  cons-injective, sym, subst, ℕ, ◌%◌, ◌^◌, ◌<◌, ◌↔◌, ◌≡◌, refl, true, List, ok, arith, length,
}
use shardmatrix.Prelude.Bytes.{le_bytes_field}
use shardmatrix.Primitives.{Primitives}
use shardmatrix.Types.{Transaction, BlockHeader}
use shardmatrix.Crypto.{
  KeyPair, new_key_pair, sign_transaction, verify_transaction, sign_block, verify_block,
  serialize_transaction, public_key_to_address,
}

-- What the signatures of two transactions cover is the same.
pub record IsSignedAlike (t u : Transaction) : Type 0 where
  pub shard_id : t.shard_id % 256 ≡ u.shard_id % 256
  pub from : t.from ≡ u.from
  pub to : t.to ≡ u.to
  pub amount : t.amount % 256 ≡ u.amount % 256
  pub gas_price : t.gas_price % 256 ≡ u.gas_price % 256
  pub gas_limit : t.gas_limit % 256 ≡ u.gas_limit % 256
  pub nonce : t.nonce % 256 ≡ u.nonce % 256
  pub payload : t.payload ≡ u.payload

serialize_transaction-IsSignedAlike :
    (t u : Transaction)
    → t.from < 256 ^ 20
    → t.to < 256 ^ 20
    → u.from < 256 ^ 20
    → u.to < 256 ^ 20
    → serialize_transaction (record t { signature = 0 })
      ≡ serialize_transaction (record u { signature = 0 })
    → IsSignedAlike t u
unfolding serialize_transaction
serialize_transaction-IsSignedAlike t u f1 t1 f2 t2 e =
    let (shard, e1) = cons-injective e in
    let (from, e2) = le_bytes_field 20 t.from u.from f1 f2 e1 in
    let (to, e3) = le_bytes_field 20 t.to u.to t1 t2 e2 in
    let (amount, e4) = cons-injective e3 in
    let (price, e5) = cons-injective e4 in
    let (limit, e6) = cons-injective e5 in
    let (nonce, payload) = cons-injective e6 in
    record {
      shard_id = shard;
      from = from;
      to = to;
      amount = amount;
      gas_price = price;
      gas_limit = limit;
      nonce = nonce;
      payload = payload;
    }

serialize_transaction-same :
    (t u : Transaction)
    → IsSignedAlike t u
    → serialize_transaction (record t { signature = 0 })
      ≡ serialize_transaction (record u { signature = 0 })
unfolding serialize_transaction
serialize_transaction-same t u s =
    cc (s.shard_id, s.from, s.to, s.amount, s.gas_price, s.gas_limit, s.nonce, s.payload)

-- Another amount with the same lowest byte is verified over the same bytes.
forged :
    (t : Transaction) (amount : ℕ)
    → amount % 256 ≡ t.amount % 256
    → serialize_transaction (record t { amount = amount; signature = 0 })
      ≡ serialize_transaction (record t { signature = 0 })
unfolding serialize_transaction
forged t amount same = rw same refl

module _ (p : Primitives) where
  new_key_pair-eq-ok :
      (key : List ℕ) {k : KeyPair}
      → new_key_pair p key ≡ ok k
      → (length key ≡ 64)
        × (k ≡ record {
          private_key = key;
          public_key = p.public_key key;
          address = public_key_to_address p (p.public_key key);
        })
  unfolding new_key_pair
  new_key_pair-eq-ok key h = ground arith

  pub verify_block-sign_block :
      (key : List ℕ) (h : BlockHeader) {k : KeyPair}
      → new_key_pair p key ≡ ok k
      → verify_block p (sign_block p k h) k.public_key ≡ true
  unfolding verify_block sign_block
  verify_block-sign_block key h {k} e =
      let (size, shape) = new_key_pair-eq-ok key e in rw shape (p.verify-sign key _ size)

  -- Let the addresses of two transactions have 20 bytes, and let a key pair come from a private key. The
  -- first transaction, signed with it, verifies under its public key, and still does when its amount
  -- is replaced by any one with the same lowest byte. The two are signed over the same bytes exactly
  -- when they have sender, receiver and payload in common, and of shard, amount, gas price, gas
  -- limit and nonce the lowest byte.
  pub sign_transaction-covers :
      (key : List ℕ) (t u : Transaction) (amount : ℕ) {k : KeyPair}
      → new_key_pair p key ≡ ok k
      → amount % 256 ≡ t.amount % 256
      → t.from < 256 ^ 20
      → t.to < 256 ^ 20
      → u.from < 256 ^ 20
      → u.to < 256 ^ 20
      → (verify_transaction p (sign_transaction p k t) k.public_key ≡ true)
        × (verify_transaction p (record (sign_transaction p k t) { amount = amount }) k.public_key
            ≡ true)
        × ((serialize_transaction (record t { signature = 0 })
              ≡ serialize_transaction (record u { signature = 0 }))
            ↔ IsSignedAlike t u)
  unfolding verify_transaction sign_transaction
  sign_transaction-covers key t u amount {k} e same f1 t1 f2 t2 =
      let (size, shape) = new_key_pair-eq-ok key e in
      (
        rw shape (p.verify-sign key _ size),
        rw shape (
            subst
              (λ bytes.
                p.verify (p.public_key key) bytes
                  (p.sign key (serialize_transaction (record t { signature = 0 })))
                ≡ true)
              (sym (forged t amount same)) (p.verify-sign key _ size)),
        (serialize_transaction-IsSignedAlike t u f1 t1 f2 t2, serialize_transaction-same t u),
      )
