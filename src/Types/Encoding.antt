-- ===== src/Types/Encoding.antt =====
-- The byte strings that are hashed determine what they encode: no two headers, transactions or
-- lists of transaction hashes share a preimage unless they agree on every field that is written.
use shardmatrix.Prelude.{
  ◌^◌, ◌<◌, ◌≡◌, refl, ◌↔◌, List, [], ◌∷◌, arith, ap, All, length, length-append,
}
use shardmatrix.Prelude.Bytes.{le_bytes, le_bytes_field, le_bytes-injective, length-le_bytes}
use shardmatrix.Types.{
  BlockHeader, Transaction, Hash, header_preimage, tx_preimage, tx_root_preimage,
}

-- The fields fit their Go types.
pub record InRange (t : Transaction) : Type 0 where
  pub shard_id : t.shard_id < 256 ^ 8
  pub from : t.from < 256 ^ 20
  pub to : t.to < 256 ^ 20
  pub amount : t.amount < 256 ^ 8
  pub gas_price : t.gas_price < 256 ^ 8
  pub gas_limit : t.gas_limit < 256 ^ 8
  pub nonce : t.nonce < 256 ^ 8

pub record HeaderInRange (h : BlockHeader) : Type 0 where
  pub number : h.number < 256 ^ 8
  pub timestamp : h.timestamp < 256 ^ 8
  pub prev_hash : h.prev_hash < 256 ^ 32
  pub tx_root : h.tx_root < 256 ^ 32
  pub state_root : h.state_root < 256 ^ 32
  pub validator : h.validator < 256 ^ 20

-- What a transaction's hash commits to: everything but the signature.
pub record SameContent (t u : Transaction) : Type 0 where
  pub shard_id : t.shard_id ≡ u.shard_id
  pub from : t.from ≡ u.from
  pub to : t.to ≡ u.to
  pub amount : t.amount ≡ u.amount
  pub gas_price : t.gas_price ≡ u.gas_price
  pub gas_limit : t.gas_limit ≡ u.gas_limit
  pub nonce : t.nonce ≡ u.nonce
  pub payload : t.payload ≡ u.payload

-- What a header's hash commits to.
pub record SameHashed (g h : BlockHeader) : Type 0 where
  pub number : g.number ≡ h.number
  pub timestamp : g.timestamp ≡ h.timestamp
  pub prev_hash : g.prev_hash ≡ h.prev_hash
  pub tx_root : g.tx_root ≡ h.tx_root
  pub state_root : g.state_root ≡ h.state_root
  pub validator : g.validator ≡ h.validator

-- Two transactions whose fields are in range are hashed from the same bytes exactly when they agree
-- on every field but the signature, the payload included.
tx_preimage-injective :
    (t u : Transaction) → InRange t → InRange u → (tx_preimage t ≡ tx_preimage u) ↔ SameContent t u
unfolding tx_preimage
tx_preimage-injective t u a b = (read, λ s. write s)
  where
    read : tx_preimage t ≡ tx_preimage u → SameContent t u
    read e =
        let (shard_id, e1) = le_bytes_field 8 t.shard_id u.shard_id a.shard_id b.shard_id e in
        let (from, e2) = le_bytes_field 20 t.from u.from a.from b.from e1 in
        let (to, e3) = le_bytes_field 20 t.to u.to a.to b.to e2 in
        let (amount, e4) = le_bytes_field 8 t.amount u.amount a.amount b.amount e3 in
        let (price, e5) = le_bytes_field 8 t.gas_price u.gas_price a.gas_price b.gas_price e4 in
        let (limit, e6) = le_bytes_field 8 t.gas_limit u.gas_limit a.gas_limit b.gas_limit e5 in
        let (nonce, e7) = le_bytes_field 8 t.nonce u.nonce a.nonce b.nonce e6 in
        record {
          shard_id = shard_id;
          from = from;
          to = to;
          amount = amount;
          gas_price = price;
          gas_limit = limit;
          nonce = nonce;
          payload = e7;
        }

    write : SameContent t u → tx_preimage t ≡ tx_preimage u
    write s = cc (s.shard_id, s.from, s.to, s.amount, s.gas_price, s.gas_limit, s.nonce, s.payload)

-- Two headers whose fields are in range are hashed from the same bytes exactly when they agree on
-- number, timestamp, previous hash, transaction root, state root and validator. The signature, the
-- shard and the adjacent hashes are not hashed.
header_preimage-injective :
    (g h : BlockHeader)
    → HeaderInRange g
    → HeaderInRange h
    → (header_preimage g ≡ header_preimage h) ↔ SameHashed g h
unfolding header_preimage
header_preimage-injective g h a b = (read, λ s. write s)
  where
    read : header_preimage g ≡ header_preimage h → SameHashed g h
    read e =
        let (number, e1) = le_bytes_field 8 g.number h.number a.number b.number e in
        let (time, e2) = le_bytes_field 8 g.timestamp h.timestamp a.timestamp b.timestamp e1 in
        let (prev, e3) = le_bytes_field 32 g.prev_hash h.prev_hash a.prev_hash b.prev_hash e2 in
        let (txs, e4) = le_bytes_field 32 g.tx_root h.tx_root a.tx_root b.tx_root e3 in
        let (state, e5) =
          le_bytes_field 32 g.state_root h.state_root a.state_root b.state_root e4 in
        record {
          number = number;
          timestamp = time;
          prev_hash = prev;
          tx_root = txs;
          state_root = state;
          validator = le_bytes-injective 20 g.validator h.validator a.validator b.validator e5;
        }

    write : SameHashed g h → header_preimage g ≡ header_preimage h
    write s = cc (s.number, s.timestamp, s.prev_hash, s.tx_root, s.state_root, s.validator)

-- A transaction root is hashed from bytes that determine the list of transaction hashes: its order,
-- its length and every entry.
tx_root_preimage-injective :
    (hs ks : List Hash)
    → All (λ h. h < 256 ^ 32) hs
    → All (λ h. h < 256 ^ 32) ks
    → tx_root_preimage hs ≡ tx_root_preimage ks
    → hs ≡ ks
unfolding tx_root_preimage
tx_root_preimage-injective [] [] a b e = refl
tx_root_preimage-injective [] (k ∷ ks) a b e = absurd (
    omega (
      arith,
      ap length e,
      length-append {0} (le_bytes 32 k) (tx_root_preimage ks),
      length-le_bytes 32 k,
    ))
tx_root_preimage-injective (h ∷ hs) [] a b e = absurd (
    omega (
      arith,
      ap length e,
      length-append {0} (le_bytes 32 h) (tx_root_preimage hs),
      length-le_bytes 32 h,
    ))
tx_root_preimage-injective (h ∷ hs) (k ∷ ks) a b e =
    let (first, rest) = le_bytes_field 32 h k a.0 b.0 e in
    cc (first, tx_root_preimage-injective hs ks a.1 b.1 rest)
