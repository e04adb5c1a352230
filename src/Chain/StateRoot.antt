-- ===== src/Chain/StateRoot.antt =====
-- What a state root commits to.
use shardmatrix.Prelude.{◌%◌, ◌^◌, ◌<◌, ◌≡◌, ◌≢◌, refl, ap, [], ◌∷◌}
use shardmatrix.Prelude.Bytes.{le_bytes_field}
use shardmatrix.Prelude.Assoc.{Assoc}
use shardmatrix.Primitives.{Primitives}
use shardmatrix.Types.{Account, Address}
use shardmatrix.Chain.{state_preimage}
use shardmatrix.Chain.Blocks.{calculate_state_root}

-- The same addresses in the same order, with numbers that agree in their lowest bytes.
abbrev pub SameLowBytes : Assoc Account → Assoc Account → Type 0
SameLowBytes [] [] = Unit
SameLowBytes [] (y ∷ ys) = ⊥
SameLowBytes (x ∷ xs) [] = ⊥
SameLowBytes ((j, a) ∷ xs) ((k, b) ∷ ys) =
    (j ≡ k)
    × (a.balance % 256 ≡ b.balance % 256)
    × (a.nonce % 256 ≡ b.nonce % 256)
    × (a.staked % 256 ≡ b.staked % 256)
    × SameLowBytes xs ys

state_preimage-SameLowBytes :
    (m n : Assoc Account) → SameLowBytes m n → state_preimage m ≡ state_preimage n
unfolding state_preimage
state_preimage-SameLowBytes [] [] h = refl
state_preimage-SameLowBytes [] (y ∷ ys) h = absurd h
state_preimage-SameLowBytes (x ∷ xs) [] h = absurd h
state_preimage-SameLowBytes ((j, a) ∷ xs) ((k, b) ∷ ys) (e, e1, e2, e3, rest) =
    cc (e, e1, e2, e3, state_preimage-SameLowBytes xs ys rest)

-- Two states that walk the same addresses in the same order have one root as soon as balances,
-- nonces and stakes agree modulo 256.
calculate_state_root-SameLowBytes :
    (p : Primitives) (m n : Assoc Account)
    → SameLowBytes m n
    → calculate_state_root p m ≡ calculate_state_root p n
unfolding calculate_state_root
calculate_state_root-SameLowBytes p m n h = ap p.sha256 (state_preimage-SameLowBytes m n h)

-- The root is hashed from other bytes when two neighbours of the walk change places, whatever
-- accounts they are and whatever follows: it depends on the order in which the map is walked, which
-- Go does not fix.
state_preimage_order :
    (j k : Address) (a b : Account) (rest : Assoc Account)
    → j < 256 ^ 20
    → k < 256 ^ 20
    → j ≢ k
    → state_preimage ((j, a) ∷ (k, b) ∷ rest) ≢ state_preimage ((k, b) ∷ (j, a) ∷ rest)
unfolding state_preimage
state_preimage_order j k a b rest hj hk ne e = ne (le_bytes_field 20 j k hj hk e).0
