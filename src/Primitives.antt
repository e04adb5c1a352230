-- ===== src/Primitives.antt =====
-- The cryptography that the program calls: crypto/sha256 and crypto/ed25519. A hash of 32 bytes and
-- a signature of 64 are numbers (`Prelude/Bytes`); keys and messages are lists of bytes.
-- Every definition that hashes, signs or verifies takes these operations as a parameter. The laws
-- are those that the packages document: a digest has 32 bytes, a signature 64, and what a 64-byte
-- private key has signed is accepted under its public key.
use shardmatrix.Prelude.{
  ℕ, ◌+◌, ◌*◌, ◌%◌, ◌^◌, ◌<◌, ◌≡◌, Bool, true, List, [], ◌∷◌, ◌++◌, arith, length, drop, ◌==◌,
  ==-refl,
}

pub record Primitives : Type 0 where
  pub sha256 : List ℕ → ℕ
  pub sha256-lt : (d : List ℕ) → sha256 d < 256 ^ 32
  pub public_key : List ℕ → List ℕ
  pub sign : List ℕ → List ℕ → ℕ
  pub sign-lt : (key message : List ℕ) → sign key message < 256 ^ 64
  pub verify : List ℕ → List ℕ → ℕ → Bool
  pub verify-sign :
      (key message : List ℕ)
      → length key ≡ 64
      → verify (public_key key) message (sign key message) ≡ true

-- A concrete set of operations that has the laws, for running the model: a polynomial checksum
-- stands for the digest, and a keyed checksum for the signature.
checksum : List ℕ → ℕ
checksum [] = 7
checksum (b ∷ bs) = (b + 1 + 257 * checksum bs) % 256 ^ 16

checksum-lt : (d : List ℕ) → checksum d < 256 ^ 16
unfolding checksum
checksum-lt [] = omega arith
checksum-lt (b ∷ bs) = omega arith

toy_sha256-lt : (d : List ℕ) → checksum d < 256 ^ 32
toy_sha256-lt d = omega (arith, checksum-lt d)

toy_sign-lt : (key message : List ℕ) → checksum (drop 32 key ++ message) < 256 ^ 64
toy_sign-lt key message = omega (arith, checksum-lt (drop 32 key ++ message))

toy_verify-sign :
    (key message : List ℕ)
    → length key ≡ 64
    → (checksum (drop 32 key ++ message) == checksum (drop 32 key ++ message)) ≡ true
toy_verify-sign key message h = ==-refl (checksum (drop 32 key ++ message))

unfoldable pub toy : Primitives
unfolding checksum checksum-lt toy_sha256-lt toy_sign-lt toy_verify-sign
toy = record {
  sha256 = checksum;
  sha256-lt = toy_sha256-lt;
  public_key = drop 32;
  sign = λ key message. checksum (drop 32 key ++ message);
  sign-lt = toy_sign-lt;
  verify = λ key message s. s == checksum (key ++ message);
  verify-sign = toy_verify-sign;
}
