-- ===== src/Prelude/Bytes.antt =====
-- Byte arrays of a fixed size. `[n]byte` is kept as the number that its bytes write in base 256,
-- the first byte lowest, so that `==` on arrays is `==` on numbers and the zero array is 0.
-- `le_bytes n` gives the bytes back; for n = 8 it is also binary.LittleEndian.PutUint64.
use Prim.Native.Nat.{ℕ, zero, suc, ◌+◌, ◌*◌, ◌/◌, ◌%◌, ◌^◌, ◌<◌}
use mathlib.Core.Path.{◌≡◌, refl, ap, sym, ◌∙◌}
use mathlib.Core.List.{List, [], ◌∷◌, ◌++◌}
use native.Mathlib.Omega.{arith}
use native.Mathlib.Nat.{pow-suc}
use shardmatrix.Prelude.Lists.{length, append-injective}

unfoldable pub le_bytes : ℕ → ℕ → List ℕ
le_bytes zero x = []
le_bytes (suc n) x = x % 256 ∷ le_bytes n (x / 256)

unfoldable pub of_le_bytes : List ℕ → ℕ
of_le_bytes [] = 0
of_le_bytes (b ∷ bs) = b + 256 * of_le_bytes bs

pub length-le_bytes : (n x : ℕ) → length (le_bytes n x) ≡ n
unfolding le_bytes
length-le_bytes zero x = refl
length-le_bytes (suc n) x = ap suc (length-le_bytes n (x / 256))

-- The array of n bytes holds every number below 256 ^ n.
pub of_le_bytes-le_bytes : (n x : ℕ) → x < 256 ^ n → of_le_bytes (le_bytes n x) ≡ x
unfolding of_le_bytes le_bytes
of_le_bytes-le_bytes zero x h = omega arith
of_le_bytes-le_bytes (suc n) x h =
    let fits : x / 256 < 256 ^ n = omega (arith, pow-suc 256 n) in
    omega (arith, of_le_bytes-le_bytes n (x / 256) fits)

pub le_bytes-injective :
    (n x y : ℕ) → x < 256 ^ n → y < 256 ^ n → le_bytes n x ≡ le_bytes n y → x ≡ y
le_bytes-injective n x y hx hy e =
    sym (of_le_bytes-le_bytes n x hx) ∙ ap of_le_bytes e ∙ of_le_bytes-le_bytes n y hy

-- A field of n bytes at the front of a message is determined by the message, and so is the rest.
pub le_bytes_field :
    (n x y : ℕ) {us vs : List ℕ}
    → x < 256 ^ n
    → y < 256 ^ n
    → le_bytes n x ++ us ≡ le_bytes n y ++ vs
    → (x ≡ y) × (us ≡ vs)
le_bytes_field n x y hx hy e =
    let parts =
      append-injective (le_bytes n x) (le_bytes n y)
        (length-le_bytes n x ∙ sym (length-le_bytes n y)) e in
    (le_bytes-injective n x y hx hy parts.0, parts.1)
