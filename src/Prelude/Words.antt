-- ===== src/Prelude/Words.antt =====
-- 64-bit machine words. A uint64 is a number below 2 ^ 64. An int64 is its bit pattern, a number
-- below 2 ^ 64 too: addition and subtraction are those of uint64, the order and the division read
-- the sign bit.
use Prim.Native.Nat.{ℕ, ◌+◌, ◌-◌, ◌*◌, ◌/◌, ◌%◌, ◌^◌}
use mathlib.Core.Path.{◌≡◌, refl}
use mathlib.Core.Bool.{Bool}
use shardmatrix.Prelude.Tests.{ltb, leb, if◌then◌else◌}

abbrev pub word : ℕ
word = 2 ^ 64

abbrev pub half_word : ℕ
half_word = 2 ^ 63

abbrev pub add64 : ℕ → ℕ → ℕ
add64 a b = (a + b) % word

abbrev pub sub64 : ℕ → ℕ → ℕ
sub64 a b = (a + word - b) % word

abbrev pub mul64 : ℕ → ℕ → ℕ
mul64 a b = a * b % word

-- The signed order: adding 2 ^ 63 turns it into the unsigned one.
abbrev pub bias : ℕ → ℕ
bias a = (a + half_word) % word

abbrev pub lt_i64 : ℕ → ℕ → Bool
lt_i64 a b = ltb (bias a) (bias b)

abbrev pub le_i64 : ℕ → ℕ → Bool
le_i64 a b = leb (bias a) (bias b)

abbrev pub is_neg : ℕ → Bool
is_neg a = leb half_word a

abbrev pub neg64 : ℕ → ℕ
neg64 a = (word - a) % word

abbrev pub magnitude : ℕ → ℕ
magnitude a = if is_neg a then neg64 a else a

-- Go's `/` and `%` on int64 round toward zero. (A zero divisor panics there.)
abbrev pub div_i64 : ℕ → ℕ → ℕ
div_i64 a b =
    let q = magnitude a / magnitude b in
    if is_neg a then (if is_neg b then q else neg64 q) else if is_neg b then neg64 q else q

abbrev pub rem_i64 : ℕ → ℕ → ℕ
rem_i64 a b = let r = magnitude a % magnitude b in if is_neg a then neg64 r else r

minus_seven_halved : div_i64 (neg64 7) 2 ≡ neg64 3
minus_seven_halved = refl

minus_seven_odd : rem_i64 (neg64 7) 2 ≡ neg64 1
minus_seven_odd = refl
