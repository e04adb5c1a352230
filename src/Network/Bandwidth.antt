-- ===== src/Network/Bandwidth.antt =====
-- network.go: the bytes that calls of checkBandwidth allow in a time.
use shardmatrix.Prelude.{
  ℕ, zero, suc, ◌+◌, ◌-◌, ◌*◌, ◌≤◌, ◌≡◌, refl, List, [], ◌∷◌, leb, if◌then◌else◌, arith, inl, inr,
  Bool-cases, leb→le,
}
use shardmatrix.Network.{BandwidthLimiter, second}
use shardmatrix.Network.Sending.{check_bandwidth, reset_bucket, required_tokens}

-- A call of checkBandwidth.
pub record Attempt : Type 0 where
  pub at : ℕ
  pub bytes : ℕ

-- The bytes of the calls that are allowed.
unfoldable pub bytes_allowed : List Attempt → BandwidthLimiter → ℕ
unfolding check_bandwidth
bytes_allowed [] l = 0
bytes_allowed (a ∷ attempts) l =
    let (fits, l') = check_bandwidth a.at a.bytes l in
    let rest = bytes_allowed attempts l' in if fits then a.bytes + rest else rest

-- The calls come in the order of time, from `start` to `stop`.
abbrev pub Between : ℕ → ℕ → List Attempt → Type 0
Between start stop [] = start ≤ stop
Between start stop (a ∷ attempts) = (start ≤ a.at) × Between a.at stop attempts

-- A limiter whose tokens are bytes and fit the bucket.
pub record IsLimiter (b : ℕ) (l : BandwidthLimiter) : Type 0 where
  pub size : l.bucket_size ≡ b
  pub unit : l.bytes_per_token ≡ 1
  pub fits : l.tokens ≤ b

reset-IsLimiter :
    (b now : ℕ) (l : BandwidthLimiter) → IsLimiter b l → IsLimiter b (reset_bucket now l)
reset-IsLimiter b now l h =
    let a = h.size in
    let u = h.unit in
    let f = h.fits in record { size = ground arith; unit = ground arith; fits = ground arith }

mul_le : (b : ℕ) {x y : ℕ} → x ≤ y → b * x ≤ b * y
mul_le zero h = omega arith
mul_le (suc b) h = omega (arith, mul_le b h)

-- The tokens after the first lines of checkBandwidth cost no more than the time that has passed is worth.
reset-worth :
    (b now : ℕ) (l : BandwidthLimiter)
    → IsLimiter b l
    → l.last_reset ≤ now
    → let l' = reset_bucket now l in
      (l'.last_reset ≤ now)
      × (l'.tokens * second + b * l.last_reset ≤ l.tokens * second + b * l'.last_reset)
reset-worth b now l h later =
    let a = h.size in
    elim (Bool-cases (leb (l.last_reset + second) now)) [
      | inl due ↦
          let passed = leb→le (l.last_reset + second) now due in
          let worth = mul_le b passed in rw due (omega arith, rw a (omega arith))
      | inr early ↦ rw early (later, omega arith)
    ]

-- What a call of checkBandwidth allows, with what it leaves, costs no more than it had and the time is worth.
check-worth :
    (b now size : ℕ) (l : BandwidthLimiter)
    → IsLimiter b l
    → l.last_reset ≤ now
    → let r = check_bandwidth now size l in
      IsLimiter b r.1
      × (r.1.last_reset ≤ now)
      × ((if r.0 then size else 0) * second + r.1.tokens * second + b * l.last_reset
          ≤ l.tokens * second + b * r.1.last_reset)
unfolding check_bandwidth
check-worth b now size l h later =
    let l' = reset_bucket now l in
    let h' = reset-IsLimiter b now l h in
    let (earlier, worth) = reset-worth b now l h later in
    let full = h'.size in
    let unit = h'.unit in
    let fits = h'.fits in
    let enough : size ≤ required_tokens size l' = rw unit (ground arith) in
    elim (Bool-cases (leb (required_tokens size l') l'.tokens)) [
      | inl allowed ↦
          let covered = leb→le (required_tokens size l') l'.tokens allowed in
          rw (check_bandwidth, allowed)
            (record { size = full; unit = unit; fits = omega arith }, earlier, omega arith)
      | inr refused ↦ rw (check_bandwidth, refused) (h', earlier, omega arith)
    ]

worth-bytes_allowed :
    (b start stop : ℕ) (attempts : List Attempt) (l : BandwidthLimiter)
    → IsLimiter b l
    → l.last_reset ≤ start
    → Between start stop attempts
    → bytes_allowed attempts l * second + b * l.last_reset ≤ l.tokens * second + b * stop
unfolding bytes_allowed
worth-bytes_allowed b start stop [] l h later between =
    let passed : l.last_reset ≤ stop = omega arith in let worth = mul_le b passed in omega arith
worth-bytes_allowed b start stop (a ∷ attempts) l h later (next, between) =
    let r = check_bandwidth a.at a.bytes l in
    let (h', later', worth) = check-worth b a.at a.bytes l h (omega arith) in
    let rest = worth-bytes_allowed b a.at stop attempts r.1 h' later' between in
    elim (Bool-cases r.0) [
      | inl fits ↦ let w = rw fits at worth in rw (bytes_allowed, fits) (omega arith)
      | inr refused ↦ let w = rw refused at worth in rw (bytes_allowed, refused) (omega arith)
    ]

Between-le : (start stop : ℕ) (attempts : List Attempt) → Between start stop attempts → start ≤ stop
Between-le start stop [] h = h
Between-le start stop (a ∷ attempts) (next, h) =
    let rest = Between-le a.at stop attempts h in omega arith

-- A time and what it is worth.
worth_of_gap : (b r gap stop : ℕ) → stop ≡ gap + r → b * stop ≡ b * gap + b * r
worth_of_gap b r gap stop e = rw e (omega arith)

scaled :
    (bytes b tokens r gap stop : ℕ)
    → tokens ≤ b
    → bytes * second + b * r ≤ tokens * second + b * stop
    → b * stop ≡ b * gap + b * r
    → bytes * second ≤ b * (second + gap)
scaled bytes b tokens r gap stop fits worth split = omega arith

-- Calls of checkBandwidth in the order of time, the first not before the limiter's last reset and all by
-- `stop`, where tokens are bytes and do not exceed the bucket. If no one sets the limit between
-- them, the bytes that they allow are at most the bucket, and the bucket for each second since the last reset: `bytes *
-- second ≤ bucket * (second + (stop - last_reset))`.
pub bytes_allowed-bounded :
    (start stop : ℕ) (attempts : List Attempt) (l : BandwidthLimiter)
    → l.bytes_per_token ≡ 1
    → l.tokens ≤ l.bucket_size
    → l.last_reset ≤ start
    → Between start stop attempts
    → bytes_allowed attempts l * second ≤ l.bucket_size * (second + (stop - l.last_reset))
bytes_allowed-bounded start stop attempts l unit fits later between =
    let worth =
      worth-bytes_allowed l.bucket_size start stop attempts l
        (record { size = refl; unit = unit; fits = fits }) later between in
    let ordered = Between-le start stop attempts between in
    let gap = worth_of_gap l.bucket_size l.last_reset (stop - l.last_reset) stop (omega arith) in
    scaled (bytes_allowed attempts l) l.bucket_size l.tokens l.last_reset (stop - l.last_reset) stop
      fits worth gap
