-- ===== src/Dpos/Health.antt =====
-- dpos.go: how well a node does, NodeHealthInfo and updateNodeActiveScore. A float64 is a value of
-- a type F with the operations that the code uses; rounding is left to them.
use shardmatrix.Prelude.{
  ℕ, ◌+◌, ◌*◌, ◌≤◌, ◌<◌, ◌≡◌, ◌^◌, Bool, false, ltb, leb, if◌then◌else◌, arith, refl,
}
use shardmatrix.Prelude.Words.{add64, sub64, lt_i64}

-- IEEE 754 arithmetic. `decimal h` is the float64 nearest to h hundredths. The two laws hold since
-- a share a / n and h / 100, both at most 1, are equal or at least 1 / (100 * n) > 2 ^ -53 apart, and
-- rounding to the nearest moves each by at most 2 ^ -54 and keeps what is equal equal; and since 0 / 0 is
-- NaN, which compares with nothing.
pub record Float64 (F : Type 0) : Type 0 where
  pub of_u64 : ℕ → F
  pub decimal : ℕ → F
  pub add : F → F → F
  pub mul : F → F → F
  pub div : F → F → F
  pub lt : F → F → Bool
  pub le : F → F → Bool
  pub lt-share :
      (a n h : ℕ)
      → 1 ≤ n
      → a ≤ n
      → n < 2 ^ 46
      → h ≤ 100
      → lt (div (of_u64 a) (of_u64 n)) (decimal h) ≡ ltb (100 * a) (h * n)
  pub lt-nan : (x : F) → lt (div (of_u64 0) (of_u64 0)) x ≡ false

pub record NodeHealthInfo (F : Type 0) : Type 0 where
  pub last_heartbeat : ℕ
  pub last_block_time : ℕ
  pub blocks_produced : ℕ
  pub missed_blocks : ℕ
  pub network_latency : ℕ
  pub is_responsive : Bool
  pub active_score : F

module _ {F : Type 0} (fl : Float64 F) where
  -- What a node starts with.
  abbrev pub new_health : NodeHealthInfo F
  new_health = record {
    last_heartbeat = 0;
    last_block_time = 0;
    blocks_produced = 0;
    missed_blocks = 0;
    network_latency = 0;
    is_responsive = false;
    active_score = fl.decimal 50;
  }

  abbrev pub heartbeat_score : ℕ → NodeHealthInfo F → F
  heartbeat_score now h =
      let age = sub64 now h.last_heartbeat in
      if lt_i64 30 age
      then fl.decimal 0
      else if lt_i64 15 age
      then fl.decimal 50
      else fl.decimal 100

  abbrev pub block_score : NodeHealthInfo F → F
  block_score h =
      let total = add64 h.blocks_produced h.missed_blocks in
      if ltb 0 total then fl.div (fl.of_u64 h.blocks_produced) (fl.of_u64 total) else fl.decimal 100

  abbrev pub latency_score : NodeHealthInfo F → F
  latency_score h =
      if lt_i64 1000 h.network_latency
      then fl.decimal 0
      else if lt_i64 500 h.network_latency
      then fl.decimal 50
      else fl.decimal 100

  -- updateNodeActiveScore
  unfoldable pub update_node_active_score : ℕ → NodeHealthInfo F → NodeHealthInfo F
  update_node_active_score now h =
      let score =
        fl.add
          (fl.add (fl.mul (heartbeat_score now h) (fl.decimal 40))
            (fl.mul (block_score h) (fl.decimal 35)))
          (fl.mul (latency_score h) (fl.decimal 25)) in
      record h { active_score = score; is_responsive = fl.le (fl.decimal 60) score }

-- Exact fractions, an instance for running the model.
pub fraction_share : (a n h : ℕ) → ltb (a * 1 * 100) (h * (1 * n)) ≡ ltb (100 * a) (h * n)
fraction_share a n h =
    let e : a * 1 * 100 ≡ 100 * a = omega arith in
    let g : h * (1 * n) ≡ h * n = omega arith in rw (e, g) refl

pub fraction_nan : (a b : ℕ) → ltb (0 * 1 * b) (a * (1 * 0)) ≡ false
fraction_nan a b = let z : a * (1 * 0) ≡ 0 = omega arith in rw z (ground arith)

unfoldable pub fractions : Float64 (ℕ × ℕ)
fractions = record {
  of_u64 = λ a. (a, 1);
  decimal = λ h. (h, 100);
  add = λ x y. (x.0 * y.1 + y.0 * x.1, x.1 * y.1);
  mul = λ x y. (x.0 * y.0, x.1 * y.1);
  div = λ x y. (x.0 * y.1, x.1 * y.0);
  lt = λ x y. ltb (x.0 * y.1) (y.0 * x.1);
  le = λ x y. leb (x.0 * y.1) (y.0 * x.1);
  lt-share = λ a n h some_n part few share. fraction_share a n h;
  lt-nan = λ x. fraction_nan x.0 x.1;
}
