-- ===== src/Types/Rotation.antt =====
-- The rotation of block producers: each of n validators has one turn in n heights.
use native.Mathlib.Nat.{mod-add-mod, add_comm}
use shardmatrix.Prelude.{
  ℕ, ◌+◌, ◌-◌, ◌%◌, ◌<◌, ◌≡◌, ap, refl, List, [], ◌∷◌, arith, length, get_elem?, ◌∙◌, sym,
}
use shardmatrix.Types.{Validator, validator_at}

-- The height at or after `height` at which slot i of n is next.
abbrev pub next_turn : ℕ → ℕ → ℕ → ℕ
next_turn n height i = height + (i + n - height % n) % n

wrap_once : (i n : ℕ) → i < n → (i + n) % n ≡ i
wrap_once i n h = grind arith

next_turn-mod : (n height i : ℕ) → i < n → next_turn n height i % n ≡ i
next_turn-mod n height i h =
    let gap = i + n - height % n in
    let whole : height % n + gap ≡ i + n = omega arith in
    ap (λ (t : ℕ). t % n) (add_comm height (gap % n))
    ∙ mod-add-mod gap n height
    ∙ ap (λ (t : ℕ). t % n) (add_comm gap height)
    ∙ sym (mod-add-mod height n gap)
    ∙ ap (λ (t : ℕ). t % n) whole
    ∙ wrap_once i n h

validator_at-mod :
    (vs : List Validator) (height : ℕ) → validator_at vs height ≡ get_elem? vs (height % length vs)
unfolding validator_at
validator_at-mod [] height = refl
validator_at-mod (v ∷ vs) height = refl

-- Two heights of one window of n that fall on the same slot are equal.
turn_once : (n height j k : ℕ) → j < n → k < n → (height + j) % n ≡ (height + k) % n → j ≡ k
turn_once n height j k hj hk e = grind arith

-- Among n validators, the one in slot i < n produces at one height of any n consecutive heights,
-- `next_turn`, and the rule `height % n` names its slot at no other height of the window.
validator_at-next_turn :
    (vs : List Validator) (height i : ℕ)
    → i < length vs
    → (next_turn (length vs) height i < height + length vs)
      × (validator_at vs (next_turn (length vs) height i) ≡ get_elem? vs i)
      × ((k : ℕ)
          → k < length vs
          → (height + k) % length vs ≡ i
          → height + k ≡ next_turn (length vs) height i)
validator_at-next_turn vs height i h = (
  omega arith,
  validator_at-mod vs _ ∙ ap (get_elem? vs) (next_turn-mod (length vs) height i h),
  λ k hk e.
      ap (λ (t : ℕ). height + t)
        (turn_once (length vs) height k ((i + length vs - height % length vs) % length vs) hk
          (omega arith) (e ∙ sym (next_turn-mod (length vs) height i h))),
)
