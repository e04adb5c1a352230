-- ===== src/Dpos/Producing.antt =====
-- dpos.go: who may produce a block, and which blocks are accepted.
use shardmatrix.Prelude.{
  ℕ, ◌≤◌, ◌%◌, ◌≡◌, ◌↔◌, refl, List, [], ◌∷◌, All, All-get_elem?, inl, inr, Option-cases, Bool,
  false, true, ok, length, get_elem?-lt, arith, Option, some, none, ==-refl, if◌then◌else◌,
}
use shardmatrix.Primitives.{Primitives}
use shardmatrix.Crypto.{verify_block}
use shardmatrix.TimeControl.{TimeController}
use shardmatrix.TimeControl
use shardmatrix.Types.{Address, Block, Validator, get_validator, active_of, validator_at}
use shardmatrix.Dpos.{
  Dpos, current_validator, is_current_validator, validate_block, get_active_validator_count,
}
use shardmatrix.Dpos.Sets.{Distinct}

All-both :
    {P Q R : Validator → Type 0} (vs : List Validator)
    → ((v : Validator) → P v → Q v → R v)
    → All P vs
    → All Q vs
    → All R vs
All-both [] k p q = tt
All-both (v ∷ vs) k p q = (k v p.0 q.0, All-both vs k p.1 q.1)

-- With distinct addresses, each validator is the one that its address finds.
found_by_address :
    (vs : List Validator) → Distinct vs → All (λ v. get_validator v.address vs ≡ some v) vs
unfolding get_validator
found_by_address [] h = tt
found_by_address (v ∷ vs) h = (
  rw (==-refl v.address) refl,
  All-both vs (λ w apart e. ground arith) h.0 (found_by_address vs h.1),
)

keep_if :
    (P : Validator → Type 0) (b : Bool) (v : Validator) (vs : List Validator)
    → (b ≡ true → P v)
    → All P vs
    → All P (if b then v ∷ vs else vs)
keep_if P true v vs h k = (h refl, k)
keep_if P false v vs h k = k

active_of-All :
    (P : Validator → Type 0) (vs : List Validator)
    → All P vs
    → All (λ v. (v.is_active ≡ true) × P v) (active_of vs)
unfolding active_of
active_of-All P [] h = tt
active_of-All P (v ∷ vs) h =
    keep_if (λ w. (w.is_active ≡ true) × P w) v.is_active v (active_of vs) (λ active. (active, h.0))
      (active_of-All P vs h.1)

validator_at-some :
    (P : Validator → Type 0) (vs : List Validator) (height : ℕ)
    → 1 ≤ length vs
    → All P vs
    → (v : Validator) × (validator_at vs height ≡ some v) × P v
unfolding validator_at
validator_at-some P [] height h all = absurd (omega arith)
validator_at-some P (v ∷ vs) height h all =
    let (w, e) = get_elem?-lt (v ∷ vs) (height % length (v ∷ vs)) (omega arith) in
    (w, e, All-get_elem? P (v ∷ vs) _ all e)

abbrev pub ClockAccepts : {C : Type 0} → Option (TimeController C) → Block → Type 0
ClockAccepts none b = Unit
ClockAccepts (some tc) b = TimeControl.validate_block tc b ≡ ok tt

module _ {S F : Type 0} where
  -- With distinct addresses, and at least one active validator, every height has one validator v
  -- whose turn it is: v is active, v is the one that its address finds, and IsCurrentValidator holds at that height
  -- for the address of v and for no other.
  pub one_producer :
      (d : Dpos S F) (height : ℕ)
      → Distinct d.validators
      → 1 ≤ get_active_validator_count d
      → (v : Validator) × (current_validator d height ≡ ok v)
        × (v.is_active ≡ true)
        × (get_validator v.address d.validators ≡ some v)
        × ((a : Address) → (is_current_validator d a height ≡ true) ↔ (a ≡ v.address))
  unfolding current_validator is_current_validator get_active_validator_count validator_at
  one_producer d height h some_active =
      let found = active_of-All _ d.validators (found_by_address d.validators h) in
      let (v, at, (active, at_address)) =
        validator_at-some _ (active_of d.validators) height some_active found in
      (
        v,
        rw (current_validator, at) refl,
        active,
        at_address,
        λ a. (λ e. ground arith, λ e. ground arith),
      )

  -- ValidateBlock accepts a block exactly if its producer is an active validator, it is the
  -- producer's turn at the block's height, the header's signature verifies under the public key that the
  -- validator has, and the time controller, if there is one, accepts the block.
  pub validate_block-ok_iff :
      {C : Type 0} (p : Primitives) (clock : Option (TimeController C)) (d : Dpos S F) (b : Block)
      → (validate_block p clock d b ≡ ok tt) ↔ (
          (v : Validator) × (get_validator b.header.validator d.validators ≡ some v)
          × (v.is_active ≡ true)
          × (is_current_validator d b.header.validator b.header.number ≡ true)
          × (verify_block p b.header v.public_key ≡ true)
          × ClockAccepts clock b)
  unfolding validate_block
  validate_block-ok_iff p none d b = (
    λ h. elim (Option-cases (get_validator b.header.validator d.validators)) [
      | inl missing ↦ absurd (ground arith)
      | inr (v, e) ↦ (v, e, ground arith, ground arith, ground arith, ground arith)
    ],
    λ h. ground arith,
  )
  validate_block-ok_iff p (some tc) d b = (
    λ h. elim (Option-cases (get_validator b.header.validator d.validators)) [
      | inl missing ↦ absurd (ground arith)
      | inr (v, e) ↦ (v, e, ground arith, ground arith, ground arith, ground arith)
    ],
    λ h. ground arith,
  )
