-- ===== src/Dpos/Members.antt =====
-- dpos.go: what a call does to the validator that an address names, wherever the sort puts it.
use mathlib.Core.List.Permᴰ as PermD
use shardmatrix.Prelude.{
  ℕ, ◌+◌, ◌-◌, ◌/◌, ◌≤◌, ◌<◌, ◌≡◌, refl, sym, ap, ◌∙◌, List, inl, inr, Option-cases, Bool-cases,
  false, arith, Option, some, ltb, ◌==◌, ==-refl, if◌then◌else◌,
}
use shardmatrix.Prelude.Words.{add64, sub64, word}
use shardmatrix.Storage.{Storage}
use shardmatrix.Types.{Address, Validator, slot_of, get_validator}
use shardmatrix.Dpos.{
  Dpos, change_slot, change_and_save, delegate, undelegate, slash_validator, delegated, undelegated,
  slashed,
}
use shardmatrix.Dpos.Sorting.{Sorter}
use shardmatrix.Dpos.Sets.{Distinct, Distinct-perm, PowerAddsUp, change_slot-Distinct}
use shardmatrix.Dpos.Calls.{change_and_save-validators}
use shardmatrix.Dpos.Lookup.{get_validator-perm, get_validator-change_slot, slot_of-found}

put_back :
    (b a : Address) (vs : List Validator) (v w : Validator) {x y : Option Validator}
    → x ≡ (if b == a then some v else y)
    → y ≡ (if b == a then some w else get_validator b vs)
    → get_validator a vs ≡ some v
    → x ≡ get_validator b vs
put_back b a vs v w {y = y} x_is y_is g = elim (Bool-cases (b == a)) [
  | inl own ↦
      let same : b ≡ a = ground arith in
      x_is ∙ ap (λ t. if t then some v else y) own ∙ sym g ∙ ap (λ t. get_validator t vs) (sym same)
  | inr other ↦
      x_is
      ∙ ap (λ t. if t then some v else y) other
      ∙ y_is
      ∙ ap (λ t. if t then some w else get_validator b vs) other
]

own : {A : Type 0} (a : Address) (x y : A) → (if a == a then x else y) ≡ x
own a x y = rw (==-refl a) refl

undelegated-delegated :
    (amount : ℕ) (v : Validator)
    → PowerAddsUp v
    → v.delegated_amt + amount < word
    → undelegated amount (delegated amount v) ≡ v
undelegated-delegated amount v power fits =
    let back : sub64 (add64 v.delegated_amt amount) amount ≡ v.delegated_amt = omega arith in
    let total : add64 v.stake_amount v.delegated_amt ≡ v.vote_power = sym power in
    rw (back, total) refl

slashed-count :
    (v : Validator) → v.slash_count + 1 < word → (slashed v).slash_count ≡ v.slash_count + 1
slashed-count v h = ground arith

slashed-late :
    (v : Validator)
    → v.slash_count + 1 < word
    → 2 ≤ v.slash_count
    → ((slashed v).is_active ≡ false)
      × ((slashed v).stake_amount ≡ v.stake_amount)
      × ((slashed v).vote_power ≡ v.vote_power)
slashed-late v h late = ground arith

slashed-early :
    (v : Validator)
    → v.slash_count + 1 < word
    → v.stake_amount < word
    → v.slash_count < 2
    → ((slashed v).is_active ≡ v.is_active)
      × ((slashed v).stake_amount ≡ v.stake_amount - v.stake_amount / 10)
      × (PowerAddsUp v → PowerAddsUp (slashed v))
slashed-early v h k early = ground arith

module _ {S F : Type 0} (st : Storage S) (sorter : Sorter) where
  change_and_save-get_validator :
      (f : Validator → Validator) (a b : Address) (i : ℕ) (v : Validator) (d : Dpos S F)
      → ((w : Validator) → (f w).address ≡ w.address)
      → Distinct d.validators
      → slot_of a d.validators ≡ some i
      → get_validator a d.validators ≡ some v
      → get_validator b (change_and_save st sorter f i d).1.validators
        ≡ (if b == a then some (f v) else get_validator b d.validators)
  change_and_save-get_validator f a b i v d k h s g =
      ap (get_validator b) (change_and_save-validators st sorter f i d)
      ∙ get_validator-perm b (sorter.sort-perm (change_slot f i d.validators)) (
          Distinct-perm (PermD.symm (sorter.sort-perm _))
            (change_slot-Distinct f i d.validators k h))
      ∙ get_validator-change_slot a b f d.validators i v k s g

  -- Let the addresses of the validators be distinct, and let v be the one with address a. After a
  -- Delegate of an amount to a, a Slash of a, or an Undelegate from a of an amount that it has, the
  -- validator found under a is v with exactly the change of that call (for Delegate and Undelegate the
  -- delegated amount and the voting power anew as 64-bit words; for Slash, see `slashed`), and the one found under any
  -- other address is the one found before, whatever the sort did to the order and whether or not
  -- the storage took the write.
  pub calls_change_one :
      (a b : Address) (amount : ℕ) (v : Validator) (d : Dpos S F)
      → Distinct d.validators
      → get_validator a d.validators ≡ some v
      → (get_validator b (delegate st sorter a amount d).1.validators
          ≡ (if b == a then some (delegated amount v) else get_validator b d.validators))
        × (get_validator b (slash_validator st sorter a d).1.validators
            ≡ (if b == a then some (slashed v) else get_validator b d.validators))
        × (amount ≤ v.delegated_amt
            → get_validator b (undelegate st sorter a amount d).1.validators
              ≡ (if b == a then some (undelegated amount v) else get_validator b d.validators))
  unfolding delegate undelegate slash_validator
  calls_change_one a b amount v d h g =
      let (i, s, e) = slot_of-found a d.validators v g in
      (
        rw (delegate, s)
            (change_and_save-get_validator (delegated amount) a b i v d (λ w. refl) h s g),
        rw (slash_validator, s)
            (change_and_save-get_validator slashed a b i v d (λ w. ground arith) h s g),
        λ enough.
            let has : ltb v.delegated_amt amount ≡ false = ground arith in
            rw (undelegate, s, e, has)
              (change_and_save-get_validator (undelegated amount) a b i v d (λ w. refl) h s g),
      )

  delegate-Distinct :
      (a : Address) (amount : ℕ) (d : Dpos S F)
      → Distinct d.validators
      → Distinct (delegate st sorter a amount d).1.validators
  unfolding delegate
  delegate-Distinct a amount d h = elim (Option-cases (slot_of a d.validators)) [
    | inl e ↦ rw (delegate, e) h
    | inr (i, e) ↦
        rw (delegate, e, change_and_save-validators st sorter (delegated amount) i d)
          (Distinct-perm (PermD.symm (sorter.sort-perm _))
            (change_slot-Distinct (delegated amount) i d.validators (λ w. refl) h))
  ]

  -- Let the addresses be distinct, and let v, whose power is stake plus delegation, be the validator
  -- with address a. If what is delegated to v and the amount together stay below 2^64, then after a
  -- Delegate and an Undelegate of the same amount every address finds the validator it found before.
  pub undelegate-delegate :
      (a b : Address) (amount : ℕ) (v : Validator) (d : Dpos S F)
      → Distinct d.validators
      → get_validator a d.validators ≡ some v
      → PowerAddsUp v
      → v.delegated_amt + amount < word
      → get_validator b
          (undelegate st sorter a amount (delegate st sorter a amount d).1).1.validators
        ≡ get_validator b d.validators
  undelegate-delegate a b amount v d h g power fits =
      let d1 = (delegate st sorter a amount d).1 in
      let (go, _, _) = calls_change_one a b amount v d h g in
      let at_a : get_validator a d1.validators ≡ some (delegated amount v) =
        (calls_change_one a a amount v d h g).0 ∙ own a (some (delegated amount v)) _ in
      let (_, _, back) =
        calls_change_one a b amount (delegated amount v) d1 (delegate-Distinct a amount d h) at_a in
      let same : undelegated amount (delegated amount v) ≡ v =
        undelegated-delegated amount v power fits in
      let enough : amount ≤ (delegated amount v).delegated_amt = ground arith in
      let back_to : get_validator b (undelegate st sorter a amount d1).1.validators
          ≡ (if b == a then some v else get_validator b d1.validators) =
        back enough ∙ ap (λ w. if b == a then some w else get_validator b d1.validators) same in
      put_back b a d.validators v (delegated amount v) back_to go g

  pub slash_validator-Distinct :
      (a : Address) (d : Dpos S F)
      → Distinct d.validators
      → Distinct (slash_validator st sorter a d).1.validators
  unfolding slash_validator
  slash_validator-Distinct a d h = elim (Option-cases (slot_of a d.validators)) [
    | inl e ↦ rw (slash_validator, e) h
    | inr (i, e) ↦
        rw (slash_validator, e, change_and_save-validators st sorter slashed i d)
          (Distinct-perm (PermD.symm (sorter.sort-perm _))
            (change_slot-Distinct slashed i d.validators (λ w. ground arith) h))
  ]

  -- A Slash of the validator v with address a, the addresses being distinct, the stake and the count
  -- in 64 bits and the count not at its limit, counts one more. If v was slashed twice or more before, it is
  -- no longer active and its stake and power stay; otherwise it stays as active as it was, loses a tenth of
  -- its stake, rounded down, and its power is stake plus delegation if it was.
  pub slash_validator_punishes :
      (a : Address) (v : Validator) (d : Dpos S F)
      → Distinct d.validators
      → get_validator a d.validators ≡ some v
      → v.slash_count + 1 < word
      → v.stake_amount < word
      → (w : Validator) × (get_validator a (slash_validator st sorter a d).1.validators ≡ some w)
        × (w.slash_count ≡ v.slash_count + 1)
        × (2 ≤ v.slash_count
            → (w.is_active ≡ false)
              × (w.stake_amount ≡ v.stake_amount)
              × (w.vote_power ≡ v.vote_power))
        × (v.slash_count < 2
            → (w.is_active ≡ v.is_active)
              × (w.stake_amount ≡ v.stake_amount - v.stake_amount / 10)
              × (PowerAddsUp v → PowerAddsUp w))
  slash_validator_punishes a v d h g count stake =
      let found = (calls_change_one a a 0 v d h g).1 in
      (
        slashed v,
        found ∙ own a (some (slashed v)) _,
        slashed-count v count,
        slashed-late v count,
        slashed-early v count stake,
      )
