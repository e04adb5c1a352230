-- ===== src/Dpos/Storing.antt =====
-- dpos.go: what reaches the storage.
use mathlib.Core.List.{Permᴰ}
use mathlib.Core.List.Permᴰ as PermD
use shardmatrix.Prelude.{
  ℕ, ◌<◌, ◌≡◌, ◌≢◌, ◌⊎◌, refl, ap, List, [], ◌∷◌, ◌++◌, inl, inr, Option-cases, Bool-cases, true,
  ok, drop, arith, some, ltb,
}
use shardmatrix.Storage.{Storage}
use shardmatrix.Types.{Validator, slot_of, validator_count, min_stake_amount}
use shardmatrix.Dpos.{
  Dpos, change_slot, change_and_save, save_slot, save_removed, delegate, add_validator, delegated,
  admitted,
}
use shardmatrix.Prelude.Permutations.{All-perm, length-perm}
use shardmatrix.Dpos.Sorting.{Sorter, IsSorted}

-- Two validators, of which the second has more power, change places.
two_swapped_from :
    (u w : Validator) (xs : List Validator)
    → u.vote_power < w.vote_power
    → Permᴰ xs (u ∷ w ∷ [])
    → IsSorted xs
    → xs ≡ w ∷ u ∷ []
two_swapped_from u w [] h p s = absurd (omega (arith, length-perm p))
two_swapped_from u w (x ∷ []) h p s = absurd (omega (arith, length-perm p))
two_swapped_from u w (x ∷ y ∷ z ∷ zs) h p s = absurd (omega (arith, length-perm p))
two_swapped_from u w (x ∷ y ∷ []) h p s =
    let (x_is, (y_is, _)) =
      All-perm (λ t. (t ≡ u) ⊎ (t ≡ w)) (PermD.symm p) (inl refl, (inr refl, tt)) in
    let only_u : x ≡ u → y ≡ u → w ≡ u = λ a b. (All-perm (λ t. t ≡ u) p (a, (b, tt))).1.0 in
    let only_w : x ≡ w → y ≡ w → u ≡ w = λ a b. (All-perm (λ t. t ≡ w) p (a, (b, tt))).0 in
    elim x_is [
      | inl x_u ↦ elim y_is [
        | inl y_u ↦ absurd (omega (arith, ap (λ t. t.vote_power) (only_u x_u y_u)))
        | inr y_w ↦
            absurd (omega (arith, s.0.0, ap (λ t. t.vote_power) x_u, ap (λ t. t.vote_power) y_w))
      ]
      | inr x_w ↦ elim y_is [
        | inl y_u ↦ cc
        | inr y_w ↦ absurd (omega (arith, ap (λ t. t.vote_power) (only_w x_w y_w)))
      ]
    ]

module _ {S F : Type 0} (st : Storage S) (sorter : Sorter) where
  -- Let there be two validators u and v, in this order, with different addresses, and let a Delegate of an
  -- amount to v give it more power than u has. Then Delegate writes u, as it was, to the storage and
  -- nothing else, although the list has the changed v, in front of u.
  delegate_saves_overtaken :
      (u v : Validator) (amount : ℕ) (d : Dpos S F)
      → d.validators ≡ u ∷ v ∷ []
      → u.address ≢ v.address
      → u.vote_power < (delegated amount v).vote_power
      → let d' = (delegate st sorter v.address amount d).1 in
        (d'.validators ≡ delegated amount v ∷ u ∷ [])
        × (d'.storage ≡ (st.save_validator u d.storage).1)
  unfolding delegate change_and_save save_slot slot_of change_slot
  delegate_saves_overtaken u v amount d two apart overtakes =
      let swapped =
        two_swapped_from u (delegated amount v) (sorter.sort (u ∷ delegated amount v ∷ []))
          overtakes (sorter.sort-perm _) (sorter.sort-IsSorted _) in
      let slot : slot_of v.address d.validators ≡ some 1 = rw two (ground arith) in
      let outcome : delegate st sorter v.address amount d
          ≡ save_slot st sorter 1 (record d { validators = delegated amount v ∷ u ∷ [] }) =
        rw (delegate, slot, change_and_save, two, change_slot, swapped) refl in
      rw outcome (refl, refl)

  -- Over a storage in which a validator that was written without error reads as written: after an
  -- AddValidator that succeeds, the storage has the new validator as an active one, also where the
  -- list of 21 did not take it in.
  add_validator_stores_active :
      (v : Validator) (d : Dpos S F)
      → ((w : Validator) (s : S)
          → (st.save_validator w s).0 ≡ true
          → st.get_validator w.address (st.save_validator w s).1 ≡ some w)
      → (add_validator st sorter v d).0 ≡ ok tt
      → st.get_validator v.address (add_validator st sorter v d).1.storage ≡ some (admitted v)
  unfolding add_validator
  add_validator_stores_active v d reads success =
      elim (Option-cases (slot_of v.address d.validators)) [
        | inr (i, e) ↦ absurd (ground arith)
        | inl free ↦ elim (Bool-cases (ltb v.stake_amount min_stake_amount)) [
          | inl low ↦ absurd (ground arith)
          | inr enough ↦
              let s =
                save_removed st
                  (drop validator_count (sorter.sort (d.validators ++ admitted v ∷ [])))
                  d.storage in
              let saved : (st.save_validator (admitted v) s).0 ≡ true = ground arith in
              rw (add_validator, free, enough) (reads (admitted v) s saved)
        ]
      ]
