-- ===== src/Dpos/Calls.antt =====
-- dpos.go: what every call from outside leaves true of the validators.
use mathlib.Core.List.{Permᴰ}
use shardmatrix.Prelude.{
  ℕ, ◌≤◌, ◌≡◌, refl, List, [], ◌∷◌, ◌++◌, inl, inr, false, Option-cases, Bool-cases, All,
  All-append, All-take, length, take, drop, get_elem?, arith, none, ltb,
}
use shardmatrix.Storage.{Storage}
use shardmatrix.Types.{Address, Validator, slot_of, min_stake_amount, validator_count}
use shardmatrix.Dpos.{
  Dpos, change_slot, save_slot, change_and_save, delegate, undelegate, slash_validator,
  remove_validator, add_validator, delegated, undelegated, slashed, admitted, deactivated,
}
use shardmatrix.Dpos.Watch.{auto_adjust_validators}
use shardmatrix.Dpos.Watch.Keeps.{auto_adjust_validators-IsSound}
use shardmatrix.Dpos.Sorting.{Sorter}
use shardmatrix.Dpos.Sets.{
  PowerAddsUp, IsSound, change_slot-All, change_slot-Distinct, change_slot-IsSorted, Distinct-take,
  IsSorted-take, absent, Distinct-snoc, sorted-IsSound, cut_off_below, length-take_le, take-drop,
}

pub data Call : Type 0 where
  to_delegate to_undelegate : Address → ℕ → Call
  to_slash to_remove : Address → Call
  to_add : Validator → Call
  to_check : ℕ → Call

slashed-PowerAddsUp : (v : Validator) → PowerAddsUp v → PowerAddsUp (slashed v)
slashed-PowerAddsUp v h = ground arith

slashed-address : (v : Validator) → (slashed v).address ≡ v.address
slashed-address v = ground arith

module _ {S F : Type 0} (st : Storage S) (sorter : Sorter) where
  -- One call from outside, whatever it answers.
  abbrev pub perform : Call → Dpos S F → Dpos S F
  perform (to_delegate a n) d = (delegate st sorter a n d).1
  perform (to_undelegate a n) d = (undelegate st sorter a n d).1
  perform (to_slash a) d = (slash_validator st sorter a d).1
  perform (to_remove a) d = (remove_validator st sorter a d).1
  perform (to_add v) d = (add_validator st sorter v d).1
  perform (to_check now) d = auto_adjust_validators st sorter now d

  abbrev pub perform_all : List Call → Dpos S F → Dpos S F
  perform_all [] d = d
  perform_all (c ∷ cs) d = perform_all cs (perform c d)

  save_slot_keeps : (i : ℕ) (d : Dpos S F) → (save_slot st sorter i d).1.validators ≡ d.validators
  unfolding save_slot
  save_slot_keeps i d = ground arith

  pub change_and_save-validators :
      (f : Validator → Validator) (i : ℕ) (d : Dpos S F)
      → (change_and_save st sorter f i d).1.validators ≡ sorter.sort (change_slot f i d.validators)
  unfolding change_and_save
  change_and_save-validators f i d = save_slot_keeps i _

  change_and_save-IsSound :
      (f : Validator → Validator) (i : ℕ) (d : Dpos S F)
      → ((v : Validator) → PowerAddsUp v → PowerAddsUp (f v))
      → ((v : Validator) → (f v).address ≡ v.address)
      → IsSound d.validators
      → IsSound (change_and_save st sorter f i d).1.validators
  change_and_save-IsSound f i d p k h = rw (change_and_save-validators f i d) (
      sorted-IsSound sorter _ (change_slot-All PowerAddsUp f i d.validators p h.power)
        (change_slot-Distinct f i d.validators k h.distinct))

  perform-IsSound :
      (c : Call) (d : Dpos S F) → IsSound d.validators → IsSound (perform c d).validators
  unfolding delegate undelegate slash_validator remove_validator add_validator
  perform-IsSound (to_delegate a n) d h = elim (Option-cases (slot_of a d.validators)) [
    | inl e ↦ rw (perform, e) h
    | inr (i, e) ↦
        rw (perform, e) (change_and_save-IsSound (delegated n) i d (λ v p. refl) (λ v. refl) h)
  ]
  perform-IsSound (to_undelegate a n) d h = elim (Option-cases (slot_of a d.validators)) [
    | inl e ↦ rw (perform, e) h
    | inr (i, e) ↦
        let sound = change_and_save-IsSound (undelegated n) i d (λ v p. refl) (λ v. refl) h in
        elim (Option-cases (get_elem? d.validators i)) [
          | inl gone ↦ rw (perform, e, gone) h
          | inr (v, here) ↦ elim (Bool-cases (ltb v.delegated_amt n)) [
            | inl low ↦ rw (perform, e, here, low) h
            | inr enough ↦ rw (perform, e, here, enough) sound
          ]
        ]
  ]
  perform-IsSound (to_slash a) d h = elim (Option-cases (slot_of a d.validators)) [
    | inl e ↦ rw (perform, e) h
    | inr (i, e) ↦
        rw (perform, e) (change_and_save-IsSound slashed i d slashed-PowerAddsUp slashed-address h)
  ]
  perform-IsSound (to_remove a) d h = elim (Option-cases (slot_of a d.validators)) [
    | inl e ↦ rw (perform, e) h
    | inr (i, e) ↦
        rw
          (
            perform,
            e,
            save_slot_keeps i (record d { validators = change_slot deactivated i d.validators }),
          )
          (record {
            power = change_slot-All PowerAddsUp deactivated i d.validators (λ v p. p) h.power;
            order = change_slot-IsSorted deactivated i d.validators (λ v. refl) h.order;
            distinct = change_slot-Distinct deactivated i d.validators (λ v. refl) h.distinct;
          })
  ]
  perform-IsSound (to_add v) d h = elim (Option-cases (slot_of v.address d.validators)) [
    | inr (i, e) ↦ rw (perform, e) h
    | inl e ↦
        let sound =
          sorted-IsSound sorter (d.validators ++ admitted v ∷ [])
            (All-append PowerAddsUp d.validators (admitted v ∷ []) h.power (refl, tt))
            (Distinct-snoc d.validators (admitted v) (absent v.address d.validators e)
              h.distinct) in
        let kept : IsSound (take validator_count (sorter.sort (d.validators ++ admitted v ∷ []))) =
          record {
            power = All-take PowerAddsUp validator_count _ sound.power;
            order = IsSorted-take validator_count _ sound.order;
            distinct = Distinct-take validator_count _ sound.distinct;
          } in
        elim (Bool-cases (ltb v.stake_amount min_stake_amount)) [
          | inl low ↦ rw (perform, e, low) h
          | inr enough ↦ rw (perform, e, enough) kept
        ]
  ]
  perform-IsSound (to_check now) d h = auto_adjust_validators-IsSound st sorter now d h

  -- Take calls of Delegate, Undelegate, SlashValidator, RemoveValidator, AddValidator and
  -- autoAdjustValidators in any
  -- order, each with any arguments and whether it succeeds or not, over any storage and with any
  -- sort that keeps the elements and puts them in order. If at first every voting power is the stake
  -- plus what is delegated (as 64-bit words), the list is in descending order of power and no address
  -- stands in it twice, then all this holds at the end.
  pub perform_all-IsSound :
      (cs : List Call) (d : Dpos S F) → IsSound d.validators → IsSound (perform_all cs d).validators
  perform_all-IsSound [] d h = h
  perform_all-IsSound (c ∷ cs) d h = perform_all-IsSound cs (perform c d) (perform-IsSound c d h)

  -- After an AddValidator that finds the address free and the stake at least the minimum, the list has
  -- at most 21 validators; they and those that are cut off together are the old ones and the new one
  -- in some order, and no one that is cut off has more power than one that stays. This holds whether
  -- or not the storage then takes the new validator.
  add_validator_keeps_best :
      (v : Validator) (d : Dpos S F)
      → slot_of v.address d.validators ≡ none
      → min_stake_amount ≤ v.stake_amount
      → let kept = (add_validator st sorter v d).1.validators in
        (length kept ≤ validator_count)
        × ((cut : List Validator) × Permᴰ (kept ++ cut) (d.validators ++ admitted v ∷ [])
            × All (λ w. All (λ u. u.vote_power ≤ w.vote_power) cut) kept)
  unfolding add_validator
  add_validator_keeps_best v d free enough =
      let all = sorter.sort (d.validators ++ admitted v ∷ []) in
      let low : ltb v.stake_amount min_stake_amount ≡ false = ground arith in
      let kept : (add_validator st sorter v d).1.validators ≡ take validator_count all =
        rw (add_validator, free, low) refl in
      rw kept (
        length-take_le validator_count all,
        (
          drop validator_count all,
          rw (take-drop validator_count all) (sorter.sort-perm (d.validators ++ admitted v ∷ [])),
          cut_off_below validator_count all
              (sorter.sort-IsSorted (d.validators ++ admitted v ∷ [])),
        ),
      )
