-- ===== src/Dpos/Sorting.antt =====
-- The validators in order of voting power, and what `sort.Slice` promises.
use mathlib.Core.List.{Permᴰ}
use mathlib.Core.List.Permᴰ as PermD
use shardmatrix.Prelude.{
  ℕ, ◌≤◌, refl, List, [], ◌∷◌, All, leb, if◌then◌else◌, arith, Bool-cases, inl, inr,
}
use shardmatrix.Prelude.Permutations.{All-perm}
use shardmatrix.Types.{Validator}

-- Descending voting power.
abbrev pub IsSorted : List Validator → Type 0
IsSorted [] = Unit
IsSorted (v ∷ vs) = All (λ w. w.vote_power ≤ v.vote_power) vs × IsSorted vs

-- `sort.Slice` by descending power: some rearrangement that is in order. Which one, among
-- validators of equal power, is left open, as the package does.
pub record Sorter : Type 0 where
  pub sort : List Validator → List Validator
  pub sort-perm : (vs : List Validator) → Permᴰ (sort vs) vs
  pub sort-IsSorted : (vs : List Validator) → IsSorted (sort vs)

-- Insertion sort, an instance of the contract for running the model.
unfoldable pub insert_by_power : Validator → List Validator → List Validator
insert_by_power v [] = v ∷ []
insert_by_power v (w ∷ ws) =
    let rest = w ∷ insert_by_power v ws in
    if leb w.vote_power v.vote_power then v ∷ w ∷ ws else rest

unfoldable pub insertion_sort : List Validator → List Validator
unfolding insert_by_power
insertion_sort [] = []
insertion_sort (v ∷ vs) = insert_by_power v (insertion_sort vs)

insert_by_power-perm : (v : Validator) (vs : List Validator) → Permᴰ (insert_by_power v vs) (v ∷ vs)
unfolding insert_by_power
insert_by_power-perm v [] = Permᴰ.cons refl Permᴰ.nil
insert_by_power-perm v (w ∷ ws) = elim (Bool-cases (leb w.vote_power v.vote_power)) [
  | inl here ↦ rw here (PermD.refl (v ∷ w ∷ ws))
  | inr later ↦
      rw later (Permᴰ.trans (Permᴰ.cons refl (insert_by_power-perm v ws)) (Permᴰ.swap refl refl))
]

pub insertion_sort-perm : (vs : List Validator) → Permᴰ (insertion_sort vs) vs
unfolding insertion_sort
insertion_sort-perm [] = Permᴰ.nil
insertion_sort-perm (v ∷ vs) =
    Permᴰ.trans (insert_by_power-perm v (insertion_sort vs))
      (Permᴰ.cons refl (insertion_sort-perm vs))

All-weaken :
    (a b : ℕ) (vs : List Validator)
    → a ≤ b
    → All (λ w. w.vote_power ≤ a) vs
    → All (λ w. w.vote_power ≤ b) vs
All-weaken a b [] h k = tt
All-weaken a b (v ∷ vs) h k = (omega arith, All-weaken a b vs h k.1)

insert_by_power-IsSorted :
    (v : Validator) (vs : List Validator) → IsSorted vs → IsSorted (insert_by_power v vs)
unfolding insert_by_power
insert_by_power-IsSorted v [] h = (tt, tt)
insert_by_power-IsSorted v (w ∷ ws) h = elim (Bool-cases (leb w.vote_power v.vote_power)) [
  | inl here ↦
      let le : w.vote_power ≤ v.vote_power = ground arith in
      rw here ((le, All-weaken w.vote_power v.vote_power ws le h.0), h)
  | inr later ↦
      let le : v.vote_power ≤ w.vote_power = ground arith in
      rw later (
        All-perm (λ x. x.vote_power ≤ w.vote_power) (PermD.symm (insert_by_power-perm v ws))
            (le, h.0),
        insert_by_power-IsSorted v ws h.1,
      )
]

pub insertion_sort-IsSorted : (vs : List Validator) → IsSorted (insertion_sort vs)
unfolding insertion_sort
insertion_sort-IsSorted [] = tt
insertion_sort-IsSorted (v ∷ vs) =
    insert_by_power-IsSorted v (insertion_sort vs) (insertion_sort-IsSorted vs)

unfoldable pub by_insertion : Sorter
unfolding insertion_sort
by_insertion = record {
  sort = insertion_sort;
  sort-perm = insertion_sort-perm;
  sort-IsSorted = insertion_sort-IsSorted;
}
