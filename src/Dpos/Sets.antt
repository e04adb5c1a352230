-- ===== src/Dpos/Sets.antt =====
-- dpos.go: what a write to one slot, a sort and a cut keep of the list of validators.
use mathlib.Core.Path.{subst}
use mathlib.Core.List.{Permᴰ}
use mathlib.Core.List.Permᴰ as PermD
use shardmatrix.Prelude.{
  ℕ, zero, suc, ◌≤◌, ◌≡◌, ◌≢◌, refl, sym, ap, List, [], ◌∷◌, ◌++◌, All, All-append, All-take,
  length, take, drop, arith, none,
}
use shardmatrix.Prelude.Words.{add64}
use shardmatrix.Types.{Address, Validator, slot_of}
use shardmatrix.Dpos.{change_slot}
use shardmatrix.Prelude.Permutations.{All-perm}
use shardmatrix.Dpos.Sorting.{Sorter, IsSorted}

-- The voting power is the stake and what is delegated.
abbrev pub PowerAddsUp : Validator → Type 0
PowerAddsUp v = v.vote_power ≡ add64 v.stake_amount v.delegated_amt

abbrev pub Distinct : List Validator → Type 0
Distinct [] = Unit
Distinct (v ∷ vs) = All (λ w. w.address ≢ v.address) vs × Distinct vs

pub record IsSound (vs : List Validator) : Type 0 where
  pub power : All PowerAddsUp vs
  pub order : IsSorted vs
  pub distinct : Distinct vs

-- A write that keeps what all validators have.
pub change_slot-All :
    (P : Validator → Type 0) (f : Validator → Validator) (i : ℕ) (vs : List Validator)
    → ((v : Validator) → P v → P (f v))
    → All P vs
    → All P (change_slot f i vs)
unfolding change_slot
change_slot-All P f i [] k h = tt
change_slot-All P f zero (v ∷ vs) k h = (k v h.0, h.1)
change_slot-All P f (suc i) (v ∷ vs) k h = (h.0, change_slot-All P f i vs k h.1)

pub change_slot-Distinct :
    (f : Validator → Validator) (i : ℕ) (vs : List Validator)
    → ((v : Validator) → (f v).address ≡ v.address)
    → Distinct vs
    → Distinct (change_slot f i vs)
unfolding change_slot
change_slot-Distinct f i [] k h = tt
change_slot-Distinct f zero (v ∷ vs) k h = (rw (k v) h.0, h.1)
change_slot-Distinct f (suc i) (v ∷ vs) k h = (
  change_slot-All (λ w. w.address ≢ v.address) f i vs (λ w n. rw (k w) n) h.0,
  change_slot-Distinct f i vs k h.1,
)

pub change_slot-IsSorted :
    (f : Validator → Validator) (i : ℕ) (vs : List Validator)
    → ((v : Validator) → (f v).vote_power ≡ v.vote_power)
    → IsSorted vs
    → IsSorted (change_slot f i vs)
unfolding change_slot
change_slot-IsSorted f i [] k h = tt
change_slot-IsSorted f zero (v ∷ vs) k h = (rw (k v) h.0, h.1)
change_slot-IsSorted f (suc i) (v ∷ vs) k h = (
  change_slot-All (λ w. w.vote_power ≤ v.vote_power) f i vs (λ w n. rw (k w) n) h.0,
  change_slot-IsSorted f i vs k h.1,
)

pub Distinct-perm : {xs ys : List Validator} → Permᴰ xs ys → Distinct xs → Distinct ys
Distinct-perm Permᴰ.nil h = tt
Distinct-perm (Permᴰ.cons {a = x} e p) h =
    (rw (← e) (All-perm (λ w. w.address ≢ x.address) p h.0), Distinct-perm p h.1)
Distinct-perm (Permᴰ.swap {a = x} {b = y} {a' = x'} {b' = y'} {l = l} e f) h =
    let swapped : y ∷ x ∷ l ≡ x' ∷ y' ∷ l = cc in
    subst Distinct swapped ((λ q. h.0.0 (sym q), h.1.0), (h.0.1, h.1.1))
Distinct-perm (Permᴰ.trans p q) h = Distinct-perm q (Distinct-perm p h)

pub Distinct-take : (n : ℕ) (vs : List Validator) → Distinct vs → Distinct (take n vs)
Distinct-take zero vs h = tt
Distinct-take (suc n) [] h = tt
Distinct-take (suc n) (v ∷ vs) h =
    (All-take (λ w. w.address ≢ v.address) n vs h.0, Distinct-take n vs h.1)

pub IsSorted-take : (n : ℕ) (vs : List Validator) → IsSorted vs → IsSorted (take n vs)
IsSorted-take zero vs h = tt
IsSorted-take (suc n) [] h = tt
IsSorted-take (suc n) (v ∷ vs) h =
    (All-take (λ w. w.vote_power ≤ v.vote_power) n vs h.0, IsSorted-take n vs h.1)

-- A new address that no validator has.
pub absent : (a : Address) (vs : List Validator) → slot_of a vs ≡ none → All (λ w. w.address ≢ a) vs
unfolding slot_of
absent a [] h = tt
absent a (v ∷ vs) h = ground (arith, absent a vs)

pub Distinct-snoc :
    (vs : List Validator) (v : Validator)
    → All (λ w. w.address ≢ v.address) vs
    → Distinct vs
    → Distinct (vs ++ v ∷ [])
Distinct-snoc [] v n h = (tt, tt)
Distinct-snoc (w ∷ ws) v n h = (
  All-append (λ x. x.address ≢ w.address) ws (v ∷ []) h.0 (λ q. n.0 (sym q), tt),
  Distinct-snoc ws v n.1 h.1,
)

pub sorted-IsSound :
    (sorter : Sorter) (vs : List Validator)
    → All PowerAddsUp vs
    → Distinct vs
    → IsSound (sorter.sort vs)
sorted-IsSound sorter vs p h = record {
  power = All-perm PowerAddsUp (PermD.symm (sorter.sort-perm vs)) p;
  order = sorter.sort-IsSorted vs;
  distinct = Distinct-perm (PermD.symm (sorter.sort-perm vs)) h;
}

All-drop : (P : Validator → Type 0) (n : ℕ) (vs : List Validator) → All P vs → All P (drop n vs)
All-drop P zero vs h = h
All-drop P (suc n) [] h = tt
All-drop P (suc n) (v ∷ vs) h = All-drop P n vs h.1

-- Of a list in order, what is cut off behind n has no more power than what stays.
pub cut_off_below :
    (n : ℕ) (vs : List Validator)
    → IsSorted vs
    → All (λ v. All (λ w. w.vote_power ≤ v.vote_power) (drop n vs)) (take n vs)
cut_off_below zero vs h = tt
cut_off_below (suc n) [] h = tt
cut_off_below (suc n) (v ∷ vs) h =
    (All-drop (λ w. w.vote_power ≤ v.vote_power) n vs h.0, cut_off_below n vs h.1)

pub length-take_le : (n : ℕ) (vs : List Validator) → length (take n vs) ≤ n
length-take_le zero vs = omega arith
length-take_le (suc n) [] = omega arith
length-take_le (suc n) (v ∷ vs) = omega (arith, length-take_le n vs)

pub take-drop : (n : ℕ) (vs : List Validator) → take n vs ++ drop n vs ≡ vs
take-drop zero vs = refl
take-drop (suc n) [] = refl
take-drop (suc n) (v ∷ vs) = ap (λ (rest : List Validator). v ∷ rest) (take-drop n vs)
