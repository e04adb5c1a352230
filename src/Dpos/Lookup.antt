-- ===== src/Dpos/Lookup.antt =====
-- ValidatorSet.GetValidator: the search by address, in a rearranged or changed list.
use mathlib.Core.List.{Permᴰ}
use shardmatrix.Prelude.{
  ℕ, zero, suc, ◌≡◌, ◌≢◌, refl, ap, ◌∙◌, List, [], ◌∷◌, inl, inr, Bool-cases, get_elem?, arith,
  some, ◌==◌, if◌then◌else◌,
}
use shardmatrix.Types.{Address, Validator, slot_of, get_validator}
use shardmatrix.Dpos.{change_slot}
use shardmatrix.Dpos.Sets.{Distinct, Distinct-perm}

-- Among distinct addresses, the order does not matter to a search by address.
pub get_validator-perm :
    (a : Address) {xs ys : List Validator}
    → Permᴰ xs ys
    → Distinct xs
    → get_validator a xs ≡ get_validator a ys
unfolding get_validator
get_validator-perm a Permᴰ.nil h = refl
get_validator-perm a (Permᴰ.cons {a = x} {b = y} {l₁ = xs} {l₂ = ys} e p) h =
    let rest : get_validator a xs ≡ get_validator a ys = get_validator-perm a p h.1 in grind arith
get_validator-perm a (Permᴰ.swap {a = x} {b = y} {a' = x'} {b' = y'} {l = l} e f) h =
    let swapped : y ∷ x ∷ l ≡ x' ∷ y' ∷ l = cc in
    let apart : y.address ≢ x.address = h.0.0 in
    let there : get_validator a (x ∷ y ∷ l) ≡ get_validator a (y ∷ x ∷ l) = ground arith in
    there ∙ ap (get_validator a) swapped
get_validator-perm a (Permᴰ.trans p q) h =
    get_validator-perm a p h ∙ get_validator-perm a q (Distinct-perm p h)

pub get_validator-address :
    (a : Address) (vs : List Validator) (v : Validator)
    → get_validator a vs ≡ some v
    → v.address ≡ a
unfolding get_validator
get_validator-address a [] v e = cc
get_validator-address a (w ∷ ws) v e = ground (arith, get_validator-address a ws v)

pub get_validator-change_slot :
    (a b : Address) (f : Validator → Validator) (vs : List Validator) (i : ℕ) (v : Validator)
    → ((w : Validator) → (f w).address ≡ w.address)
    → slot_of a vs ≡ some i
    → get_validator a vs ≡ some v
    → get_validator b (change_slot f i vs) ≡ (if b == a then some (f v) else get_validator b vs)
unfolding get_validator slot_of change_slot
get_validator-change_slot a b f [] i v k s g = cc
get_validator-change_slot a b f (w ∷ ws) zero v k s g = ground (arith, k w)
get_validator-change_slot a b f (w ∷ ws) (suc i) v k s g =
    ground (arith, k w, get_validator-change_slot a b f ws i v k)

pub slot_of-found :
    (a : Address) (vs : List Validator) (v : Validator)
    → get_validator a vs ≡ some v
    → (i : ℕ) × (slot_of a vs ≡ some i) × (get_elem? vs i ≡ some v)
unfolding get_validator slot_of
slot_of-found a [] v g = cc
slot_of-found a (w ∷ ws) v g = elim (Bool-cases (w.address == a)) [
  | inl here ↦ (0, ground arith, ground arith)
  | inr other ↦
      let found : get_validator a ws ≡ some v = ground arith in
      let (i, at, there) = slot_of-found a ws v found in (suc i, ground arith, there)
]
