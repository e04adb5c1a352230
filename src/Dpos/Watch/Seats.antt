-- ===== src/Dpos/Watch/Seats.antt =====
-- dpos.go: what the health check does to the validators.
use mathlib.Core.List.Permᴰ as PermD
use shardmatrix.Prelude.{
  ℕ, ◌+◌, ◌≤◌, ◌<◌, ◌≡◌, refl, ap, ◌∙◌, true, false, Option, none, some, inl, inr, Bool-cases, List,
  [], ◌∷◌, arith, ◌==◌,
}
use shardmatrix.Prelude.Words.{word, le_i64}
use shardmatrix.Prelude.Assoc.{Assoc, lookup}
use shardmatrix.Storage.{Storage}
use shardmatrix.Types.{Address, Validator, get_validator}
use shardmatrix.Dpos.{Dpos, is_validator, slash_validator, change_and_save, save_slot}
use shardmatrix.Dpos.Sorting.{Sorter}
use shardmatrix.Dpos.Sets.{Distinct, Distinct-perm}
use shardmatrix.Dpos.Lookup.{get_validator-perm, get_validator-address}
use shardmatrix.Dpos.Members.{slash_validator-Distinct, slash_validator_punishes}
use shardmatrix.Dpos.Health.{NodeHealthInfo}
use shardmatrix.Dpos.Watch.Keeps.{adjusted-address, adjust_each-Distinct}
use shardmatrix.Dpos.Watch.{silence, adjusted, adjust_each, auto_adjust_validators}

abbrev pub map_option : {A B : Type 0} → (A → B) → Option A → Option B
map_option f none = none
map_option f (some a) = some (f a)

adjusted-back :
    {F : Type 0} (now : ℕ) (m : Assoc (NodeHealthInfo F)) (v : Validator) (h : NodeHealthInfo F)
    → lookup v.address m ≡ some h
    → v.is_active ≡ false
    → h.is_responsive ≡ true
    → le_i64 (silence now h) 60 ≡ true
    → (adjusted now m v).0.is_active ≡ true
adjusted-back now m v h known idle responsive heard = ground arith

module _ {S F : Type 0} (st : Storage S) (sorter : Sorter) where
  adjust_each-get_validator :
      (a : Address) (now : ℕ) (m : Assoc (NodeHealthInfo F)) (vs : List Validator) (s : S)
      → get_validator a (adjust_each st now m vs s).0
        ≡ map_option (λ v. (adjusted now m v).0) (get_validator a vs)
  unfolding adjust_each get_validator
  adjust_each-get_validator a now m [] s = refl
  adjust_each-get_validator a now m (v ∷ vs) s = elim (Bool-cases (v.address == a)) [
    | inl here ↦ rw (adjusted-address now m v, here) refl
    | inr other ↦ rw (adjusted-address now m v, other) (adjust_each-get_validator a now m vs _)
  ]

  -- Let the addresses be distinct. After autoAdjustValidators the validator found under an address is the one
  -- found before, switched off if it was active and its node is known, is not responsive and was silent for more than 120
  -- seconds, and switched on if it was not active and its node is known, is responsive and was silent for at most 60.
  auto_adjust_validators-get_validator :
      (a : Address) (now : ℕ) (d : Dpos S F)
      → Distinct d.validators
      → get_validator a (auto_adjust_validators st sorter now d).validators
        ≡ map_option (λ v. (adjusted now d.node_health v).0) (get_validator a d.validators)
  unfolding auto_adjust_validators
  auto_adjust_validators-get_validator a now d h =
      get_validator-perm a (sorter.sort-perm _) (
        Distinct-perm (PermD.symm (sorter.sort-perm _))
          (adjust_each-Distinct st sorter now d.node_health d.validators d.storage h))
      ∙ adjust_each-get_validator a now d.node_health d.validators d.storage

  slash_validator-node_health :
      (a : Address) (d : Dpos S F) → (slash_validator st sorter a d).1.node_health ≡ d.node_health
  unfolding slash_validator change_and_save save_slot
  slash_validator-node_health a d = ground arith

  -- Let the addresses be distinct, and let v, with address a and slashed twice or more, be slashed again, its stake and count in
  -- 64 bits and the count not at its limit. Then a is no validator any more. But if its node is known and responsive
  -- and was heard of in the last 60 seconds, then a is a validator again after the next autoAdjustValidators.
  pub slashed_returns :
      (a : Address) (v : Validator) (now : ℕ) (h : NodeHealthInfo F) (d : Dpos S F)
      → Distinct d.validators
      → get_validator a d.validators ≡ some v
      → 2 ≤ v.slash_count
      → v.slash_count + 1 < word
      → v.stake_amount < word
      → lookup a d.node_health ≡ some h
      → h.is_responsive ≡ true
      → le_i64 (silence now h) 60 ≡ true
      → let d' = (slash_validator st sorter a d).1 in
        (is_validator d' a ≡ false)
        × (is_validator (auto_adjust_validators st sorter now d') a ≡ true)
  unfolding is_validator
  slashed_returns a v now h d apart found twice count stake known responsive heard =
      let (w, at, _, out, _) = slash_validator_punishes st sorter a v d apart found count stake in
      let (idle, _, _) = out twice in
      let d' = (slash_validator st sorter a d).1 in
      let still_known : lookup a d'.node_health ≡ some h =
        ap (lookup a) (slash_validator-node_health a d) ∙ known in
      let own : w.address ≡ a = get_validator-address a d'.validators w at in
      let after : get_validator a (auto_adjust_validators st sorter now d').validators
          ≡ some (adjusted now d'.node_health w).0 =
        auto_adjust_validators-get_validator a now d' (slash_validator-Distinct st sorter a d apart)
        ∙ ap (map_option (λ u. (adjusted now d'.node_health u).0)) at in
      let back : (adjusted now d'.node_health w).0.is_active ≡ true =
        adjusted-back now d'.node_health w h (ap (λ t. lookup t d'.node_health) own ∙ still_known)
          idle responsive heard in
      (rw (is_validator, at) idle, rw (is_validator, after) back)
