-- ===== src/Dpos/Watch/Keeps.antt =====
-- dpos.go: what autoAdjustValidators keeps of the list of validators.

use shardmatrix.Prelude.{ℕ, ◌≡◌, ◌≢◌, List, [], ◌∷◌, All, arith}
use shardmatrix.Prelude.Assoc.{Assoc}
use shardmatrix.Storage.{Storage}
use shardmatrix.Types.{Address, Validator}
use shardmatrix.Dpos.{Dpos}
use shardmatrix.Dpos.Sorting.{Sorter}
use shardmatrix.Dpos.Sets.{Distinct, PowerAddsUp, IsSound, sorted-IsSound}
use shardmatrix.Dpos.Health.{NodeHealthInfo}
use shardmatrix.Dpos.Watch.{adjusted, adjust_each, auto_adjust_validators}

pub adjusted-address :
    {F : Type 0} (now : ℕ) (m : Assoc (NodeHealthInfo F)) (v : Validator)
    → (adjusted now m v).0.address ≡ v.address
adjusted-address now m v = ground arith

adjusted-PowerAddsUp :
    {F : Type 0} (now : ℕ) (m : Assoc (NodeHealthInfo F)) (v : Validator)
    → PowerAddsUp v
    → PowerAddsUp (adjusted now m v).0
adjusted-PowerAddsUp now m v h = ground arith

module _ {S F : Type 0} (st : Storage S) (sorter : Sorter) where
  adjust_each-All :
      (P : Address → Type 0) (now : ℕ) (m : Assoc (NodeHealthInfo F)) (vs : List Validator) (s : S)
      → All (λ v. P v.address) vs
      → All (λ v. P v.address) (adjust_each st now m vs s).0
  unfolding adjust_each
  adjust_each-All P now m [] s h = tt
  adjust_each-All P now m (v ∷ vs) s h =
      (rw (adjusted-address now m v) h.0, adjust_each-All P now m vs _ h.1)

  pub adjust_each-Distinct :
      (now : ℕ) (m : Assoc (NodeHealthInfo F)) (vs : List Validator) (s : S)
      → Distinct vs
      → Distinct (adjust_each st now m vs s).0
  unfolding adjust_each
  adjust_each-Distinct now m [] s h = tt
  adjust_each-Distinct now m (v ∷ vs) s h = (
    rw (adjusted-address now m v) (adjust_each-All (λ a. a ≢ v.address) now m vs _ h.0),
    adjust_each-Distinct now m vs _ h.1,
  )

  adjust_each-PowerAddsUp :
      (now : ℕ) (m : Assoc (NodeHealthInfo F)) (vs : List Validator) (s : S)
      → All PowerAddsUp vs
      → All PowerAddsUp (adjust_each st now m vs s).0
  unfolding adjust_each
  adjust_each-PowerAddsUp now m [] s h = tt
  adjust_each-PowerAddsUp now m (v ∷ vs) s h =
      (adjusted-PowerAddsUp now m v h.0, adjust_each-PowerAddsUp now m vs _ h.1)

  pub auto_adjust_validators-IsSound :
      (now : ℕ) (d : Dpos S F)
      → IsSound d.validators
      → IsSound (auto_adjust_validators st sorter now d).validators
  unfolding auto_adjust_validators
  auto_adjust_validators-IsSound now d h =
      sorted-IsSound sorter (adjust_each st now d.node_health d.validators d.storage).0
        (adjust_each-PowerAddsUp now d.node_health d.validators d.storage h.power)
        (adjust_each-Distinct now d.node_health d.validators d.storage h.distinct)
