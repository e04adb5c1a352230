-- ===== src/Dpos/Watch/Safety.antt =====
-- dpos.go: when the safety mode is on.
use shardmatrix.Prelude.{
  ℕ, ◌*◌, ◌^◌, ◌≤◌, ◌<◌, ◌≡◌, ◌↔◌, refl, true, some, inl, inr, Bool-cases, Option-cases, List,
  length, ltb, arith, Sifts, ends, keeps, skips,
}
use shardmatrix.Prelude.Assoc.{Assoc, lookup}
use shardmatrix.Types.{Validator}
use shardmatrix.Dpos.{Dpos}
use shardmatrix.Dpos.Health.{Float64, NodeHealthInfo}
use shardmatrix.Dpos.Watch.{is_responsive, responsive_count, check_node_activity}

module _ {F : Type 0} (m : Assoc (NodeHealthInfo F)) where
  -- An active validator with a health record that says that its node responds.
  pub record IsLive (v : Validator) : Type 0 where
    pub health : NodeHealthInfo F
    pub active : v.is_active ≡ true
    pub known : lookup v.address m ≡ some health
    pub responds : health.is_responsive ≡ true

  is_responsive-IsLive : (v : Validator) → IsLive v → is_responsive m v ≡ true
  is_responsive-IsLive v h =
      let active = h.active in
      let known = h.known in let responds = h.responds in rw (active, known) responds

  IsLive-is_responsive : (v : Validator) → is_responsive m v ≡ true → IsLive v
  IsLive-is_responsive v h = elim (Bool-cases v.is_active) [
    | inr idle ↦ absurd (ground arith)
    | inl active ↦ elim (Option-cases (lookup v.address m)) [
      | inl unknown ↦ absurd (ground arith)
      | inr (health, known) ↦ record {
        health = health;
        active = active;
        known = known;
        responds = ground arith;
      }
    ]
  ]

  -- The count is that of the live validators.
  responsive_count-Sifts :
      {vs live : List Validator} → Sifts IsLive vs live → responsive_count m vs ≡ length live
  unfolding responsive_count
  responsive_count-Sifts ends = refl
  responsive_count-Sifts (keeps {x = v} h rest) =
      let heard = is_responsive-IsLive v h in
      let count = responsive_count-Sifts rest in rw (heard, count) (omega arith)
  responsive_count-Sifts (skips {x = v} h rest) = elim (Bool-cases (is_responsive m v)) [
    | inl heard ↦ absurd (h (IsLive-is_responsive v heard))
    | inr silent ↦ rw silent (responsive_count-Sifts rest)
  ]

length-Sifts :
    {A : Type 0} {P : A → Type 0} {xs ys : List A} → Sifts P xs ys → length ys ≤ length xs
length-Sifts ends = omega arith
length-Sifts (keeps h rest) = omega (arith, length-Sifts rest)
length-Sifts (skips h rest) = omega (arith, length-Sifts rest)

module _ {S F : Type 0} (fl : Float64 F) where
  -- Let there be fewer than 2^46 validators, and float64 arithmetic that rounds shares and hundredths to
  -- the nearest. Take, in the list's order, the validators that are active and have a health record that
  -- says that their node responds. CheckNodeActivity turns the safety mode on if these are fewer than three
  -- fifths of all validators in the list, active or not, and else off; with no validator it is off.
  pub check_node_activity-safety_mode :
      (now : ℕ) (d : Dpos S F) (live : List Validator)
      → length d.validators < 2 ^ 46
      → Sifts (IsLive d.node_health) d.validators live
      → ((check_node_activity fl now d).safety_mode ≡ true)
        ↔ (5 * length live < 3 * length d.validators)
  unfolding check_node_activity
  check_node_activity-safety_mode now d live few sifted =
      let count = responsive_count-Sifts d.node_health sifted in
      let part = length-Sifts sifted in
      elim (Bool-cases (ltb 0 (length d.validators))) [
        | inl several ↦
            let share =
              fl.lt-share (length live) (length d.validators) 60 (ground arith) part few
                (omega arith) in
            rw (count, share) (λ h. ground arith, λ h. ground arith)
        | inr alone ↦
            let none_there : length d.validators ≡ 0 = ground arith in
            let none_heard : length live ≡ 0 = omega arith in
            rw (count, none_there, none_heard, fl.lt-nan (fl.decimal 60))
              (λ h. absurd (ground arith), λ h. absurd (ground arith))
      ]
