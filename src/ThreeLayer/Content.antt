-- ===== src/ThreeLayer/Content.antt =====
-- three_layer_validator.go: what the content layer asks of a block.
use shardmatrix.Prelude.{
  ℕ, ◌+◌, ◌*◌, ◌^◌, ◌<◌, ◌≤◌, ◌%◌, ◌≡◌, ◌≢◌, ◌↔◌, refl, false, List, [], ◌∷◌, ok, arith, inl, inr,
  Result-cases, All, length, ◌==◌, Bool-cases,
}
use shardmatrix.Prelude.Words.{word, add64}
use shardmatrix.Types.{Hash, Block, block_is_empty}
use shardmatrix.ThreeLayer.{
  ThreeLayerValidator, validate_content, validate_transaction_legality, validate_state_transition,
  validate_gas_compliance, check_hashes, gas_used,
}

gas_used-eq :
    (total : ℕ) (hs : List Hash)
    → total < word
    → gas_used total hs ≡ (total + 1000 * length hs) % word
unfolding gas_used
gas_used-eq total [] h = omega arith
gas_used-eq total (x ∷ hs) h = omega (arith, gas_used-eq (add64 total 1000) hs (omega arith))

check_hashes_iff : (hs : List Hash) → (check_hashes hs ≡ ok tt) ↔ All (λ h. h ≢ 0) hs
unfolding check_hashes
check_hashes_iff [] = (λ _. tt, λ _. refl)
check_hashes_iff (h ∷ hs) = (
  λ e. elim (Bool-cases (h == 0)) [
    | inl zero_hash ↦ absurd (ground arith)
    | inr other ↦ (ground arith, (check_hashes_iff hs).0 (ground arith))
  ],
  λ all. let rest = (check_hashes_iff hs).1 (all.1) in let here = all.0 in ground arith,
)

module _ {E M C : Type 0} where
  -- The content layer accepts a block that has transactions, fewer than 2^50, exactly if no hash
  -- in its list is empty, its state root is not empty, and a thousand of gas for each transaction
  -- is within the limit. It looks at no account and no transaction.
  pub validate_content_iff :
      (tv : ThreeLayerValidator E M C) (b : Block)
      → block_is_empty b ≡ false
      → length b.transactions < 2 ^ 50
      → (validate_content tv b ≡ ok tt) ↔ (
          All (λ h. h ≢ 0) b.transactions
          × (b.header.state_root ≢ 0)
          × (1000 * length b.transactions ≤ tv.config.gas_limit_per_block))
  unfolding validate_content validate_transaction_legality validate_state_transition
      validate_gas_compliance
  validate_content_iff tv b full bound =
      let gas = gas_used-eq 0 b.transactions (omega arith) in
      let gas' : gas_used 0 b.transactions ≡ 1000 * length b.transactions = omega arith in
      (
        λ h. elim (Result-cases (check_hashes b.transactions)) [
          | inr (_, r) ↦ absurd (ground arith)
          | inl (_, r) ↦ ((check_hashes_iff b.transactions).0 r, ground arith, ground arith)
        ],
        λ h. let legal = (check_hashes_iff b.transactions).1 h.0 in ground arith,
      )
