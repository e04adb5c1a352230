-- ===== src/Producer/Filter.antt =====
-- block_producer.go: which pending transactions go into a block.
use shardmatrix.Prelude.{
  Bool, false, not, ◌&&◌, ◌||◌, none, some, List, [], ◌∷◌, ltb, ◌==◌, if◌then◌else◌,
}
use shardmatrix.Prelude.Words.{add64}
use shardmatrix.Types.{Account, Transaction, is_zero}
use shardmatrix.Chain.{total_cost}
use shardmatrix.Interfaces.{StateManager}

-- validateTransaction. The account is looked up only for a transaction with all its fields.
unfoldable pub has_fields : Transaction → Bool
has_fields t =
    not (is_zero t.from || is_zero t.to)
    && (not (t.amount == 0) && not ((t.gas_price == 0) || (t.gas_limit == 0)))

abbrev pub affords : Account → Transaction → Bool
affords a t =
    not (ltb a.balance (total_cost t))
    && ((t.nonce == add64 a.nonce 1) && not (is_zero t.signature))

module _ {M : Type 0} (sm : StateManager M) where
  unfoldable pub validate_transaction : Transaction → M → Bool × M
  unfolding has_fields
  validate_transaction t m =
      if not (has_fields t)
      then (false, m)
      else let (found, m') = sm.get_account t.from m in
        elim found [ none ↦ (false, m') | some a ↦ (affords a t, m') ]

  -- filterValidTransactions
  unfoldable pub filter_valid_transactions : List Transaction → M → List Transaction × M
  unfolding validate_transaction
  filter_valid_transactions [] m = ([], m)
  filter_valid_transactions (t ∷ ts) m =
      let (valid, m1) = validate_transaction t m in
      let (rest, m2) = filter_valid_transactions ts m1 in (if valid then t ∷ rest else rest, m2)
