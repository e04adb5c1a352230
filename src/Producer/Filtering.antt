-- ===== src/Producer/Filtering.antt =====
-- block_producer.go over the chain manager: what filterValidTransactions lets through.
use shardmatrix.Prelude.{
  ◌+◌, ◌*◌, ◌%◌, ◌≤◌, ◌≡◌, ◌≢◌, ◌↔◌, true, refl, ◌∙◌, sym, subst, arith, ◌&&◌, List, [], ◌∷◌, inl,
  inr, Bool-cases, Sifts, ends, keeps, skips,
}
use shardmatrix.Prelude.Words.{word}
use shardmatrix.Primitives.{Primitives}
use shardmatrix.Storage.{Storage}
use shardmatrix.Types.{Address, Account, Transaction}
use shardmatrix.Chain.{Manager}
use shardmatrix.Chain.Accounts.{account_of, account_of-get_account}
use shardmatrix.Interfaces.{chain_state}
use shardmatrix.Producer.Filter.{
  has_fields, affords, validate_transaction, filter_valid_transactions,
}

-- A transaction that an account can pay: no field that it needs is zero, the cost, as a 64-bit word, is
-- within the balance, and the nonce is the next one.
pub record IsPayable (a : Account) (t : Transaction) : Type 0 where
  pub sender : t.from ≢ 0
  pub receiver : t.to ≢ 0
  pub amount : t.amount ≢ 0
  pub gas_price : t.gas_price ≢ 0
  pub gas_limit : t.gas_limit ≢ 0
  pub covered : (t.amount + t.gas_price * t.gas_limit) % word ≤ a.balance
  pub next_nonce : t.nonce ≡ (a.nonce + 1) % word
  pub signed : t.signature ≢ 0

IsPayable-iff :
    (a : Account) (t : Transaction) → ((has_fields t && affords a t) ≡ true) ↔ IsPayable a t
unfolding has_fields
IsPayable-iff a t = (
  λ h. record {
    sender = ground arith;
    receiver = ground arith;
    amount = ground arith;
    gas_price = ground arith;
    gas_limit = ground arith;
    covered = ground arith;
    next_nonce = ground arith;
    signed = ground arith;
  },
  λ h.
      let a1 = h.sender in
      let a2 = h.receiver in
      let a3 = h.amount in
      let a4 = h.gas_price in
      let a5 = h.gas_limit in
      let a6 = h.covered in let a7 = h.next_nonce in let a8 = h.signed in ground arith,
)

module _ {S : Type 0} (st : Storage S) (p : Primitives) where
  validate_transaction-eq :
      (t : Transaction) (m : Manager S)
      → let (r, m') = validate_transaction (chain_state st p) t m in
        (r ≡ has_fields t && affords (account_of st m t.from) t)
        × ((a : Address) → account_of st m' a ≡ account_of st m a)
  unfolding validate_transaction chain_state
  validate_transaction-eq t m = elim (Bool-cases (has_fields t)) [
    | inl has ↦ (rw has refl, λ a. rw has (account_of-get_account st m t.from a))
    | inr lacks ↦ (rw lacks refl, λ a. rw lacks refl)
  ]

  -- The same for accounts that look the same.
  Sifts-same :
      (m m' : Manager S) (ts kept : List Transaction)
      → ((a : Address) → account_of st m' a ≡ account_of st m a)
      → Sifts (λ t. IsPayable (account_of st m' t.from) t) ts kept
      → Sifts (λ t. IsPayable (account_of st m t.from) t) ts kept
  Sifts-same m m' _ _ same ends = ends
  Sifts-same m m' _ _ same (keeps {x = t} h rest) =
      keeps (subst (λ a. IsPayable a t) (same t.from) h) (Sifts-same m m' _ _ same rest)
  Sifts-same m m' _ _ same (skips {x = t} h rest) =
      skips (λ g. h (subst (λ a. IsPayable a t) (sym (same t.from)) g))
        (Sifts-same m m' _ _ same rest)

  -- Over the chain manager, filterValidTransactions keeps exactly the transactions that the senders'
  -- accounts as they are at its start can pay: sender, receiver, amount, gas price, gas limit and signature
  -- are not zero, amount plus gas price times gas limit, as a 64-bit word, is within the balance, and the
  -- nonce is the next one. Each is held against those accounts, not against what the ones before it
  -- leave. The order stays, and it changes no account.
  pub filter_valid_transactions-Sifts :
      (ts : List Transaction) (m : Manager S)
      → let (kept, m') = filter_valid_transactions (chain_state st p) ts m in
        Sifts (λ t. IsPayable (account_of st m t.from) t) ts kept
        × ((a : Address) → account_of st m' a ≡ account_of st m a)
  unfolding filter_valid_transactions
  filter_valid_transactions-Sifts [] m = (ends, λ a. refl)
  filter_valid_transactions-Sifts (t ∷ ts) m =
      let m1 = (validate_transaction (chain_state st p) t m).1 in
      let (here, unchanged) = validate_transaction-eq t m in
      let (kept, unchanged') = filter_valid_transactions-Sifts ts m1 in
      let rest = Sifts-same m m1 ts _ unchanged kept in
      let payable = IsPayable-iff (account_of st m t.from) t in
      elim (Bool-cases (has_fields t && affords (account_of st m t.from) t)) [
        | inl valid ↦
            (rw (here, valid) (keeps (payable.0 valid) rest), λ a. unchanged' a ∙ unchanged a)
        | inr invalid ↦ (
          rw (here, invalid) (skips (λ h. ground (arith, sym (payable.1 h) ∙ invalid)) rest),
          λ a. unchanged' a ∙ unchanged a,
        )
      ]
