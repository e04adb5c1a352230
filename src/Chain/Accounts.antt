-- ===== src/Chain/Accounts.antt =====
-- processTransaction against an abstract ledger: a function from addresses to accounts.
use shardmatrix.Prelude.{ℕ, ◌≡◌, not, none, some, Result, ok, err, ltb, ◌==◌, if◌then◌else◌, arith}
use shardmatrix.Prelude.Words.{add64}
use shardmatrix.Prelude.Assoc.{Assoc, lookup, lookup-insert}
use shardmatrix.Storage.{Storage}
use shardmatrix.Types.{Address, Account, Transaction}
use shardmatrix.Chain.{
  Manager, ChainError, insufficient_balance, bad_nonce, total_cost, debit_account, credit_account,
  get_account, move_funds, fresh_account, process_transaction,
}

abbrev pub Ledger : Type 0
Ledger = Address → Account

abbrev pub debit : Address → ℕ → Ledger → Ledger
debit a cost v b = if b == a then debit_account cost (v b) else v b

abbrev pub credit : Address → ℕ → Ledger → Ledger
credit a amount v b = if b == a then credit_account amount (v b) else v b

-- The abstract transaction: is it accepted, and what is the ledger after it.
abbrev pub verdict : Transaction → Ledger → Result ChainError (Unit {0})
verdict t v =
    if ltb (v t.from).balance (total_cost t)
    then err insufficient_balance
    else if not (t.nonce == add64 (v t.from).nonce 1)
    then err bad_nonce
    else ok tt

abbrev pub moved : Transaction → Ledger → Ledger
moved t v = credit t.to t.amount (debit t.from (total_cost t) v)

abbrev pub after : Transaction → Ledger → Ledger
after t v a = elim (verdict t v) [ ok _ ↦ moved t v a | err _ ↦ v a ]

lookup-move_funds :
    (t : Transaction) (s r : Account) (m : Assoc Account) (a : Address)
    → lookup a (move_funds t s r m) ≡ (
        if a == t.to
        then some
            (credit_account t.amount (if t.from == t.to then debit_account (total_cost t) s else r))
        else if a == t.from
        then some (debit_account (total_cost t) s)
        else lookup a m)
unfolding move_funds
lookup-move_funds t s r m a = simp lookup-insert

module _ {S : Type 0} (st : Storage S) where
  -- What the manager knows of an account, in its map or behind it in the storage.
  abbrev pub account_of : Manager S → Ledger
  account_of m a = (get_account st a m).0

  -- What the storage has, or a new account.
  abbrev stored_account : S → Ledger
  stored_account s a = elim (st.get_account a s) [ some found ↦ found | none ↦ fresh_account a ]

  account_of-lookup :
      (m : Manager S) (a : Address)
      → account_of m a
        ≡ elim (lookup a m.current_state) [ some acc ↦ acc | none ↦ stored_account m.storage a ]
  unfolding get_account
  account_of-lookup m a = ground arith

  -- Reading an account changes neither the ledger nor the storage.
  pub account_of-get_account :
      (m : Manager S) (a b : Address) → account_of (get_account st a m).1 b ≡ account_of m b
  unfolding get_account
  account_of-get_account m a b =
      ground (arith, lookup-insert a b (stored_account m.storage a) m.current_state)

  pub storage-get_account :
      (m : Manager S) (a : Address) → (get_account st a m).1.storage ≡ m.storage
  unfolding get_account
  storage-get_account m a = ground arith

  lookup-get_account :
      (m : Manager S) (a : Address)
      → lookup a (get_account st a m).1.current_state ≡ some (account_of m a)
  unfolding get_account
  lookup-get_account m a =
      ground (arith, lookup-insert a a (stored_account m.storage a) m.current_state)

  -- processTransaction does what the abstract transaction does: it fails for want of balance, or
  -- else for a wrong nonce, and then no account changes; or it succeeds, and every account is what
  -- debiting the sender and then crediting the receiver make of it, also where these are one.
  pub process_transaction-Refines :
      (t : Transaction) (m : Manager S)
      → let (r, m') = process_transaction st t m in
        (r ≡ verdict t (account_of m))
        × ((a : Address) → account_of m' a ≡ after t (account_of m) a)
  unfolding process_transaction
  process_transaction-Refines t m =
      let m1 = (get_account st t.from m).1 in
      let m2 = (get_account st t.to m1).1 in
      let receiver = account_of-get_account m t.from t.to in
      (
        ground arith,
        λ a. ground (
          arith,
          receiver,
          account_of-get_account m t.from a,
          account_of-get_account m1 t.to a,
          account_of-lookup m2 a,
          account_of-lookup
              (record m2 {
                current_state =
                    move_funds t (account_of m t.from) (account_of m1 t.to) m2.current_state;
              })
              a,
          lookup-move_funds t (account_of m t.from) (account_of m1 t.to) m2.current_state a,
        ),
      )
