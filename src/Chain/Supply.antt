-- ===== src/Chain/Supply.antt =====
-- The money in the accounts: what a transaction burns, and what it creates where its cost wraps.
use shardmatrix.Prelude.{
  ℕ, ◌+◌, ◌*◌, ◌≤◌, ◌<◌, ◌≡◌, refl, false, List, [], ◌∷◌, Result, ok, err, ◌==◌, if◌then◌else◌,
  arith, ap, ◌∙◌,
}
use shardmatrix.Prelude.Words.{word, add64, sub64}
use shardmatrix.Storage.{Storage}
use shardmatrix.Types.{Address, Transaction}
use shardmatrix.Chain.{Manager, ChainError, total_cost, process_transaction}
use shardmatrix.Chain.Accounts.{
  Ledger, debit, verdict, moved, after, account_of, process_transaction-Refines,
}

abbrev pub supply : Ledger → List Address → ℕ
supply v [] = 0
supply v (a ∷ l) = (v a).balance + supply v l

abbrev pub count : Address → List Address → ℕ
count a [] = 0
count a (b ∷ bs) = (if a == b then 1 else 0) + count a bs

supply-congr :
    (v w : Ledger) (l : List Address) → ((a : Address) → w a ≡ v a) → supply w l ≡ supply v l
supply-congr v w [] h = refl
supply-congr v w (a ∷ l) h = cc (h a, supply-congr v w l h)

-- Changing one account changes the supply by that account's balance, as often as it is listed.
supply_change :
    (v w : Ledger) (a : Address) (l : List Address)
    → ((b : Address) → (b == a) ≡ false → (w b).balance ≡ (v b).balance)
    → supply w l + count a l * (v a).balance ≡ supply v l + count a l * (w a).balance
supply_change v w a [] h = omega arith
supply_change v w a (b ∷ bs) h = grind (arith, h b, supply_change v w a bs h)

-- For an address that is listed once.
supply_change_once :
    (v w : Ledger) (a : Address) (l : List Address)
    → count a l ≡ 1
    → ((b : Address) → (b == a) ≡ false → (w b).balance ≡ (v b).balance)
    → supply w l + (v a).balance ≡ supply v l + (w a).balance
supply_change_once v w a l once h =
    let total = supply_change v w a l h in
    let unit : (n : ℕ) → count a l * n ≡ n = λ n. ap (λ (k : ℕ). k * n) once ∙ omega arith in
    omega (arith, total, unit (v a).balance, unit (w a).balance)

balance-le-supply :
    (v : Ledger) (a : Address) (l : List Address) → count a l ≡ 1 → (v a).balance ≤ supply v l
balance-le-supply v a [] h = absurd (omega arith)
balance-le-supply v a (b ∷ l) h = grind (arith, balance-le-supply v a l)

module _ (t : Transaction) (v : Ledger) where
  abbrev sent : Ledger
  sent = debit t.from (total_cost t) v

  sent_balance : (sent t.from).balance ≡ sub64 (v t.from).balance (total_cost t)
  sent_balance = ground arith

  moved_balance : (moved t v t.to).balance ≡ add64 (sent t.to).balance t.amount
  moved_balance = ground arith

  module _ (l : List Address) (from_once : count t.from l ≡ 1) (to_once : count t.to l ≡ 1) where
    supply-sent : supply sent l + (v t.from).balance ≡ supply v l + (sent t.from).balance
    supply-sent = supply_change_once v sent t.from l from_once (λ b h. ground arith)

    supply-moved :
        supply (moved t v) l + (sent t.to).balance ≡ supply sent l + (moved t v t.to).balance
    supply-moved = supply_change_once sent (moved t v) t.to l to_once (λ b h. ground arith)

    -- An accepted transaction whose amounts do not overflow takes its gas from the supply.
    moved_burns :
        supply v l < word
        → t.amount + t.gas_price * t.gas_limit < word
        → total_cost t ≤ (v t.from).balance
        → supply (moved t v) l + t.gas_price * t.gas_limit ≡ supply v l
    moved_burns bound fits covered = omega (
      arith,
      supply-sent,
      supply-moved,
      sent_balance,
      moved_balance,
      balance-le-supply v t.from l from_once,
      balance-le-supply sent t.to l to_once,
    )

    -- Where the cost wraps below the amount, the receiver gets more than the sender pays.
    moved_mints :
        total_cost t < t.amount
        → (v t.from).balance < word
        → total_cost t ≤ (v t.from).balance
        → (sent t.to).balance + t.amount < word
        → supply (moved t v) l + total_cost t ≡ supply v l + t.amount
    moved_mints wraps bound covered room =
        omega (arith, supply-sent, supply-moved, sent_balance, moved_balance)

-- The gas that a transaction burns by its outcome.
abbrev pub burned : Transaction → Result ChainError (Unit {0}) → ℕ
burned t (ok _) = t.gas_price * t.gas_limit
burned t (err _) = 0

module _ {S : Type 0} (st : Storage S) where
  -- Over any list of accounts that has the sender and the receiver once each, with a supply below
  -- 2 ^ 64, a transaction whose amount and gas do not overflow takes exactly its gas from the supply
  -- if it succeeds, and nothing if it fails. It may pay its own sender.
  pub supply-process_transaction :
      (t : Transaction) (m : Manager S) (l : List Address)
      → count t.from l ≡ 1
      → count t.to l ≡ 1
      → supply (account_of st m) l < word
      → t.amount + t.gas_price * t.gas_limit < word
      → let (r, m') = process_transaction st t m in
        supply (account_of st m') l + burned t r ≡ supply (account_of st m) l
  supply-process_transaction t m l cf ct bound fits =
      let v = account_of st m in
      let (result, accounts) = process_transaction-Refines st t m in
      let total =
        supply-congr (after t v) (account_of st (process_transaction st t m).1) l accounts in
      rw (total, result)
        (ground (
          arith,
          moved_burns t v l cf ct bound fits,
          supply-congr v (after t v) l,
          supply-congr (moved t v) (after t v) l,
        ))

  -- The check of the balance is made on the wrapped cost. A transaction whose cost wraps to less
  -- than its amount, from a sender who can pay that to another account, with the right nonce, succeeds
  -- and creates the difference, if the sender's balance is a 64-bit word and the receiver's does not wrap: the supply, counted over
  -- a list in which sender and receiver stand once each, grows by the amount less the wrapped cost.
  pub process_transaction_mints :
      (t : Transaction) (m : Manager S) (l : List Address)
      → count t.from l ≡ 1
      → count t.to l ≡ 1
      → (t.from == t.to) ≡ false
      → total_cost t < t.amount
      → (account_of st m t.from).balance < word
      → total_cost t ≤ (account_of st m t.from).balance
      → t.nonce ≡ add64 (account_of st m t.from).nonce 1
      → (account_of st m t.to).balance + t.amount < word
      → let (r, m') = process_transaction st t m in
        (r ≡ ok tt)
        × (supply (account_of st m') l + total_cost t ≡ supply (account_of st m) l + t.amount)
  process_transaction_mints t m l cf ct apart wraps bound covered nonce room =
      let v = account_of st m in
      let (result, accounts) = process_transaction-Refines st t m in
      let accepted : verdict t v ≡ ok tt = ground arith in
      let same : (a : Address) → account_of st (process_transaction st t m).1 a ≡ moved t v a =
        λ a. ground (arith, accounts a) in
      let kept : (sent t v t.to).balance ≡ (v t.to).balance = ground arith in
      (
        result ∙ accepted,
        rw (supply-congr (moved t v) (account_of st (process_transaction st t m).1) l same)
            (moved_mints t v l cf ct wraps bound covered (omega (arith, kept))),
      )
