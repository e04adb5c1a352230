-- ===== src/Chain/Nonces.antt =====
-- Replay protection: a nonce is spent once.
use shardmatrix.Prelude.{◌+◌, ◌≤◌, ◌<◌, ◌≡◌, ◌≢◌, List, [], ◌∷◌, ok, arith, ap, sym, ◌∙◌, length}
use shardmatrix.Prelude.Words.{word, add64}
use shardmatrix.Storage.{Storage}
use shardmatrix.Types.{Address, Account, Transaction}
use shardmatrix.Chain.{Manager, process_transaction}
use shardmatrix.Chain.Accounts.{Ledger, verdict, after, account_of, process_transaction-Refines}

verdict-nonce :
    (t : Transaction) (v : Ledger) → verdict t v ≡ ok tt → t.nonce ≡ add64 (v t.from).nonce 1
verdict-nonce t v h = ground arith

after-nonce :
    (t : Transaction) (v : Ledger)
    → verdict t v ≡ ok tt
    → (after t v t.from).nonce ≡ add64 (v t.from).nonce 1
after-nonce t v h = ground arith

module _ {S : Type 0} (st : Storage S) where
  -- Processing transactions one after the other, whether each succeeds or fails.
  abbrev pub process_all : List Transaction → Manager S → Manager S
  process_all [] m = m
  process_all (t ∷ ts) m = process_all ts (process_transaction st t m).1

  nonce_step :
      (t : Transaction) (m : Manager S) (a : Address)
      → (account_of st m a).nonce + 1 < word
      → ((account_of st m a).nonce ≤ (account_of st (process_transaction st t m).1 a).nonce)
        × ((account_of st (process_transaction st t m).1 a).nonce ≤ (account_of st m a).nonce + 1)
  nonce_step t m a h =
      let (result, accounts) = process_transaction-Refines st t m in rw (accounts a) (ground arith)

  nonce_grows :
      (ts : List Transaction) (m : Manager S) (a : Address)
      → (account_of st m a).nonce + length ts < word
      → ((account_of st m a).nonce ≤ (account_of st (process_all ts m) a).nonce)
        × ((account_of st (process_all ts m) a).nonce ≤ (account_of st m a).nonce + length ts)
  nonce_grows [] m a h = omega arith
  nonce_grows (t ∷ ts) m a h =
      let step = nonce_step t m a (omega arith) in
      omega (arith, step, nonce_grows ts (process_transaction st t m).1 a (omega (arith, step)))

  -- A transaction that has succeeded cannot succeed again, however many others are processed in
  -- between, as long as their number cannot take its sender's nonce past 2 ^ 64.
  pub process_transaction_once :
      (t : Transaction) (ts : List Transaction) (m : Manager S)
      → (account_of st m t.from).nonce + length ts + 2 < word
      → (process_transaction st t m).0 ≡ ok tt
      → (process_transaction st t (process_all ts (process_transaction st t m).1)).0 ≢ ok tt
  process_transaction_once t ts m room done again =
      let m1 = (process_transaction st t m).1 in
      let m2 = process_all ts m1 in
      let (first, accounts) = process_transaction-Refines st t m in
      let second = (process_transaction-Refines st t m2).0 in
      let accepted = verdict-nonce t (account_of st m) (sym first ∙ done) in
      let again' = verdict-nonce t (account_of st m2) (sym second ∙ again) in
      let spent =
        ap (λ (a : Account). a.nonce) (accounts t.from)
        ∙ after-nonce t (account_of st m) (sym first ∙ done) in
      let later = nonce_grows ts m1 t.from (omega (arith, spent)) in
      absurd (omega (arith, accepted, again', spent, later))
