-- ===== src/Chain/Hashes.antt =====
-- The loop over a block's transactions: its steps, and what it leaves alone.
use shardmatrix.Prelude.{
  ◌≡◌, refl, none, some, List, [], ◌∷◌, ◌++◌, ok, err, arith, All, ◌∙◌, inl, inr, Option-cases,
  Result-cases,
}
use shardmatrix.Storage.{Storage}
use shardmatrix.Types.{Hash, Address, Transaction}
use shardmatrix.Chain.{Manager, ChainError, get_account, process_hashes, process_transaction}
use shardmatrix.Chain.Accounts.{account_of, process_transaction-Refines}

-- Two managers that differ in their accounts only.
pub record SameChain {S : Type 0} (m m' : Manager S) : Type 0 where
  pub storage : m'.storage ≡ m.storage
  pub current_block : m'.current_block ≡ m.current_block
  pub genesis_block : m'.genesis_block ≡ m.genesis_block
  pub is_initialized : m'.is_initialized ≡ m.is_initialized

SameChain-refl : {S : Type 0} (m : Manager S) → SameChain m m
SameChain-refl m = record {
  storage = refl;
  current_block = refl;
  genesis_block = refl;
  is_initialized = refl;
}

pub SameChain-trans :
    {S : Type 0} {m n k : Manager S} → SameChain m n → SameChain n k → SameChain m k
SameChain-trans a b = record {
  storage = b.storage ∙ a.storage;
  current_block = b.current_block ∙ a.current_block;
  genesis_block = b.genesis_block ∙ a.genesis_block;
  is_initialized = b.is_initialized ∙ a.is_initialized;
}

module _ {S : Type 0} (st : Storage S) where
  get_account-SameChain : (a : Address) (m : Manager S) → SameChain m (get_account st a m).1
  unfolding get_account
  get_account-SameChain a m = record {
    storage = ground arith;
    current_block = ground arith;
    genesis_block = ground arith;
    is_initialized = ground arith;
  }

  with_state :
      (m : Manager S) (t : Transaction)
      → SameChain (get_account st t.to (get_account st t.from m).1).1 (process_transaction st t m).1
  unfolding process_transaction
  with_state m t = record {
    storage = ground arith;
    current_block = ground arith;
    genesis_block = ground arith;
    is_initialized = ground arith;
  }

  pub process_transaction-SameChain :
      (t : Transaction) (m : Manager S) → SameChain m (process_transaction st t m).1
  process_transaction-SameChain t m =
      SameChain-trans (get_account-SameChain t.from m)
        (SameChain-trans (get_account-SameChain t.to (get_account st t.from m).1) (with_state m t))

  -- A transaction that fails changes no account.
  pub failed_transaction :
      (t : Transaction) (m : Manager S) {e : ChainError} (x : Address)
      → (process_transaction st t m).0 ≡ err e
      → account_of st (process_transaction st t m).1 x ≡ account_of st m x
  failed_transaction t m x h =
      let (result, accounts) = process_transaction-Refines st t m in
      accounts x ∙ ground (arith, result)

  -- The three ways in which the loop over a block's transactions goes on.
  pub process_hashes-unknown :
      (h : Hash) (hs : List Hash) (m : Manager S)
      → st.get_transaction h m.storage ≡ none
      → process_hashes st (h ∷ hs) m ≡ process_hashes st hs m
  unfolding process_hashes
  process_hashes-unknown h hs m e = ground arith

  pub process_hashes-done :
      (h : Hash) (hs : List Hash) (m : Manager S) (t : Transaction)
      → st.get_transaction h m.storage ≡ some t
      → (process_transaction st t m).0 ≡ ok tt
      → process_hashes st (h ∷ hs) m ≡ process_hashes st hs (process_transaction st t m).1
  unfolding process_hashes
  process_hashes-done h hs m t e d = ground arith

  pub process_hashes-failed :
      (h : Hash) (hs : List Hash) (m : Manager S) (t : Transaction) (x : ChainError)
      → st.get_transaction h m.storage ≡ some t
      → (process_transaction st t m).0 ≡ err x
      → process_hashes st (h ∷ hs) m ≡ (err x, (process_transaction st t m).1)
  unfolding process_hashes
  process_hashes-failed h hs m t x e d = ground arith

  pub process_hashes-SameChain :
      (hs : List Hash) (m : Manager S) → SameChain m (process_hashes st hs m).1
  process_hashes-SameChain [] m = unfold process_hashes in SameChain-refl m
  process_hashes-SameChain (h ∷ hs) m = elim (Option-cases (st.get_transaction h m.storage)) [
    | inl unknown ↦ rw (process_hashes-unknown h hs m unknown) (process_hashes-SameChain hs m)
    | inr (t, known) ↦
        let m1 = (process_transaction st t m).1 in
        elim (Result-cases (process_transaction st t m).0) [
          | inl (_, done) ↦
              rw (process_hashes-done h hs m t known done) (
                SameChain-trans (process_transaction-SameChain t m)
                  (process_hashes-SameChain hs m1))
          | inr (x, failed) ↦
              rw (process_hashes-failed h hs m t x known failed) (process_transaction-SameChain t m)
        ]
  ]

  -- A list that succeeds can be split off.
  pub process_hashes-append :
      (hs ks : List Hash) (m : Manager S)
      → (process_hashes st hs m).0 ≡ ok tt
      → process_hashes st (hs ++ ks) m ≡ process_hashes st ks (process_hashes st hs m).1
  process_hashes-append [] ks m h = unfold process_hashes in refl
  process_hashes-append (x ∷ hs) ks m h = elim (Option-cases (st.get_transaction x m.storage)) [
    | inl unknown ↦
        let whole = process_hashes-unknown x (hs ++ ks) m unknown in
        let part = process_hashes-unknown x hs m unknown in
        rw (whole, part) (process_hashes-append hs ks m (rw part at h))
    | inr (t, known) ↦
        let m1 = (process_transaction st t m).1 in
        elim (Result-cases (process_transaction st t m).0) [
          | inl (_, done) ↦
              let whole = process_hashes-done x (hs ++ ks) m t known done in
              let part = process_hashes-done x hs m t known done in
              rw (whole, part) (process_hashes-append hs ks m1 (rw part at h))
          | inr (y, failed) ↦ absurd (cc (process_hashes-failed x hs m t y known failed, h))
        ]
  ]

  -- A list of hashes that the storage does not know does nothing.
  pub process_hashes_unknown :
      (hs : List Hash) (m : Manager S)
      → All (λ h. st.get_transaction h m.storage ≡ none) hs
      → process_hashes st hs m ≡ (ok tt, m)
  process_hashes_unknown [] m u = unfold process_hashes in refl
  process_hashes_unknown (h ∷ hs) m u =
      process_hashes-unknown h hs m u.0 ∙ process_hashes_unknown hs m u.1
