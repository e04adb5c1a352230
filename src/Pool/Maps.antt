-- ===== src/Pool/Maps.antt =====
-- Maps of transactions as association lists: entries, keys and lengths.

use shardmatrix.Prelude.{
  ℕ, suc, ◌+◌, ◌≡◌, refl, ◌∙◌, none, some, inl, inr, List, [], ◌∷◌, length, ◌==◌, arith, All,
  Bool-cases,
}
use shardmatrix.Prelude.Assoc.{Assoc, lookup, insert, erase, lookup-insert, lookup-erase}
use shardmatrix.Types.{Transaction}

abbrev pub HasUniqueKeys : Assoc Transaction → Type 0
HasUniqueKeys [] = Unit
HasUniqueKeys ((k, _) ∷ m) = (lookup k m ≡ none) × HasUniqueKeys m

pub All-map :
    {A : Type 0} {P Q : A → Type 0} (xs : List A) → ((x : A) → P x → Q x) → All P xs → All Q xs
All-map [] k h = tt
All-map (x ∷ xs) k h = (k x h.0, All-map xs k h.1)

pub All-zip :
    {A : Type 0} {P Q R : A → Type 0} (xs : List A)
    → ((x : A) → P x → Q x → R x)
    → All P xs
    → All Q xs
    → All R xs
All-zip [] k h l = tt
All-zip (x ∷ xs) k h l = (k x h.0 l.0, All-zip xs k h.1 l.1)

-- Entries are found under their keys.
pub entries_found : (m : Assoc Transaction) → HasUniqueKeys m → All (λ e. lookup e.0 m ≡ some e.1) m
unfolding lookup
entries_found [] h = tt
entries_found ((k, t) ∷ m) h =
    (ground arith, All-map m (λ e found. ground arith) (entries_found m h.1))

pub erase-All :
    (P : ℕ × Transaction → Type 0) (k : ℕ) (m : Assoc Transaction) → All P m → All P (erase k m)
unfolding erase
erase-All P k [] h = tt
erase-All P k ((j, t) ∷ m) h = elim (Bool-cases (k == j)) [
  | inl same ↦ rw (erase, same) (erase-All P k m h.1)
  | inr other ↦ rw (erase, other) (h.0, erase-All P k m h.1)
]

pub erase-HasUniqueKeys :
    (k : ℕ) (m : Assoc Transaction) → HasUniqueKeys m → HasUniqueKeys (erase k m)
unfolding erase
erase-HasUniqueKeys k [] h = tt
erase-HasUniqueKeys k ((j, t) ∷ m) h = elim (Bool-cases (k == j)) [
  | inl same ↦ rw (erase, same) (erase-HasUniqueKeys k m h.1)
  | inr other ↦ rw (erase, other) (lookup-erase k j m ∙ ground arith, erase-HasUniqueKeys k m h.1)
]

erase-absent : (k : ℕ) (m : Assoc Transaction) → lookup k m ≡ none → erase k m ≡ m
unfolding erase lookup
erase-absent k [] h = refl
erase-absent k ((j, t) ∷ m) h = ground (arith, erase-absent k m)

pub length-erase :
    (k : ℕ) (t : Transaction) (m : Assoc Transaction)
    → HasUniqueKeys m
    → lookup k m ≡ some t
    → length m ≡ suc (length (erase k m))
unfolding erase lookup
length-erase k t [] h e = cc
length-erase k t ((j, u) ∷ m) h e = ground (arith, erase-absent k m, length-erase k t m)

pub insert-All :
    (P : ℕ × Transaction → Type 0) (k : ℕ) (t : Transaction) (m : Assoc Transaction)
    → P (k, t)
    → All P m
    → All P (insert k t m)
unfolding insert
insert-All P k t [] p h = (p, tt)
insert-All P k t ((j, u) ∷ m) p h = elim (Bool-cases (k == j)) [
  | inl same ↦ rw (insert, same) (p, h.1)
  | inr other ↦ rw (insert, other) (h.0, insert-All P k t m p h.1)
]

pub length-insert :
    (k : ℕ) (t : Transaction) (m : Assoc Transaction)
    → lookup k m ≡ none
    → length (insert k t m) ≡ length m + 1
unfolding insert lookup
length-insert k t [] h = refl
length-insert k t ((j, u) ∷ m) h = ground (arith, length-insert k t m)

pub insert-HasUniqueKeys :
    (k : ℕ) (t : Transaction) (m : Assoc Transaction)
    → lookup k m ≡ none
    → HasUniqueKeys m
    → HasUniqueKeys (insert k t m)
unfolding insert lookup
insert-HasUniqueKeys k t [] e h = (refl, tt)
insert-HasUniqueKeys k t ((j, u) ∷ m) e h = elim (Bool-cases (k == j)) [
  | inl same ↦ absurd (ground arith)
  | inr other ↦
      let rest : lookup k m ≡ none = ground arith in
      rw (insert, other) (lookup-insert k j t m ∙ ground arith, insert-HasUniqueKeys k t m rest h.1)
]
