-- ===== src/Pool/Queue.antt =====
-- pkg/blockchain/transaction_pool.go: TxPriorityQueue, and container/heap as it works on it. The field
-- Index is written by the queue and read by nobody, and is left out.
use shardmatrix.Prelude.{
  ℕ, zero, suc, ◌+◌, ◌-◌, ◌*◌, ◌/◌, ◌≤◌, ◌<◌, ◌≡◌, refl, ap, ◌∙◌, Bool, true, false, not, ◌&&◌,
  ◌||◌, Option, none, some, inl, inr, List, [], ◌∷◌, ◌++◌, length, get_elem?, set, take, All, ltb,
  leb, ◌==◌, if◌then◌else◌, arith, length-append, length-set, All-set, All-get_elem?, All-append,
  Bool-cases, Option-cases,
}
use shardmatrix.Types.{Transaction}

pub record TxPriorityItem : Type 0 where
  pub tx : Transaction
  pub priority : ℕ
  pub add_time : ℕ

abbrev pub PriorityQueue : Type 0
PriorityQueue = List TxPriorityItem

-- Less: the higher priority comes first, among equals the earlier time.
abbrev pub less : TxPriorityItem → TxPriorityItem → Bool
less a b =
    if not (a.priority == b.priority) then ltb b.priority a.priority else ltb a.add_time b.add_time

abbrev pub less_at : PriorityQueue → ℕ → ℕ → Bool
less_at q i j = elim (get_elem? q i) [
  | none ↦ false
  | some a ↦ elim (get_elem? q j) [ none ↦ false | some b ↦ less a b ]
]

-- Swap
abbrev pub swap : PriorityQueue → ℕ → ℕ → PriorityQueue
swap q i j = elim (get_elem? q i) [
  | none ↦ q
  | some a ↦ elim (get_elem? q j) [ none ↦ q | some b ↦ set (set q i b) j a ]
]

-- heap.up, on fuel: the slot j becomes smaller in every round.
unfoldable pub up : ℕ → ℕ → PriorityQueue → PriorityQueue
up zero j q = q
up (suc fuel) j q =
    let i = (j - 1) / 2 in
    let next = up fuel i (swap q i j) in if (i == j) || not (less_at q j i) then q else next

-- The child of i that comes first, of the n slots in use.
abbrev pub first_child : PriorityQueue → ℕ → ℕ → ℕ
first_child q i n =
    let left = 2 * i + 1 in if ltb (left + 1) n && less_at q (left + 1) left then left + 1 else left

-- heap.down, on fuel: the slot i becomes larger in every round.
unfoldable pub down : ℕ → ℕ → ℕ → PriorityQueue → PriorityQueue
down zero i n q = q
down (suc fuel) i n q =
    let j = first_child q i n in
    let next = down fuel j n (swap q i j) in
    if leb n (2 * i + 1) then q else if not (less_at q j i) then q else next

-- heap.Push
unfoldable pub push : TxPriorityItem → PriorityQueue → PriorityQueue
unfolding up
push x q = up (length q + 1) (length q) (q ++ x ∷ [])

-- heap.Pop
unfoldable pub pop : PriorityQueue → Option (TxPriorityItem × PriorityQueue)
unfolding down
pop q =
    let n = length q - 1 in
    let q' = down n 0 n (swap q 0 n) in
    elim (get_elem? q' n) [ none ↦ none | some x ↦ (some (x, take n q')) ]

abbrev SameLength : PriorityQueue → PriorityQueue → Type 0
SameLength q t = length t ≡ length q

-- What both branches have, the whole has.
if_either :
    (P : PriorityQueue → Type 0) (b : Bool) {x y : PriorityQueue}
    → P x
    → P y
    → P (if b then x else y)
if_either P true h k = h
if_either P false h k = k

-- `push` gives `up` one more than the slot, and `pop` gives `down` the number of slots: as much fuel
-- as is needed, since more changes nothing.
up_fuel : (f j : ℕ) (q : PriorityQueue) → j < f → up (suc f) j q ≡ up f j q
unfolding up
up_fuel zero j q h = absurd (omega arith)
up_fuel (suc f) j q h = elim (Bool-cases ((j - 1) / 2 == j)) [
  | inl top ↦ rw top refl
  | inr below ↦
      let smaller : (j - 1) / 2 < f = ground arith in
      ap (λ t. if ((j - 1) / 2 == j) || not (less_at q j ((j - 1) / 2)) then q else t)
        (up_fuel f ((j - 1) / 2) (swap q ((j - 1) / 2) j) smaller)
]

first_child-lt : (q : PriorityQueue) (i n : ℕ) → i < first_child q i n
first_child-lt q i n = ground arith

down_fuel : (f i n : ℕ) (q : PriorityQueue) → n ≤ f + i → down (suc f) i n q ≡ down f i n q
unfolding down
down_fuel zero i n q h = let leaf : leb n (2 * i + 1) ≡ true = ground arith in rw leaf refl
down_fuel (suc f) i n q h =
    ap
      (λ t. if leb n (2 * i + 1) then q else if not (less_at q (first_child q i n) i) then q else t)
      (down_fuel f (first_child q i n) n (swap q i (first_child q i n))
        (omega (arith, first_child-lt q i n)))

pub length-swap : (q : PriorityQueue) (i j : ℕ) → length (swap q i j) ≡ length q
length-swap q i j = elim (Option-cases (get_elem? q i)) [
  | inl out ↦ rw (swap, out) refl
  | inr (a, at_i) ↦ elim (Option-cases (get_elem? q j)) [
    | inl out ↦ rw (swap, at_i, out) refl
    | inr (b, at_j) ↦ rw (swap, at_i, at_j) (length-set (set q i b) j a ∙ length-set q i b)
  ]
]

pub All-swap :
    (P : TxPriorityItem → Type 0) (q : PriorityQueue) (i j : ℕ) → All P q → All P (swap q i j)
All-swap P q i j h = elim (Option-cases (get_elem? q i)) [
  | inl out ↦ rw (swap, out) h
  | inr (a, at_i) ↦ elim (Option-cases (get_elem? q j)) [
    | inl out ↦ rw (swap, at_i, out) h
    | inr (b, at_j) ↦
        rw (swap, at_i, at_j)
          (All-set P (set q i b) j (All-set P q i h (All-get_elem? P q j h at_j))
            (All-get_elem? P q i h at_i))
  ]
]

length-up : (f j : ℕ) (q : PriorityQueue) → length (up f j q) ≡ length q
unfolding up
length-up zero j q = refl
length-up (suc f) j q =
    if_either (SameLength q) _ refl (length-up f _ _ ∙ length-swap q ((j - 1) / 2) j)

All-up : (P : TxPriorityItem → Type 0) (f j : ℕ) (q : PriorityQueue) → All P q → All P (up f j q)
unfolding up
All-up P zero j q h = h
All-up P (suc f) j q h = if_either (All P) _ h (All-up P f _ _ (All-swap P q _ j h))

pub length-down : (f i n : ℕ) (q : PriorityQueue) → length (down f i n q) ≡ length q
unfolding down
length-down zero i n q = refl
length-down (suc f) i n q = if_either (SameLength q) (leb n (2 * i + 1)) refl (
    if_either (SameLength q) (not (less_at q (first_child q i n) i)) refl (
      length-down f (first_child q i n) n (swap q i (first_child q i n))
      ∙ length-swap q i (first_child q i n)))

pub All-down :
    (P : TxPriorityItem → Type 0) (f i n : ℕ) (q : PriorityQueue) → All P q → All P (down f i n q)
unfolding down
All-down P zero i n q h = h
All-down P (suc f) i n q h = if_either (All P) (leb n (2 * i + 1)) h (
    if_either (All P) (not (less_at q (first_child q i n) i)) h (
      All-down P f (first_child q i n) n (swap q i (first_child q i n))
        (All-swap P q i (first_child q i n) h)))

pub length-push : (x : TxPriorityItem) (q : PriorityQueue) → length (push x q) ≡ length q + 1
unfolding push
length-push x q =
    length-up (length q + 1) (length q) (q ++ x ∷ []) ∙ omega (arith, length-append q (x ∷ []))

pub All-push :
    (P : TxPriorityItem → Type 0) (x : TxPriorityItem) (q : PriorityQueue)
    → P x
    → All P q
    → All P (push x q)
unfolding push
All-push P x q px h =
    All-up P (length q + 1) (length q) (q ++ x ∷ []) (All-append P q (x ∷ []) h (px, tt))
