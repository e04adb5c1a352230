-- ===== src/Network/Order.antt =====
-- network.go: the order in which the messages of high priority leave, whatever else happens.
use shardmatrix.Prelude.{
  ℕ, suc, ◌≤◌, ◌≡◌, refl, List, [], ◌∷◌, ◌++◌, length, ◌==◌, if◌then◌else◌, arith, All,
}
use shardmatrix.Network.{Message, PriorityQueue, priority_high, priority_medium, priority_low}
use shardmatrix.Network.Sending.{high_capacity, medium_capacity, low_capacity}
use shardmatrix.Network.Looping.{
  LoopState, receiving, holding_medium, holding_low, returning_medium, returning_low, Sender,
}

-- The messages of a priority, in their order.
unfoldable pub with_priority : ℕ → List Message → List Message
with_priority p [] = []
with_priority p (m ∷ ms) =
    let rest = with_priority p ms in if m.priority == p then m ∷ rest else rest

with_priority-append :
    (p : ℕ) (xs ys : List Message)
    → with_priority p (xs ++ ys) ≡ with_priority p xs ++ with_priority p ys
unfolding with_priority
with_priority-append p [] ys = refl
with_priority-append p (m ∷ xs) ys = let rest = with_priority-append p xs ys in ground arith

pub with_priority_same :
    (m : Message) (xs : List Message)
    → m.priority ≡ priority_high
    → with_priority priority_high (xs ++ m ∷ []) ≡ with_priority priority_high xs ++ m ∷ []
unfolding with_priority
with_priority_same m xs h =
    let split = with_priority-append priority_high xs (m ∷ []) in ground arith

pub with_priority_other :
    (m : Message) (xs : List Message) {p : ℕ}
    → m.priority ≡ suc p
    → with_priority priority_high (xs ++ m ∷ []) ≡ with_priority priority_high xs ++ []
unfolding with_priority
with_priority_other m xs h =
    let split = with_priority-append priority_high xs (m ∷ []) in ground arith

abbrev pub Have : ℕ → List Message → Type 0
Have p = All (λ m. m.priority ≡ p)

pub Have-append :
    (p : ℕ) (xs : List Message) (m : Message) → Have p xs → m.priority ≡ p → Have p (xs ++ m ∷ [])
Have-append p [] m h e = (e, tt)
Have-append p (x ∷ xs) m (first, h) e = (first, Have-append p xs m h e)

-- The message that the loop holds is of the queue that it took it from.
abbrev pub Holds : LoopState → Type 0
Holds receiving = Unit
Holds (holding_medium m) = m.priority ≡ priority_medium
Holds (returning_medium m) = m.priority ≡ priority_medium
Holds (holding_low m) = m.priority ≡ priority_low
Holds (returning_low m) = m.priority ≡ priority_low

-- Each queue has the messages of its priority and keeps to its capacity; the high ones that were
-- sent and those that wait are those accepted, in their order.
pub record IsOrdered (q : PriorityQueue) (loop : LoopState) (accepted sent : List Message)
    : Type 0 where
  pub in_high : Have priority_high q.high
  pub in_medium : Have priority_medium q.medium
  pub in_low : Have priority_low q.low
  pub held : Holds loop
  pub high_fits : length q.high ≤ high_capacity
  pub medium_fits : length q.medium ≤ medium_capacity
  pub low_fits : length q.low ≤ low_capacity
  pub in_order : with_priority priority_high sent ++ q.high ≡ with_priority priority_high accepted

abbrev pub Ordered : {F H : Type 0} → Sender F H → Type 0
Ordered s = IsOrdered s.network.priority_queue s.loop s.accepted s.sent
