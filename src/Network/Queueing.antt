-- ===== src/Network/Queueing.antt =====
-- network.go: what broadcast does to the queues and to the order in them.
use shardmatrix.Prelude.{
  ℕ, ◌<◌, ◌≡◌, refl, List, [], ◌∷◌, ◌++◌, length, ltb, ◌==◌, none, some, Result, ok, err, ◌⊎◌, inl,
  inr, Bool-cases, ltb→lt, ==_iff,
}
use shardmatrix.Network.{Network, Message, priority_high, priority_medium, priority_low}
use shardmatrix.Network.Sending.{
  Sending, queue_high, queue_medium, queue_low, offer, broadcast, queue_message, check_bandwidth,
  prepare, high_capacity, medium_capacity, low_capacity, SendError,
}
use shardmatrix.Network.Looping.{LoopState}
use shardmatrix.Network.Order.{IsOrdered}
use shardmatrix.Network.Moves.{accepts_high, accepts_medium, accepts_low}

-- The messages accepted, after a result of broadcast.
abbrev pub and_accepted : Result SendError Message → List Message → List Message
and_accepted (ok m) ms = ms ++ m ∷ []
and_accepted (err _) ms = ms

-- A channel that has room takes the message, and one without does not.
pub offer-cases :
    (capacity : ℕ) (m : Message) (ms : List Message)
    → (offer capacity m ms ≡ none)
      ⊎ (length ms < capacity) × (offer capacity m ms ≡ some (ms ++ m ∷ []))
unfolding offer
offer-cases capacity m ms = elim (Bool-cases (ltb (length ms) capacity)) [
  | inl room ↦ inr (ltb→lt (length ms) capacity room, rw room refl)
  | inr full ↦ inl (rw full refl)
]

module _ {F H : Type 0} where
  -- A result of broadcast that keeps the order.
  abbrev pub Keeps : LoopState → List Message → List Message → Sending F H → Type 0
  Keeps loop accepted sent r = IsOrdered r.1.priority_queue loop (and_accepted r.0 accepted) sent

  queue_high-IsOrdered :
      (m : Message) (n : Network F H) (loop : LoopState) (accepted sent : List Message)
      → m.priority ≡ priority_high
      → IsOrdered n.priority_queue loop accepted sent
      → Keeps loop accepted sent (queue_high m n)
  unfolding queue_high
  queue_high-IsOrdered m n loop accepted sent e h =
      elim (offer-cases high_capacity m n.priority_queue.high) [
        | inr (fits, taken) ↦ rw (queue_high, taken) (accepts_high m h e fits)
        | inl full ↦ rw (queue_high, full) h
      ]

  queue_medium-IsOrdered :
      (m : Message) (n : Network F H) (loop : LoopState) (accepted sent : List Message)
      → m.priority ≡ priority_medium
      → IsOrdered n.priority_queue loop accepted sent
      → Keeps loop accepted sent (queue_medium m n)
  unfolding queue_medium
  queue_medium-IsOrdered m n loop accepted sent e h =
      elim (offer-cases medium_capacity m n.priority_queue.medium) [
        | inr (fits, taken) ↦ rw (queue_medium, taken) (accepts_medium m h e fits)
        | inl full ↦ rw (queue_medium, full) h
      ]

  queue_low-IsOrdered :
      (m : Message) (n : Network F H) (loop : LoopState) (accepted sent : List Message)
      → m.priority ≡ priority_low
      → IsOrdered n.priority_queue loop accepted sent
      → Keeps loop accepted sent (queue_low m n)
  unfolding queue_low
  queue_low-IsOrdered m n loop accepted sent e h =
      elim (offer-cases low_capacity m n.priority_queue.low) [
        | inr (fits, taken) ↦ rw (queue_low, taken) (accepts_low m h e fits)
        | inl full ↦ rw (queue_low, full) h
      ]

  queue_message-IsOrdered :
      (m : Message) (n : Network F H) (loop : LoopState) (accepted sent : List Message)
      → IsOrdered n.priority_queue loop accepted sent
      → Keeps loop accepted sent (queue_message m n)
  unfolding queue_message
  queue_message-IsOrdered m n loop accepted sent h =
      elim (Bool-cases (m.priority == priority_high)) [
        | inl high ↦
            rw (queue_message, high)
              (queue_high-IsOrdered m n loop accepted sent ((==_iff m.priority 0).0 high) h)
        | inr not_high ↦ elim (Bool-cases (m.priority == priority_medium)) [
          | inl medium ↦
              rw (queue_message, not_high, medium)
                (queue_medium-IsOrdered m n loop accepted sent ((==_iff m.priority 1).0 medium) h)
          | inr not_medium ↦ elim (Bool-cases (m.priority == priority_low)) [
            | inl low ↦
                rw (queue_message, not_high, not_medium, low)
                  (queue_low-IsOrdered m n loop accepted sent ((==_iff m.priority 2).0 low) h)
            | inr not_low ↦ rw (queue_message, not_high, not_medium, not_low) h
          ]
        ]
      ]

  pub broadcast-IsOrdered :
      (now : ℕ) (m : Message) (n : Network F H) (loop : LoopState) (accepted sent : List Message)
      → IsOrdered n.priority_queue loop accepted sent
      → let r = broadcast now m n in
        IsOrdered r.1.priority_queue loop (and_accepted r.0 accepted) sent
  unfolding broadcast
  broadcast-IsOrdered now m n loop accepted sent h =
      let m' = prepare m in
      let (fits, l) = check_bandwidth now m'.size n.bandwidth_limiter in
      elim (Bool-cases fits) [
        | inl allowed ↦
            rw (broadcast, allowed)
              (queue_message-IsOrdered m' (record n { bandwidth_limiter = l }) loop accepted sent h)
        | inr refused ↦ rw (broadcast, refused) h
      ]
