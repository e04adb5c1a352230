-- ===== src/Network/Steps.antt =====
-- network.go: any calls of broadcast between any steps of the loop.
use shardmatrix.Prelude.{
  ℕ, ◌≡◌, sym, subst, ◌&&◌, List, [], ◌∷◌, arith, inl, inr, Bool-cases, List-cases,
}
use shardmatrix.Dpos.Health.{Float64}
use shardmatrix.Network.{Network, Message, priority_medium, priority_low}
use shardmatrix.Network.Sending.{broadcast, set_bandwidth_limit, medium_capacity, low_capacity}
use shardmatrix.Network.Looping.{
  LoopState, receiving, holding_medium, holding_low, returning_medium, returning_low, Choice,
  from_high, from_medium, from_low, default, Sender, select_at, loop_step, take_high, take_medium,
  hold_medium, hold_low, return_medium, return_low, default_medium, default_low,
  update_congestion_level, is_empty,
}
use shardmatrix.Network.Order.{IsOrdered, Ordered, Holds}
use shardmatrix.Network.Moves.{
  returns_medium, returns_low, goes_on, sends_other, sends_high, takes_medium, takes_low,
}
use shardmatrix.Network.Queueing.{and_accepted, offer-cases, broadcast-IsOrdered}

-- What may happen to a sender, with the times: a call of broadcast, a step of the loop, of
-- the congestion monitor, a call of SetBandwidthLimit.
pub data Event : Type 0 where
  broadcasting : ℕ → Message → Event
  looping : Choice → Event
  measuring : ℕ → Event
  limiting : ℕ → Event

module _ {F H : Type 0} (fl : Float64 F) where
  unfoldable pub act : Event → Sender F H → Sender F H
  unfolding broadcast loop_step update_congestion_level set_bandwidth_limit
  act (broadcasting now m) s =
      let (result, n) = broadcast now m s.network in
      record s { network = n; accepted = and_accepted result s.accepted }
  act (looping choice) s = loop_step fl choice s
  act (measuring now) s = record s { network = update_congestion_level fl now s.network }
  act (limiting limit) s = record s {
    network = record (s.network) {
      bandwidth_limiter = set_bandwidth_limit limit s.network.bandwidth_limiter;
    };
  }

  unfoldable pub act_all : List Event → Sender F H → Sender F H
  unfolding act
  act_all [] s = s
  act_all (e ∷ es) s = act_all es (act e s)

module _ {F H : Type 0} where
  take_high-Ordered :
      (after : LoopState) (s : Sender F H) → Holds after → Ordered s → Ordered (take_high after s)
  unfolding take_high
  take_high-Ordered after s held h = elim (List-cases s.network.priority_queue.high) [
    | inl empty ↦ rw (take_high, empty) h
    | inr (m, rest, waits) ↦ rw (take_high, waits) (goes_on after (sends_high m rest waits h) held)
  ]

  take_medium-Ordered :
      (after : LoopState) (s : Sender F H) → Holds after → Ordered s → Ordered (take_medium after s)
  unfolding take_medium
  take_medium-Ordered after s held h = elim (List-cases s.network.priority_queue.medium) [
    | inl empty ↦ rw (take_medium, empty) h
    | inr (m, rest, waits) ↦
        let (h', e) = takes_medium m rest waits h in
        rw (take_medium, waits) (goes_on after (sends_other m h' e) held)
  ]

  hold_medium-Ordered : (s : Sender F H) → Ordered s → Ordered (hold_medium s)
  unfolding hold_medium
  hold_medium-Ordered s h = elim (List-cases s.network.priority_queue.medium) [
    | inl empty ↦ rw (hold_medium, empty) h
    | inr (m, rest, waits) ↦
        let (h', e) = takes_medium m rest waits h in
        rw (hold_medium, waits) (goes_on (holding_medium m) h' e)
  ]

  hold_low-Ordered : (s : Sender F H) → Ordered s → Ordered (hold_low s)
  unfolding hold_low
  hold_low-Ordered s h = elim (List-cases s.network.priority_queue.low) [
    | inl empty ↦ rw (hold_low, empty) h
    | inr (m, rest, waits) ↦
        let (h', e) = takes_low m rest waits h in
        rw (hold_low, waits) (goes_on (holding_low m) h' e)
  ]

  return_medium-Ordered :
      (m : Message) (s : Sender F H)
      → m.priority ≡ priority_medium
      → Ordered s
      → Ordered (return_medium m s)
  unfolding return_medium
  return_medium-Ordered m s e h =
      let q = s.network.priority_queue in
      elim (offer-cases medium_capacity m q.medium) [
        | inr (fits, taken) ↦ rw (return_medium, taken) (returns_medium m h e fits)
        | inl full ↦ rw (return_medium, full) (goes_on receiving h tt)
      ]

  return_low-Ordered :
      (m : Message) (s : Sender F H)
      → m.priority ≡ priority_low
      → Ordered s
      → Ordered (return_low m s)
  unfolding return_low
  return_low-Ordered m s e h =
      let q = s.network.priority_queue in
      elim (offer-cases low_capacity m q.low) [
        | inr (fits, taken) ↦ rw (return_low, taken) (returns_low m h e fits)
        | inl full ↦ rw (return_low, full) (goes_on receiving h tt)
      ]

  default_medium-Ordered :
      (m : Message) (s : Sender F H)
      → m.priority ≡ priority_medium
      → Ordered s
      → Ordered (default_medium m s)
  unfolding default_medium
  default_medium-Ordered m s e h = elim (Bool-cases (is_empty s.network.priority_queue.high)) [
    | inl empty ↦ rw (default_medium, empty) (goes_on receiving (sends_other m h e) tt)
    | inr waits ↦ rw (default_medium, waits) h
  ]

  default_low-Ordered :
      (fl : Float64 F) (m : Message) (s : Sender F H)
      → m.priority ≡ priority_low
      → Ordered s
      → Ordered (default_low fl m s)
  unfolding default_low
  default_low-Ordered fl m s e h =
      let q = s.network.priority_queue in
      let calm = fl.lt s.network.congestion_ctrl.congestion_level (fl.decimal 80) in
      elim (Bool-cases (is_empty q.high && is_empty q.medium)) [
        | inl empty ↦ elim (Bool-cases calm) [
          | inl is_calm ↦
              rw (default_low, empty, is_calm) (goes_on receiving (sends_other m h e) tt)
          | inr congested ↦ rw (default_low, empty, congested) (goes_on receiving h tt)
        ]
        | inr waits ↦ rw (default_low, waits) h
      ]

  select_at-Ordered :
      (fl : Float64 F) (loop : LoopState) (choice : Choice) (s : Sender F H)
      → Holds loop
      → Ordered s
      → Ordered (select_at fl loop choice s)
  unfolding select_at
  select_at-Ordered fl receiving from_high s e h = take_high-Ordered receiving s tt h
  select_at-Ordered fl receiving from_medium s e h = hold_medium-Ordered s h
  select_at-Ordered fl receiving from_low s e h = hold_low-Ordered s h
  select_at-Ordered fl receiving default s e h = h
  select_at-Ordered fl (holding_medium m) from_high s e h =
      take_high-Ordered (returning_medium m) s e h
  select_at-Ordered fl (holding_medium m) from_medium s e h = h
  select_at-Ordered fl (holding_medium m) from_low s e h = h
  select_at-Ordered fl (holding_medium m) default s e h = default_medium-Ordered m s e h
  select_at-Ordered fl (holding_low m) from_high s e h = take_high-Ordered (returning_low m) s e h
  select_at-Ordered fl (holding_low m) from_medium s e h =
      take_medium-Ordered (returning_low m) s e h
  select_at-Ordered fl (holding_low m) from_low s e h = h
  select_at-Ordered fl (holding_low m) default s e h = default_low-Ordered fl m s e h
  select_at-Ordered fl (returning_medium m) choice s e h = return_medium-Ordered m s e h
  select_at-Ordered fl (returning_low m) choice s e h = return_low-Ordered m s e h

  update_congestion_level-queue :
      (fl : Float64 F) (now : ℕ) (n : Network F H)
      → (update_congestion_level fl now n).priority_queue ≡ n.priority_queue
  unfolding update_congestion_level
  update_congestion_level-queue fl now n = ground arith

  act-Ordered : (fl : Float64 F) (e : Event) (s : Sender F H) → Ordered s → Ordered (act fl e s)
  unfolding act loop_step
  act-Ordered fl (broadcasting now m) s h =
      broadcast-IsOrdered now m s.network s.loop s.accepted s.sent h
  act-Ordered fl (looping choice) s h = select_at-Ordered fl s.loop choice s h.held h
  act-Ordered fl (measuring now) s h =
      subst (λ q. IsOrdered q s.loop s.accepted s.sent)
        (sym (update_congestion_level-queue fl now s.network)) h
  act-Ordered fl (limiting limit) s h = h

  -- Whatever calls of broadcast, steps of the loop, measures of the congestion and changes of the limit
  -- come after one another, and whichever ready case each select takes: if the sender is in order before them, it
  -- is after them. In order means that each queue has messages of its own priority and no more than its
  -- capacity, and that the messages of high priority that were sent, followed by those that wait, are
  -- those that broadcast has accepted: none is lost, doubled or overtaken by another.
  pub act_all-Ordered :
      (fl : Float64 F) (events : List Event) (s : Sender F H)
      → Ordered s
      → Ordered (act_all fl events s)
  unfolding act_all
  act_all-Ordered fl [] s h = h
  act_all-Ordered fl (e ∷ events) s h =
      act_all-Ordered fl events (act fl e s) (act-Ordered fl e s h)
