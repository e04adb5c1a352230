-- ===== src/Network/Moves.antt =====
-- network.go: what a message that moves between the queues and the peers does to the order.
use shardmatrix.Prelude.{
  ℕ, suc, ◌<◌, ◌≡◌, sym, ◌∙◌, ap, subst, List, [], ◌∷◌, ◌++◌, length, arith, append_assoc,
  append_nil, length-append,
}
use shardmatrix.Network.{Message, PriorityQueue, priority_high, priority_medium, priority_low}
use shardmatrix.Network.Sending.{high_capacity, medium_capacity, low_capacity}
use shardmatrix.Network.Looping.{LoopState, receiving}
use shardmatrix.Network.Order.{
  with_priority, with_priority_same, with_priority_other, Have, Have-append, IsOrdered, Holds,
}

module _ {q : PriorityQueue} {loop : LoopState} {accepted sent : List Message} where
  -- A message that a queue takes.
  pub accepts_high :
      (m : Message)
      → IsOrdered q loop accepted sent
      → m.priority ≡ priority_high
      → length q.high < high_capacity
      → IsOrdered (record q { high = q.high ++ m ∷ [] }) loop (accepted ++ m ∷ []) sent
  accepts_high m h e room =
      let longer = length-append q.high (m ∷ []) in
      record {
        in_high = Have-append priority_high q.high m h.in_high e;
        in_medium = h.in_medium;
        in_low = h.in_low;
        held = h.held;
        high_fits = omega arith;
        medium_fits = h.medium_fits;
        low_fits = h.low_fits;
        in_order =
            sym (append_assoc (with_priority priority_high sent) q.high (m ∷ []))
            ∙ ap (λ ms. ms ++ m ∷ []) h.in_order
            ∙ sym (with_priority_same m accepted e);
      }

  pub accepts_medium :
      (m : Message)
      → IsOrdered q loop accepted sent
      → m.priority ≡ priority_medium
      → length q.medium < medium_capacity
      → IsOrdered (record q { medium = q.medium ++ m ∷ [] }) loop (accepted ++ m ∷ []) sent
  accepts_medium m h e room =
      let longer = length-append q.medium (m ∷ []) in
      record {
        in_high = h.in_high;
        in_medium = Have-append priority_medium q.medium m h.in_medium e;
        in_low = h.in_low;
        held = h.held;
        high_fits = h.high_fits;
        medium_fits = omega arith;
        low_fits = h.low_fits;
        in_order = h.in_order ∙ sym (with_priority_other m accepted e ∙ append_nil _);
      }

  pub accepts_low :
      (m : Message)
      → IsOrdered q loop accepted sent
      → m.priority ≡ priority_low
      → length q.low < low_capacity
      → IsOrdered (record q { low = q.low ++ m ∷ [] }) loop (accepted ++ m ∷ []) sent
  accepts_low m h e room =
      let longer = length-append q.low (m ∷ []) in
      record {
        in_high = h.in_high;
        in_medium = h.in_medium;
        in_low = Have-append priority_low q.low m h.in_low e;
        held = h.held;
        high_fits = h.high_fits;
        medium_fits = h.medium_fits;
        low_fits = omega arith;
        in_order = h.in_order ∙ sym (with_priority_other m accepted e ∙ append_nil _);
      }

  -- A message of the medium or the low queue that is put back.
  pub returns_medium :
      (m : Message)
      → IsOrdered q loop accepted sent
      → m.priority ≡ priority_medium
      → length q.medium < medium_capacity
      → IsOrdered (record q { medium = q.medium ++ m ∷ [] }) receiving accepted sent
  returns_medium m h e room =
      let longer = length-append q.medium (m ∷ []) in
      record {
        in_high = h.in_high;
        in_medium = Have-append priority_medium q.medium m h.in_medium e;
        in_low = h.in_low;
        held = tt;
        high_fits = h.high_fits;
        medium_fits = omega arith;
        low_fits = h.low_fits;
        in_order = h.in_order;
      }

  pub returns_low :
      (m : Message)
      → IsOrdered q loop accepted sent
      → m.priority ≡ priority_low
      → length q.low < low_capacity
      → IsOrdered (record q { low = q.low ++ m ∷ [] }) receiving accepted sent
  returns_low m h e room =
      let longer = length-append q.low (m ∷ []) in
      record {
        in_high = h.in_high;
        in_medium = h.in_medium;
        in_low = Have-append priority_low q.low m h.in_low e;
        held = tt;
        high_fits = h.high_fits;
        medium_fits = h.medium_fits;
        low_fits = omega arith;
        in_order = h.in_order;
      }

  -- The queues as they are, with the loop elsewhere.
  pub goes_on :
      (after : LoopState)
      → IsOrdered q loop accepted sent
      → Holds after
      → IsOrdered q after accepted sent
  goes_on after h held = record {
    in_high = h.in_high;
    in_medium = h.in_medium;
    in_low = h.in_low;
    held = held;
    high_fits = h.high_fits;
    medium_fits = h.medium_fits;
    low_fits = h.low_fits;
    in_order = h.in_order;
  }

  -- A message that is sent and is not of high priority.
  pub sends_other :
      (m : Message) {p : ℕ}
      → IsOrdered q loop accepted sent
      → m.priority ≡ suc p
      → IsOrdered q loop accepted (sent ++ m ∷ [])
  sends_other m h e = record {
    in_high = h.in_high;
    in_medium = h.in_medium;
    in_low = h.in_low;
    held = h.held;
    high_fits = h.high_fits;
    medium_fits = h.medium_fits;
    low_fits = h.low_fits;
    in_order = ap (λ ms. ms ++ q.high) (with_priority_other m sent e ∙ append_nil _) ∙ h.in_order;
  }

  -- The oldest of a queue leaves it.
  pub sends_high :
      (m : Message) (rest : List Message)
      → q.high ≡ m ∷ rest
      → IsOrdered q loop accepted sent
      → IsOrdered (record q { high = rest }) loop accepted (sent ++ m ∷ [])
  sends_high m rest e h =
      let (first, others) = subst (Have priority_high) e h.in_high in
      let shorter = ap length e in
      let fits = h.high_fits in
      record {
        in_high = others;
        in_medium = h.in_medium;
        in_low = h.in_low;
        held = h.held;
        high_fits = omega arith;
        medium_fits = h.medium_fits;
        low_fits = h.low_fits;
        in_order =
            ap (λ ms. ms ++ rest) (with_priority_same m sent first)
            ∙ append_assoc (with_priority priority_high sent) (m ∷ []) rest
            ∙ ap (λ ms. with_priority priority_high sent ++ ms) (sym e)
            ∙ h.in_order;
      }

  pub takes_medium :
      (m : Message) (rest : List Message)
      → q.medium ≡ m ∷ rest
      → IsOrdered q loop accepted sent
      → IsOrdered (record q { medium = rest }) loop accepted sent × (m.priority ≡ priority_medium)
  takes_medium m rest e h =
      let (first, others) = subst (Have priority_medium) e h.in_medium in
      let shorter = ap length e in
      let fits = h.medium_fits in
      (
        record {
          in_high = h.in_high;
          in_medium = others;
          in_low = h.in_low;
          held = h.held;
          high_fits = h.high_fits;
          medium_fits = omega arith;
          low_fits = h.low_fits;
          in_order = h.in_order;
        },
        first,
      )

  pub takes_low :
      (m : Message) (rest : List Message)
      → q.low ≡ m ∷ rest
      → IsOrdered q loop accepted sent
      → IsOrdered (record q { low = rest }) loop accepted sent × (m.priority ≡ priority_low)
  takes_low m rest e h =
      let (first, others) = subst (Have priority_low) e h.in_low in
      let shorter = ap length e in
      let fits = h.low_fits in
      (
        record {
          in_high = h.in_high;
          in_medium = h.in_medium;
          in_low = others;
          held = h.held;
          high_fits = h.high_fits;
          medium_fits = h.medium_fits;
          low_fits = omega arith;
          in_order = h.in_order;
        },
        first,
      )
