-- ===== src/Transfer/Net/Moves.antt =====
-- What the network and the reader can do while the sender waits.
use network_programming.Base.{
  Bool, ℕ, suc, ◌+◌, ◌-◌, ◌≤◌, ◌<◌, some, List, ◌∷◌, ◌++◌, length, get_elem?, Bytes, ◌≡◌, ◌⊎◌, refl,
  subst, ◌∙◌, inl, inr, arith, Option-cases, All-get_elem?,
}
use network_programming.Transfer.Receiver.{
  Receiver, Datagram, Ack, on_datagram, read_buffer, int_max, send_ack_to_server, get_window_size,
  store, update_expected_from,
}
use network_programming.Transfer.Receiver.Arrive.{next_expected, on_datagram-InOrder}
use network_programming.Transfer.Receiver.Pending.{get_window_size-pending, two_passes}
use network_programming.Transfer.Sender.Words.{IsTrue}
use network_programming.Transfer.Net.{
  Net, receiving, ended, phase_after, deliver, reads, Run, stay, then,
}
use network_programming.Transfer.Net.Truth.{line, IsClosed, IsTrue-Carries, IsTruthful}
use network_programming.Transfer.Net.Steps.{deliver-IsTruthful, deliver_count, Step-IsTruthful}
use network_programming.Transfer.Net.Going.{IsGoing, Step-IsGoing}

pub Run-trans : {x y z : Net} → Run x y → Run y z → Run x z
Run-trans r stay = r
Run-trans r (then s t f) = then (Run-trans r s) t f

pub Run-IsGoing : {x y : Net} → Run x y → IsGoing x → IsGoing y
Run-IsGoing stay v = v
Run-IsGoing (then r t f) v = Step-IsGoing t (Run-IsGoing r v)

-- An acknowledgement offers the room of the window that it leaves behind.
on_datagram-rwnd :
    (d : Datagram) (s : Receiver) (r : Receiver) (a : Ack) (stop : Bool)
    → on_datagram d s ≡ some (r, a, stop)
    → a.rwnd ≡ get_window_size r.window
unfolding on_datagram send_ack_to_server
on_datagram-rwnd d s r a stop h =
    elim (Option-cases (update_expected_from (suc (length (store d s))) (store d s) s.expected)) [
      | inl n ↦ absurd (ground arith)
      | inr (e, n) ↦ ground arith
    ]

-- A net in which the sender, and what it has sent, are those of `x`.
pub record Served (words : List Bytes) (slots : ℕ) (x : Net) : Type 0 where
  pub net : Net
  pub reach : Run x net
  pub live : IsTruthful words slots net
  pub sender : net.sender ≡ x.sender
  pub sent : net.sent ≡ x.sent

-- A datagram has been handled with everything below number `lo` printed, and `reply` is on its way.
pub record Delivered (words : List Bytes) (slots lo : ℕ) (d : Datagram) (x : Net) : Type 0 where
  pub served : Served words slots x
  pub phase : (served.net.phase ≡ receiving) ⊎ (served.net.phase ≡ ended)
  pub count : served.live.count ≡ lo
  pub reply : Ack
  pub acks : get_elem? served.net.acks 0 ≡ some reply
  pub seq : reply.seq ≡ served.net.receiver.expected
  pub room : reply.rwnd + (served.net.receiver.expected - lo) ≡ slots
  pub expected :
      served.net.receiver.expected ≡ next_expected slots lo d.kind d.seq x.receiver.expected

module _ (words : List Bytes) (slots : ℕ) (small : length words < int_max) where
  module _ (x : Net) (v : IsTruthful words slots x) (f : x.phase ≡ receiving) where
    pub deliver_at :
        (i : ℕ) (d : Datagram) → get_elem? x.sent i ≡ some d → Delivered words slots v.count d x
    deliver_at i d e =
        let t = All-get_elem? (IsTrue words) x.sent i v.true_words e in
        let (r, a, stop, h, o, q, m) =
          on_datagram-InOrder slots (line words) v.count d x.receiver v.ordered
            (IsTrue-Carries words d.kind d small refl t) in
        record {
          served = record {
            net = record x { receiver = r; acks = a ∷ x.acks; phase = phase_after stop };
            reach = then stay (deliver i d r a stop f e h refl) tt;
            live = deliver-IsTruthful words slots small x v d r a stop f t h;
            sender = refl;
            sent = refl;
          };
          phase = ground arith;
          count = deliver_count words slots small x v d r a stop f t h;
          reply = a;
          acks = refl;
          seq = q;
          room =
              rw (on_datagram-rwnd d x.receiver r a stop h)
                (get_window_size-pending slots (line words) v.count r o);
          expected = m;
        }

    -- Two passes of the reader.
    pub read_all :
        (s : Served words slots x) × (s.net.receiver.expected ≡ x.receiver.expected)
        × (s.live.count ≡ s.net.receiver.expected)
        × (s.net.phase ≡ receiving)
    read_all =
        let first = read_buffer x.receiver.window in
        let second = read_buffer first.0 in
        let y : Net = record x {
          receiver = record x.receiver { window = first.0 };
          printed = x.printed ++ first.1;
        } in
        let z : Net = record y {
          receiver = record y.receiver { window = second.0 };
          printed = y.printed ++ second.1;
        } in
        let to_y : Run x y = then stay (reads f refl) tt in
        let v' =
          Step-IsTruthful words slots small {x = y} {y = z} (reads f refl)
            (Step-IsTruthful words slots small {x = x} {y = y} (reads f refl) v) in
        let (_, empty) = two_passes slots (line words) v.count x.receiver v.ordered in
        let room = get_window_size-pending slots (line words) v'.count z.receiver v'.ordered in
        (
          record {
            net = z;
            reach = then to_y (reads f refl) tt;
            live = v';
            sender = refl;
            sent = refl;
          },
          refl,
          omega (arith, empty, room, v'.ordered.low, v'.ordered.next),
          f,
        )

  -- Once the first datagram has been accepted it can always serve once more: an acknowledgement arrives
  -- that asks for the number expected, and that offers every slot.
  pub refresh :
      (x : Net)
      → IsTruthful words slots x
      → IsGoing x
      → x.phase ≡ receiving
      → 1 ≤ x.receiver.expected
      → (s : Served words slots x) × (a : Ack) × (get_elem? s.net.acks 0 ≡ some a)
        × (a.seq ≡ x.receiver.expected)
        × (a.rwnd ≡ slots)
        × (s.net.receiver.expected ≡ x.receiver.expected)
        × (s.net.phase ≡ receiving)
  refresh x v g f p =
      let (s, e, c, f') = read_all x v f in
      let d = deliver_at s.net s.live f' 0 g.head (rw s.sent g.first) in
      let same : d.served.net.receiver.expected ≡ x.receiver.expected =
        ground (arith, d.expected, e, g.seq) in
      (
        record {
          net = d.served.net;
          reach = Run-trans s.reach d.served.reach;
          live = d.served.live;
          sender = d.served.sender ∙ s.sender;
          sent = d.served.sent ∙ s.sent;
        },
        d.reply,
        d.acks,
        d.seq ∙ same,
        omega (arith, d.room, same, c, e),
        same,
        elim d.phase [
          | inl k ↦ k
          | inr k ↦
              let at_end =
                subst (λ q. IsClosed words q d.served.net.receiver.expected) k
                  d.served.live.closed in
              let inside = subst (λ q. IsClosed words q x.receiver.expected) f v.closed in
              absurd (omega (arith, at_end, inside, same))
        ],
      )
