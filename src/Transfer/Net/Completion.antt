-- ===== src/Transfer/Net/Completion.antt =====
-- A transfer can always be completed.
use network_programming.Base.{
  ℕ, zero, suc, ◌+◌, ◌≤◌, ◌<◌, none, List, length, Bytes, ◌≡◌, ◌≢◌, refl, subst, ap, ◌∙◌, inl, inr,
  arith,
}
use network_programming.Transfer.Receiver.{Datagram, int_max}
use network_programming.Transfer.Rtt.{Timer, max_nrexmt}
use network_programming.Transfer.Sender.{Sender, Wait, waiting, grow}
use network_programming.Transfer.Net.{Net, receiving, begin, Reach, Run}
use network_programming.Transfer.Net.Sending.{IsSound}
use network_programming.Transfer.Net.Truth.{IsClosed}
use network_programming.Transfer.Net.Steps.{begin-IsTruthful, Reach-IsTruthful}
use network_programming.Transfer.Net.Going.{IsReady, Reach-IsGoing, begin-IsGoing}
use network_programming.Transfer.Net.Moves.{
  Served, Run-trans, Run-IsGoing, deliver_at, refresh, Delivered,
}
use network_programming.Transfer.Net.Moves
use network_programming.Transfer.Net.Rounds.{CanGoOn, IsLeft, Completes, later-Completes}
use network_programming.Transfer.Net.Answers.{at_end, one_more}

module _ (words : List Bytes) (slots : ℕ) (small : length words < int_max) where
  -- A client that still reads datagrams serves once more, and is sent one more number.
  go_on :
      (got : ℕ) (x : Net)
      → CanGoOn words slots got x
      → x.phase ≡ receiving
      → 1 ≤ got
      → 0 < slots
      → (z : Net) × Run x z × CanGoOn words slots (got + 1) z
  go_on got x o f p q =
      let (s, a, i, seq, rwnd, e, f') =
        refresh words slots small x o.truthful o.going f (omega (arith, p, o.expected)) in
      let low = subst (λ k. IsClosed words k x.receiver.expected) f o.truthful.closed in
      let o' : CanGoOn words slots got s.net = record {
        truthful = s.live;
        going = Run-IsGoing s.reach o.going;
        expected = e ∙ o.expected;
        sender = o.sender;
        wait = o.wait;
        waits = s.sender ∙ o.waits;
        patient = o.patient;
        small = o.small;
        phase = inl f';
        in_step = o.in_step;
      } in
      let (z, to, v) =
        one_more words slots small got s.net o' q a i (seq ∙ o.expected) rwnd
          (omega (arith, low, o.expected)) f' in
      (z, Run-trans s.reach to, v)

  -- The acknowledgement of the whole file is on its way.
  left-Completes :
      (got : ℕ) (x : Net) (o : CanGoOn words slots got x)
      → 0 < slots
      → IsLeft words slots got x o.truthful
      → Completes words x
  left-Completes got x o q e =
      let over = subst (λ k. IsClosed words k x.receiver.expected) e.phase o.truthful.closed in
      at_end words slots small got x o q e.reply e.acks e.seq (omega (arith, over, o.expected))
        e.phase e.count

  go_on-Completes :
      (left got : ℕ) (x : Net)
      → CanGoOn words slots got x
      → 1 ≤ got
      → 0 < slots
      → length words + 1 ≤ got + left
      → Completes words x
  go_on-Completes zero got x o p q l = elim o.phase [
    | inr e ↦ left-Completes got x o q e
    | inl f ↦
        let low = subst (λ k. IsClosed words k x.receiver.expected) f o.truthful.closed in
        absurd (omega (arith, low, l, o.expected))
  ]
  go_on-Completes (suc left) got x o p q l = elim o.phase [
    | inr e ↦ left-Completes got x o q e
    | inl f ↦
        let (z, to, v) = go_on got x o f p q in
        later-Completes words to
          (go_on-Completes left (got + 1) z v (omega arith) q (omega (arith, l)))
  ]

  -- Before anything has been accepted the first datagram can arrive.
  opened :
      (x : Net)
      → CanGoOn words slots 0 x
      → x.phase ≡ receiving
      → 0 < slots
      → (z : Net) × Run x z × CanGoOn words slots 1 z
  opened x o f q =
      let (s, e, c, f') = Moves.read_all words slots small x o.truthful f in
      let d =
        deliver_at words slots small s.net s.live f' 0 o.going.head (rw s.sent o.going.first) in
      let to_end = Run-trans s.reach d.served.reach in
      let waits = d.served.sender ∙ (s.sender ∙ o.waits) in
      let sound = subst (IsSound words d.served.net.receiver.expected) waits d.served.live.sound in
      let ready = subst IsReady o.waits o.going.ready in
      let up : d.served.net.receiver.expected ≡ 1 =
        ground (arith, d.expected, o.going.kind, o.going.seq, e, c, o.expected) in
      (
        d.served.net,
        to_end,
        record {
          truthful = d.served.live;
          going = Run-IsGoing to_end o.going;
          expected = up;
          sender = o.sender;
          wait = o.wait;
          waits = waits;
          patient = o.patient;
          small = o.small;
          phase = elim d.phase [
            | inl k ↦ inl k
            | inr k ↦
                let at_end =
                  subst (λ q. IsClosed words q d.served.net.receiver.expected) k
                    d.served.live.closed in
                inr (record {
                  phase = k;
                  count = omega (arith, d.count, c, e, o.expected, at_end, up);
                  reply = d.reply;
                  acks = d.acks;
                  seq = d.seq ∙ up;
                })
          ];
          in_step = λ m ne.
              omega
                (arith, ready.1.begun, sound.placed.inside m, ap (length {A = Bytes}) sound.same);
        },
      )

  can_go_on-Completes :
      (got : ℕ) (x : Net)
      → CanGoOn words slots got x
      → x.phase ≡ receiving
      → 0 < slots
      → Completes words x
  can_go_on-Completes zero x o f q =
      let (z, to, v) = opened x o f q in
      later-Completes words to (go_on-Completes (length words) 1 z v (omega arith) q (omega arith))
  can_go_on-Completes (suc got) x o f q =
      go_on-Completes (length words) (suc got) x o (omega arith) q (omega arith)

  -- Both ends of a transfer, with a network that may have lost, repeated and reordered what they send,
  -- and with at least one slot at either end: as long as the client has not left its loop over the
  -- datagrams, whenever the sender waits and has not yet used up its retransmissions, the transfer can
  -- still be completed. There are further deliveries, passes of the reader, acknowledgements and timeouts
  -- after which the sender has ended the transfer, the client has left its loop and made the one last
  -- pass of `main`, and every word of the file and the line for the end of it has been printed, in order
  -- and each once; and none of these steps takes the congestion window past INT_MAX. It is assumed that
  -- the file has less than INT_MAX words, that before the sender sees the end of the file it has not
  -- been handed, while it waited for another number, an acknowledgement of the whole file, that the
  -- client does not now stand at the end of the file while the sender waits for another number and has
  -- not seen that end, and that one more acknowledgement does not take the congestion window past
  -- INT_MAX.
  pub Reach-Completes :
      (ts rwnd : ℕ) (timer : Timer) (q_obj : Datagram) (y : Net) (s : Sender) (w : Wait)
      → 0 < slots
      → 1 ≤ rwnd
      → Reach (begin ts words rwnd timer q_obj slots) y
      → y.phase ≡ receiving
      → y.sender ≡ waiting s w
      → s.timer.nrexmt < max_nrexmt
      → grow s ≤ int_max
      → (s.last_pack ≡ none → y.receiver.expected ≢ s.next → y.receiver.expected < length words)
      → Completes words y
  Reach-Completes ts rwnd timer q_obj y s w q l r f e p g i =
      can_go_on-Completes y.receiver.expected y
        (record {
          truthful =
              Reach-IsTruthful words slots small r
                (begin-IsTruthful words slots small ts rwnd timer q_obj q);
          going = Reach-IsGoing r (begin-IsGoing ts words rwnd timer q_obj slots l);
          expected = refl;
          sender = s;
          wait = w;
          waits = e;
          patient = p;
          small = g;
          phase = inl f;
          in_step = i;
        })
        f q
