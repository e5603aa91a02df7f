-- ===== src/Transfer/Net/Steps.antt =====
-- Every step of a transfer keeps what holds of it.
use network_programming.Base.{
  ℕ, suc, ◌-◌, ◌%◌, min, ◌&&◌, ◌==◌, get_elem?, ap, Option-cases, ◌+◌, ◌≤◌, ◌<◌, Bool, some, List,
  ◌∷◌, ◌++◌, All, length, Bytes, ◌≡◌, false, refl, sym, ◌∙◌, subst, inl, inr, arith, true,
  Bool-cases, All-get_elem?, All-append, All-mono,
}
use mathlib.Core.Option.{some-injective}
use network_programming.Transfer.Receiver.{
  Receiver, Datagram, DataType, payload, eof, ack, ping, Ack, Line, on_datagram, read_buffer,
  int_max, last_words, last_pass, is_eof, store, update_expected_from,
}
use network_programming.Transfer.Receiver
use network_programming.Transfer.Receiver.Scan.{stream}
use network_programming.Transfer.Receiver.Order.{InOrder}
use network_programming.Transfer.Receiver.Arrive.{
  is_word, is_taken, next_expected, on_datagram-InOrder,
}
use network_programming.Transfer.Receiver.Read.{read_buffer-InOrder}
use network_programming.Transfer.Receiver.Deliver.{start-InOrder, stream-append}
use network_programming.Transfer.Rtt.{Timer}
use network_programming.Transfer.Sender.{
  Sender, Wait, Transfer, waiting, done, returned, resume, acked, alarm,
}
use network_programming.Transfer.Sender
use network_programming.Transfer.Sender.Words.{IsTrue, get-some}
use network_programming.Transfer.Sender.Words
use network_programming.Transfer.Net.{
  Net, Phase, receiving, ended, exited, phase_after, Step, deliver, reads, exits, answer, timeout,
  begin, Reach, here, next,
}
use network_programming.Transfer.Net.Sending.{IsSound, resume-IsSound}
use network_programming.Transfer.Net.Hearing.{
  IsSound-grows, alarm-IsSound, acked-IsSound, start-IsReturned,
}
use network_programming.Transfer.Net.Truth.{
  line, IsTrue-Carries, number_in_file, IsOld, IsClosed, IsLast, IsTruthful,
}

module _ (words : List Bytes) (slots : ℕ) (small : length words < int_max) where
  pub begin-IsTruthful :
      (ts rwnd : ℕ) (timer : Timer) (q_obj : Datagram)
      → 0 < slots
      → IsTruthful words slots (begin ts words rwnd timer q_obj slots)
  unfolding begin Receiver.start
  begin-IsTruthful ts rwnd timer q_obj p =
      let r =
        resume-IsSound words 0 ts (returned (Sender.start words rwnd timer q_obj))
          (start-IsReturned words 0 rwnd timer q_obj) in
      record {
        count = 0;
        sound = r.0;
        true_words = r.1;
        old = tt;
        ordered = start-InOrder slots (line words) p;
        in_file = omega arith;
        closed = omega arith;
        last = tt;
        output = refl;
      }

  -- What a datagram that is handled does to the client.
  handled :
      (count : ℕ) (d : Datagram) (s r : Receiver) (a : Ack) (stop : Bool)
      → InOrder slots (line words) count s
      → IsTrue words d
      → on_datagram d s ≡ some (r, a, stop)
      → InOrder slots (line words) count r
        × (a.seq ≡ r.expected)
        × (r.expected ≡ next_expected slots count d.kind d.seq s.expected)
  handled count d s r a stop o t h =
      let (r', a', stop', e, o', f, m) =
        on_datagram-InOrder slots (line words) count d s o
          (IsTrue-Carries words d.kind d small refl t) in
      subst
        (λ (t : Receiver × Ack × Bool).
          InOrder slots (line words) count t.0
          × (t.1.seq ≡ t.0.expected)
          × (t.0.expected ≡ next_expected slots count d.kind d.seq s.expected))
        (some-injective (r', a', stop') (r, a, stop) (sym e ∙ h)) (o', f, m)

  next_expected_grows :
      (count : ℕ) (k : DataType) (seq e : ℕ) → e ≤ next_expected slots count k seq e
  next_expected_grows count k seq e = elim (Bool-cases (is_taken slots count k seq e)) [
    | inl t ↦ rw t (omega arith)
    | inr t ↦ rw t (omega arith)
  ]

  next_expected_in_file :
      (count : ℕ) (d : Datagram) (e : ℕ)
      → IsTrue words d
      → e ≤ length words + 1
      → next_expected slots count d.kind d.seq e ≤ length words + 1
  next_expected_in_file count d e t l = elim (Bool-cases (is_taken slots count d.kind d.seq e)) [
    | inl y ↦
        let k : is_word d.kind ≡ true = ground arith in
        let q : d.seq ≡ e = ground arith in
        rw y (omega (arith, number_in_file words d.kind d refl t k, q))
    | inr y ↦ rw y l
  ]

  -- The loop ends exactly when the end of the file has been accepted.
  stop_is :
      (d : Datagram) (s : Receiver) (r : Receiver) (a : Ack) (stop : Bool)
      → on_datagram d s ≡ some (r, a, stop)
      → stop ≡ (is_eof d.kind && (d.seq + 1 == r.expected))
  unfolding on_datagram
  stop_is d s r a stop h =
      elim (Option-cases (update_expected_from (suc (length (store d s))) (store d s) s.expected)) [
        | inl n ↦ absurd (ground arith)
        | inr (e, n) ↦ ground arith
      ]

  next_expected-IsClosed :
      (count : ℕ) (k : DataType) (d : Datagram) (e : ℕ) (stop : Bool)
      → d.kind ≡ k
      → IsTrue words d
      → e ≤ length words
      → stop ≡ (is_eof k && (d.seq + 1 == next_expected slots count k d.seq e))
      → IsClosed words (phase_after stop) (next_expected slots count k d.seq e)
  next_expected-IsClosed count payload d e stop q t l h =
      let f : get_elem? words d.seq ≡ some d.buf =
        subst (λ k. Words.Carries words k d.seq d.buf) q t in
      rw h (ground (arith, get-some words d.seq f))
  next_expected-IsClosed count eof d e stop q t l h =
      let f : d.seq ≡ length words = subst (λ k. Words.Carries words k d.seq d.buf) q t in
      elim (Bool-cases (d.seq + 1 == next_expected slots count eof d.seq e)) [
        | inl y ↦ rw (h, y) (ground (arith, f))
        | inr n ↦ rw (h, n) (ground (arith, f))
      ]
  next_expected-IsClosed count ack d e stop q t l h = rw h l
  next_expected-IsClosed count ping d e stop q t l h = rw h l

  module _ (x : Net) (v : IsTruthful words slots x) where
    pub deliver-IsTruthful :
        (d : Datagram) (r : Receiver) (a : Ack) (stop : Bool)
        → x.phase ≡ receiving
        → IsTrue words d
        → on_datagram d x.receiver ≡ some (r, a, stop)
        → IsTruthful words slots
            (record x { receiver = r; acks = a ∷ x.acks; phase = phase_after stop })
    deliver-IsTruthful d r a stop phase t h =
        let (o, f, m) = handled v.count d x.receiver r a stop v.ordered t h in
        let g : x.receiver.expected ≤ r.expected =
          omega (arith, m, next_expected_grows v.count d.kind d.seq x.receiver.expected) in
        record {
          count = v.count;
          sound = IsSound-grows words x.receiver.expected r.expected x.sender g v.sound;
          true_words = v.true_words;
          old = (
            omega (arith, f),
            All-mono (IsOld x.receiver.expected) (IsOld r.expected) x.acks
                (λ b l. omega (arith, l, g)) v.old,
          );
          ordered = o;
          in_file =
              omega (arith, m, next_expected_in_file v.count d x.receiver.expected t v.in_file);
          closed = rw m (
              next_expected-IsClosed v.count d.kind d x.receiver.expected stop refl t
                (subst (λ p. IsClosed words p x.receiver.expected) phase v.closed)
                (rw m at (stop_is d x.receiver r a stop h)));
          last = last_after stop;
          output = v.output;
        }
      where
        last_after : (b : Bool) → IsLast words slots (phase_after b) v.count
        last_after true = tt
        last_after false = tt

    pub deliver_count :
        (d : Datagram) (r : Receiver) (a : Ack) (stop : Bool) (phase : x.phase ≡ receiving)
        (t : IsTrue words d) (h : on_datagram d x.receiver ≡ some (r, a, stop))
        → (deliver-IsTruthful d r a stop phase t h).count ≡ v.count
    unfolding deliver-IsTruthful
    deliver_count d r a stop phase t h = refl

    -- A pass of the reader that leaves the client in phase `p`.
    pass-IsTruthful :
        (p : Phase)
        → IsClosed words p x.receiver.expected
        → ((c : ℕ)
            → c ≡ min (x.receiver.expected - v.count) (slots - v.count % slots)
            → IsLast words slots p (v.count + c))
        → IsTruthful words slots (record x {
          receiver = record x.receiver { window = (read_buffer x.receiver.window).0 };
          printed = x.printed ++ (read_buffer x.receiver.window).1;
          phase = p;
        })
    pass-IsTruthful p closed last =
        let from_zero : 0 + v.count ≡ v.count = omega arith in
        let (c, e, q, o) = read_buffer-InOrder slots (line words) v.count x.receiver v.ordered in
        record {
          count = v.count + c;
          closed = closed;
          last = last c q;
          sound = v.sound;
          true_words = v.true_words;
          old = v.old;
          ordered = o;
          in_file = v.in_file;
          output =
              rw (v.output, e)
                (subst
                  (λ n.
                    stream (line words) 0 v.count ++ stream (line words) n c
                    ≡ stream (line words) 0 (v.count + c))
                  from_zero (stream-append (line words) 0 v.count c));
        }

    pub reads-IsTruthful :
        x.phase ≡ receiving
        → IsTruthful words slots (record x {
          receiver = record x.receiver { window = (read_buffer x.receiver.window).0 };
          printed = x.printed ++ (read_buffer x.receiver.window).1;
        })
    reads-IsTruthful h =
        subst
          (λ p. IsTruthful words slots (record x {
            receiver = record x.receiver { window = (read_buffer x.receiver.window).0 };
            printed = x.printed ++ (read_buffer x.receiver.window).1;
            phase = p;
          }))
          (sym h)
          (pass-IsTruthful receiving (subst (λ p. IsClosed words p x.receiver.expected) h v.closed)
            (λ c q. tt))

    pub exits-IsTruthful :
        x.phase ≡ ended
        → IsTruthful words slots (record x {
          receiver = (last_pass x.receiver).0;
          printed = x.printed ++ (last_pass x.receiver).1;
          phase = exited;
        })
    unfolding last_pass
    exits-IsTruthful h =
        let all : x.receiver.expected ≡ length words + 1 =
          subst (λ p. IsClosed words p x.receiver.expected) h v.closed in
        pass-IsTruthful exited all (λ c q. (
          v.count,
          omega (arith, v.in_file, v.ordered.low, v.ordered.next),
          ap (λ n. v.count + n) (q ∙ ap (λ n. min (n - v.count) (slots - v.count % slots)) all),
        ))

    sends-IsTruthful :
        (r : Transfer × List Datagram)
        → IsSound words x.receiver.expected r.0 × All (IsTrue words) r.1
        → IsTruthful words slots (record x { sender = r.0; sent = x.sent ++ r.1 })
    sends-IsTruthful r (t, a) = record {
      count = v.count;
      sound = t;
      true_words = All-append (IsTrue words) x.sent r.1 v.true_words a;
      old = v.old;
      ordered = v.ordered;
      in_file = v.in_file;
      closed = v.closed;
      last = v.last;
      output = v.output;
    }

  pub Step-IsTruthful : {x y : Net} → Step x y → IsTruthful words slots x → IsTruthful words slots y
  Step-IsTruthful {x} {y} (deliver i d r a stop f e h q) v =
      subst (IsTruthful words slots) (sym q) (
        deliver-IsTruthful x v d r a stop f (All-get_elem? (IsTrue words) x.sent i v.true_words e)
          h)
  Step-IsTruthful {x} {y} (reads f q) v =
      subst (IsTruthful words slots) (sym q) (reads-IsTruthful x v f)
  Step-IsTruthful {x} {y} (exits f q) v =
      subst (IsTruthful words slots) (sym q) (exits-IsTruthful x v f)
  Step-IsTruthful {x} {y} (answer ts estimate i a s w e h p q) v =
      let got = x.receiver.expected in
      let f =
        acked-IsSound words got ts a estimate w s (subst (IsSound words got) h v.sound)
          (All-get_elem? (IsOld got) x.acks i v.old e) p in
      subst (IsTruthful words slots) (sym q)
        (sends-IsTruthful x v (Sender.step ts (acked a estimate) x.sender) (rw h f))
  Step-IsTruthful {x} {y} (timeout ts q) v = subst (IsTruthful words slots) (sym q) (
      sends-IsTruthful x v (Sender.step ts alarm x.sender)
        (alarm-IsSound words x.receiver.expected ts x.sender v.sound))

  pub Reach-IsTruthful :
      {x y : Net} → Reach x y → IsTruthful words slots x → IsTruthful words slots y
  Reach-IsTruthful here v = v
  Reach-IsTruthful (next r t) v = Step-IsTruthful t (Reach-IsTruthful r v)
