-- ===== src/Transfer/Net/Answers.antt =====
-- The sender is handed an acknowledgement that asks for one more number.
use network_programming.Base.{
  ℕ, ◌+◌, ◌≤◌, ◌<◌, true, false, some, none, List, ◌++◌, length, get_elem?, Bytes, ◌≡◌, ◌≢◌, refl,
  subst, sym, inl, inr, Option-cases, ap, ◌∙◌, arith,
}
use native.Mathlib.Decide.{ℕ_discrete}
use network_programming.Transfer.Receiver.{Datagram, Ack, int_max}
use network_programming.Transfer.Sender.{
  Sender, Wait, Transfer, waiting, done, returned, waits, resume, acked, alarm, on_ack, on_alarm,
  is_past, send_round,
}
use network_programming.Transfer.Sender
use network_programming.Transfer.Sender.Aim.{Aims}
use network_programming.Transfer.Sender.Answer.{
  Resumes, Asked, Heard, goes_on, stays, on_ack_at_end, on_ack-Heard,
}
use network_programming.Transfer.Net.{Net, receiving, ended, Step, answer, Fits, Run, stay, then}
use network_programming.Transfer.Net.Sending.{IsSound, IsWaiting, IsFine}
use network_programming.Transfer.Net.Hearing.{on_ack-IsFine}
use network_programming.Transfer.Net.Truth.{IsTruthful}
use network_programming.Transfer.Net.Steps.{Step-IsTruthful}
use network_programming.Transfer.Net.Going.{IsBegun, IsReady, Step-IsGoing}
use network_programming.Transfer.Net.Moves.{Run-trans}
use network_programming.Transfer.Net.Rounds.{
  CanGoOn, Completes, later-Completes, done-Completes, round, timed_out,
}

resume_done : (t : Sender) → t.is_eof ≡ true → (resume 0 (returned t)).0 ≡ done t
unfolding resume
resume_done t f = ground arith

resume_waits : (s : Sender) (w : Wait) → (resume 0 (waits s w)).0 ≡ waiting s w
unfolding resume
resume_waits s w = refl

module _ (words : List Bytes) (slots : ℕ) (small : length words < int_max) where
  -- The sender is handed an acknowledgement that asks for number `got`.
  module _ (got : ℕ) (x : Net) (o : CanGoOn words slots got x) (q : 0 < slots) (a : Ack)
      (found : get_elem? x.acks 0 ≡ some a) (seq : a.seq ≡ got) where
    sound : IsWaiting words x.receiver.expected o.sender o.wait
    sound = subst (IsSound words x.receiver.expected) o.waits o.truthful.sound

    ready : (o.wait.expected ≡ o.sender.next) × IsBegun o.sender
    ready = subst IsReady o.waits o.going.ready

    heard_in_file :
        o.sender.last_pack ≡ none → a.seq ≢ o.wait.expected → a.seq < length o.sender.words
    heard_in_file m ne = omega (
      arith,
      ap (length {A = Bytes}) sound.same,
      seq,
      o.in_step m (λ f. ne (seq ∙ (f ∙ sym ready.0))),
    )

    answered : Net
    answered = record x {
      sender = (Sender.step 0 (acked a 0) x.sender).0;
      sent = x.sent ++ (Sender.step 0 (acked a 0) x.sender).1;
    }

    answers : Step x answered
    unfolding answered
    answers = answer 0 0 0 a o.sender o.wait found o.waits heard_in_file refl

    fits : Fits answers
    unfolding answers
    fits = o.small

    sends : Sender.step 0 (acked a 0) x.sender ≡ resume 0 (on_ack a 0 o.wait o.sender)
    unfolding Sender.step
    sends = ap (Sender.step 0 (acked a 0)) o.waits

    fine : IsFine words x.receiver.expected (on_ack a 0 o.wait o.sender)
    fine =
        on_ack-IsFine words x.receiver.expected a 0 o.wait o.sender sound
          (omega (arith, seq, o.expected)) heard_in_file

    kept : IsTruthful words slots answered
    kept = Step-IsTruthful words slots small answers o.truthful

    -- What is noted for the end of the file is the number of words.
    noted : (l : ℕ) → o.sender.last_pack ≡ some l → l ≡ length words
    noted l m = omega (arith, sound.placed.end l m, ap (length {A = Bytes}) sound.same)

    at_end_past : got ≡ length words + 1 → is_past (some a.seq) o.sender.last_pack ≡ true
    at_end_past e = elim (Option-cases o.sender.last_pack) [
      | inl m ↦ elim (ℕ_discrete got o.sender.next) [
        | yes n ↦
            absurd (omega (arith, e, n, sound.placed.inside m, ap (length {A = Bytes}) sound.same))
        | no n ↦ absurd (omega (arith, e, o.in_step m n))
      ]
      | inr (l, m) ↦ rw m (ground (arith, noted l m, e, seq))
    ]

    before_past : got ≤ length words → is_past (some a.seq) o.sender.last_pack ≡ false
    before_past e = elim (Option-cases o.sender.last_pack) [
      | inl m ↦ rw m refl
      | inr (l, m) ↦ rw m (ground (arith, noted l m, e, seq))
    ]

    -- An acknowledgement of the whole file ends the transfer, and leaves the client alone.
    pub at_end :
        got ≡ length words + 1
        → x.phase ≡ ended
        → o.truthful.count ≡ length words
        → Completes words x
    unfolding answered
    at_end n f c =
        let (t, h, over) = on_ack_at_end a 0 o.wait o.sender (at_end_past n) in
        let d : answered.sender ≡ done t =
          ap (λ (q : Transfer × List Datagram). q.0) (sends ∙ ap (resume 0) h)
          ∙ resume_done t over in
        let v : IsTruthful words slots answered = record {
          count = o.truthful.count;
          sound = kept.sound;
          true_words = kept.true_words;
          old = kept.old;
          ordered = o.truthful.ordered;
          in_file = kept.in_file;
          closed = kept.closed;
          last = o.truthful.last;
          output = o.truthful.output;
        } in
        later-Completes words (then stay answers fits)
          (done-Completes words slots small answered t v q d f c)

    pub one_more :
        a.rwnd ≡ slots
        → got ≤ length words
        → x.phase ≡ receiving
        → (z : Net) × Run x z × CanGoOn words slots (got + 1) z
    unfolding answered
    one_more rwnd low f =
        let (z, r, v) = onward (
          on_ack-Heard a 0 o.wait o.sender ready.0 ready.1.room sound.is_open o.patient
            (before_past low)) in
        (z, Run-trans (then stay answers fits) r, v)
      where
        onward :
            Heard a.seq a.rwnd (on_ack a 0 o.wait o.sender)
            → (z : Net) × Run answered z × CanGoOn words slots (got + 1) z
        onward (goes_on t h r) =
            let k = subst (IsFine words x.receiver.expected) h fine in
            let s = sends ∙ ap (resume 0) h in
            let aimed : Resumes got slots t = record {
              aims = subst (λ (n : ℕ). Aims n t) seq r.aims;
              open_file = r.open_file;
              room = r.room;
              window = r.window ∙ rwnd;
            } in
            round words slots small got 0 x answered kept (Step-IsGoing answers o.going) t k.placed
              k.same aimed (ap (λ (q : Transfer × List Datagram). q.0) s)
              (ap (λ (q : Transfer × List Datagram). x.sent ++ q.1) s) o.expected low q f
        onward (stays s w h v) =
            let e =
              ap (λ (q : Transfer × List Datagram). q.0) (sends ∙ ap (resume 0) h)
              ∙ resume_waits s w in
            let asked : Asked got slots s w = record {
              prev = v.prev ∙ ap some seq;
              before = rw (sym seq) v.before;
              patient = v.patient;
              open_file = v.open_file;
              window = v.window ∙ rwnd;
            } in
            timed_out words slots small got answered s w kept (Step-IsGoing answers o.going) e asked
              o.expected low q f
