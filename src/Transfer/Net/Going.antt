-- ===== src/Transfer/Net/Going.antt =====
-- What holds of the sender and of the first datagram however a transfer goes.
use network_programming.Base.{
  true, false, Bytes, ℕ, zero, suc, ◌≤◌, min, none, some, List, ◌++◌, get_elem?, get_elem?-append,
  ◌≡◌, refl, sym, subst, inl, inr, arith, Bool-cases,
}
use network_programming.Transfer.Receiver.{Datagram, Ack}
use network_programming.Transfer.Sender.{
  Sender, Wait, Transfer, waiting, done, failed, Outcome, returned, waits, gave_up, resend,
  read_next, set_type, start_timer, send_one, send_burst, send_round, with_ping, resume, start,
  on_alarm, on_ack, grow, finish, note_ack, acked, alarm, is_past,
}
use network_programming.Transfer.Receiver.Arrive.{is_word}
use network_programming.Transfer.Sender.Aim.{send_round-Opens}
use network_programming.Transfer.Net.Hearing.{start-IsReturned}
use network_programming.Transfer.Rtt.{Timer}
use network_programming.Transfer.Sender
use network_programming.Transfer.Net.{
  Net, Step, deliver, reads, exits, answer, timeout, begin, Reach, here, next,
}

-- A datagram has been sent, and the congestion window is open.
pub record IsBegun (s : Sender) : Type 0 where
  pub begun : 1 ≤ s.next
  pub room : 1 ≤ s.cwnd

pub send_one-IsBegun : (ts : ℕ) (s : Sender) → 1 ≤ s.cwnd → IsBegun (send_one ts s)
unfolding send_one start_timer set_type read_next resend
send_one-IsBegun ts s c = ground arith

pub burst-IsBegun : (n ts : ℕ) (s : Sender) → IsBegun s → IsBegun (send_burst n ts s).0
unfolding send_burst
burst-IsBegun zero ts s v = v
burst-IsBegun (suc n) ts s v =
    ground (arith, burst-IsBegun n ts (send_one ts s) (send_one-IsBegun ts s v.room))

pub round-IsBegun : (ts : ℕ) (s : Sender) → IsBegun s → IsBegun (send_round ts s).0
unfolding send_round
round-IsBegun ts s v = ground (arith, burst-IsBegun (min s.cwnd s.rwnd) ts s v)

burst-begins :
    (n ts : ℕ) (s : Sender) → 1 ≤ s.cwnd → 1 ≤ n → s.is_eof ≡ false → IsBegun (send_burst n ts s).0
unfolding send_burst
burst-begins zero ts s c l f = absurd (omega arith)
burst-begins (suc n) ts s c l f =
    ground (arith, burst-IsBegun n ts (send_one ts s) (send_one-IsBegun ts s c))

round-begins :
    (ts : ℕ) (s : Sender) → 1 ≤ s.cwnd → 1 ≤ s.rwnd → s.is_eof ≡ false → IsBegun (send_round ts s).0
unfolding send_round
round-begins ts s c r f = ground (arith, burst-begins (min s.cwnd s.rwnd) ts s c (omega arith) f)

-- The sender waits for the number behind the one that it sent last.
abbrev pub IsReady : Transfer → Type 0
IsReady (waiting s w) = (w.expected ≡ s.next) × IsBegun s
IsReady (done s) = Unit
IsReady failed = Unit

abbrev IsFit : Outcome → Type 0
IsFit (returned s) = IsBegun s
IsFit (waits s w) = (w.expected ≡ s.next) × IsBegun s
IsFit gave_up = Unit

resume-IsReady : (ts : ℕ) (o : Outcome) → IsFit o → IsReady (resume ts o).0
unfolding resume
resume-IsReady ts (waits s w) f = f
resume-IsReady ts gave_up f = tt
resume-IsReady ts (returned s) f = elim (Bool-cases s.is_eof) [
  | inl e ↦ let q : done s ≡ (resume ts (returned s)).0 = ground arith in subst IsReady q tt
  | inr e ↦
      let s' = (send_round ts s).0 in
      let q : waiting s' (record { expected = s'.next; prev = none; fast = 0 })
          ≡ (resume ts (returned s)).0 =
        ground arith in
      subst IsReady q (refl, round-IsBegun ts s f)
]

on_alarm-IsFit : (w : Wait) (s : Sender) → IsBegun s → IsFit (on_alarm w s)
unfolding on_alarm
on_alarm-IsFit w s v = ground arith

on_ack-IsFit :
    (a : Ack) (estimate : ℕ) (w : Wait) (s : Sender)
    → w.expected ≡ s.next
    → IsBegun s
    → IsFit (on_ack a estimate w s)
unfolding on_ack finish
on_ack-IsFit a estimate w s e v =
    let s' : Sender = record s { cwnd = grow s; rwnd = a.rwnd } in
    ground (
      arith,
      on_alarm-IsFit (note_ack a.seq w) s'
          (record { begun = v.begun; room = ground (arith, v.room) }),
    )

pub step-IsReady :
    (ts : ℕ) (e : Sender.Event) (t : Transfer) → IsReady t → IsReady (Sender.step ts e t).0
unfolding Sender.step
step-IsReady ts (acked a estimate) (waiting s w) (e, v) =
    resume-IsReady ts (on_ack a estimate w s) (on_ack-IsFit a estimate w s e v)
step-IsReady ts alarm (waiting s w) (e, v) = resume-IsReady ts (on_alarm w s) (on_alarm-IsFit w s v)
step-IsReady ts (acked a estimate) (done s) v = tt
step-IsReady ts alarm (done s) v = tt
step-IsReady ts (acked a estimate) failed v = tt
step-IsReady ts alarm failed v = tt

-- The first datagram of all is still on its way, and the sender is ready.
pub record IsGoing (x : Net) : Type 0 where
  pub head : Datagram
  pub first : get_elem? x.sent 0 ≡ some head
  pub kind : is_word head.kind ≡ true
  pub seq : head.seq ≡ 0
  pub ready : IsReady x.sender

sends-IsGoing :
    (x : Net) (ts : ℕ) (e : Sender.Event)
    → IsGoing x
    → IsGoing (record x {
      sender = (Sender.step ts e x.sender).0;
      sent = x.sent ++ (Sender.step ts e x.sender).1;
    })
sends-IsGoing x ts e v = record {
  head = v.head;
  first = get_elem?-append x.sent (Sender.step ts e x.sender).1 0 v.first;
  kind = v.kind;
  seq = v.seq;
  ready = step-IsReady ts e x.sender v.ready;
}

pub Step-IsGoing : {x y : Net} → Step x y → IsGoing x → IsGoing y
Step-IsGoing {x} {y} (deliver i d r a stop f e h q) v =
    subst IsGoing (sym q)
      (record { head = v.head; first = v.first; kind = v.kind; seq = v.seq; ready = v.ready })
Step-IsGoing {x} {y} (reads f q) v =
    subst IsGoing (sym q)
      (record { head = v.head; first = v.first; kind = v.kind; seq = v.seq; ready = v.ready })
Step-IsGoing {x} {y} (exits f q) v =
    subst IsGoing (sym q)
      (record { head = v.head; first = v.first; kind = v.kind; seq = v.seq; ready = v.ready })
Step-IsGoing {x} {y} (answer ts estimate i a s w e h p q) v =
    subst IsGoing (sym q) (sends-IsGoing x ts (acked a estimate) v)
Step-IsGoing {x} {y} (timeout ts q) v = subst IsGoing (sym q) (sends-IsGoing x ts alarm v)

pub Reach-IsGoing : {x y : Net} → Reach x y → IsGoing x → IsGoing y
Reach-IsGoing here v = v
Reach-IsGoing (next r t) v = Step-IsGoing t (Reach-IsGoing r v)

pub begin-IsGoing :
    (ts : ℕ) (words : List Bytes) (rwnd : ℕ) (timer : Timer) (q_obj : Datagram) (slots : ℕ)
    → 1 ≤ rwnd
    → IsGoing (begin ts words rwnd timer q_obj slots)
unfolding begin resume start
begin-IsGoing ts words rwnd timer q_obj slots l =
    let s = start words rwnd timer q_obj in
    let p = (start-IsReturned words 0 rwnd timer q_obj).placed in
    let o = send_round-Opens ts 0 s p (omega arith) (inl (refl, refl)) refl (omega arith) l in
    record {
      head = o.head;
      first = rw o.split refl;
      kind = o.kind;
      seq = o.seq;
      ready = (refl, round-begins ts s (omega arith) l refl);
    }
