-- ===== src/Transfer/Sender/Answer.antt =====
-- What the sender does with an acknowledgement that asks for one more number.
use network_programming.Base.{
  ℕ, ◌/◌, ◌≤◌, ◌<◌, true, false, some, ◌==◌, ◌≡◌, refl, ◌∙◌, inl, inr, arith, Bool-cases,
}
use network_programming.Transfer.Receiver.{Ack}
use network_programming.Transfer.Rtt.{max_nrexmt, rtt_timeout}
use network_programming.Transfer.Sender.{
  Sender, Wait, Outcome, returned, waits, is_past, on_alarm, grow, finish, note_ack, on_ack,
}
use network_programming.Transfer.Sender.Aim.{Aims}

-- A sender whose next round begins with number `e`.
pub record Resumes (e rwnd : ℕ) (t : Sender) : Type 0 where
  pub aims : Aims e t
  pub open_file : t.is_eof ≡ false
  pub room : 1 ≤ t.cwnd
  pub window : t.rwnd ≡ rwnd

-- Number `e` is the last one that was asked for, and a timeout is not yet one too many.
pub record Asked (e rwnd : ℕ) (s : Sender) (w : Wait) : Type 0 where
  pub prev : w.prev ≡ some e
  pub before : is_past (some e) s.last_pack ≡ false
  pub patient : s.timer.nrexmt < max_nrexmt
  pub open_file : s.is_eof ≡ false
  pub window : s.rwnd ≡ rwnd

pub on_alarm-Resumes :
    (e rwnd : ℕ) (w : Wait) (s : Sender)
    → Asked e rwnd s w
    → (t : Sender) × (on_alarm w s ≡ returned t) × Resumes e rwnd t
unfolding on_alarm rtt_timeout
on_alarm-Resumes e rwnd w s v = (
  record s {
    timer = (rtt_timeout s.timer).0;
    ssthresh = some (s.cwnd / 2);
    cwnd = 1;
    last_unacked = some e;
    rttinit = false;
  },
  ground (arith, v.prev, v.before, v.patient),
  record { aims = inr refl; open_file = v.open_file; room = omega arith; window = v.window },
)

-- The next round begins with number `e`, at once or after a timeout.
pub data Heard (e rwnd : ℕ) (o : Outcome) : Type 0 where
  goes_on : (t : Sender) → o ≡ returned t → Resumes e rwnd t → Heard e rwnd o
  stays : (s : Sender) (w : Wait) → o ≡ waits s w → Asked e rwnd s w → Heard e rwnd o

pub on_ack_at_end :
    (a : Ack) (estimate : ℕ) (w : Wait) (s : Sender)
    → is_past (some a.seq) s.last_pack ≡ true
    → (t : Sender) × (on_ack a estimate w s ≡ returned t) × (t.is_eof ≡ true)
unfolding on_ack finish
on_ack_at_end a estimate w s l =
    (finish estimate (record s { cwnd = grow s; is_eof = true }), ground arith, refl)

pub on_ack-Heard :
    (a : Ack) (estimate : ℕ) (w : Wait) (s : Sender)
    → w.expected ≡ s.next
    → 1 ≤ s.cwnd
    → s.is_eof ≡ false
    → s.timer.nrexmt < max_nrexmt
    → is_past (some a.seq) s.last_pack ≡ false
    → Heard a.seq a.rwnd (on_ack a estimate w s)
unfolding on_ack finish
on_ack-Heard a estimate w s q c f p l = elim (Bool-cases (a.seq == w.expected)) [
  | inl m ↦
      goes_on (finish estimate (record s { cwnd = grow s; rwnd = a.rwnd })) (ground arith) (record {
        aims = inl (refl, ground arith);
        open_file = f;
        room = ground (arith, c);
        window = refl;
      })
  | inr m ↦
      let s' : Sender = record s { cwnd = grow s; rwnd = a.rwnd } in
      let asked : Asked a.seq a.rwnd s' (note_ack a.seq w) = record {
        prev = ground arith;
        before = l;
        patient = p;
        open_file = f;
        window = refl;
      } in
      elim (Bool-cases ((note_ack a.seq w).fast == 3)) [
        | inl g ↦
            let (t, e, r) = on_alarm-Resumes a.seq a.rwnd (note_ack a.seq w) s' asked in
            let here : on_ack a estimate w s ≡ on_alarm (note_ack a.seq w) s' = ground arith in
            goes_on t (here ∙ e) r
        | inr g ↦ stays s' (note_ack a.seq w) (ground arith) asked
      ]
]
