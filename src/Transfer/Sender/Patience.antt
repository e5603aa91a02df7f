-- ===== src/Transfer/Sender/Patience.antt =====
-- When the sender gives up.
use network_programming.Base.{
  ℕ, zero, suc, ◌/◌, ◌≤◌, min, false, not, ◌&&◌, none, some, List, ◌==◌, Bytes, ◌≡◌, refl, ◌∙◌,
  subst, inl, inr, arith, Bool-cases,
}
use network_programming.Transfer.Receiver.{Datagram}
use network_programming.Transfer.Rtt.{Timer, rtt_newpack, rtt_timeout}
use network_programming.Transfer.Sender.{
  Sender, Wait, resend, read_next, set_type, start_timer, send_one, send_burst, send_round,
  returned, on_alarm, Transfer, waiting, resume, alarm, step, start,
}

-- The timer has just been told of a new packet, and a round has room for one.
pub record IsPatient (s : Sender) : Type 0 where
  pub fresh : s.timer.nrexmt ≡ 0
  pub window : 1 ≤ s.rwnd
  pub room : 1 ≤ s.cwnd

-- What a packet leaves alone.
abbrev pub SameWindow : Sender → Sender → Type 0
SameWindow s s' = (s'.rwnd ≡ s.rwnd) × (s'.cwnd ≡ s.cwnd) × (s'.is_eof ≡ s.is_eof)

set_type-window : (s : Sender) → SameWindow s (set_type s)
unfolding set_type
set_type-window s = ground arith

pick-window :
    (ts : ℕ) (s : Sender)
    → SameWindow s (elim s.last_unacked [ none ↦ read_next ts s | some u ↦ resend u s ])
unfolding read_next resend
pick-window ts s = ground arith

send_one-window :
    (ts : ℕ) (s : Sender) → SameWindow s (send_one ts s) × ((send_one ts s).timer.nrexmt ≡ 0)
unfolding send_one start_timer rtt_newpack
send_one-window ts s =
    let a = pick-window ts s in
    let b = set_type-window (elim s.last_unacked [ none ↦ read_next ts s | some u ↦ resend u s ]) in
    ((b.0 ∙ a.0, b.1 ∙ a.1, b.2 ∙ a.2), refl)

burst-window :
    (n ts : ℕ) (s : Sender)
    → s.timer.nrexmt ≡ 0
    → SameWindow s (send_burst n ts s).0 × ((send_burst n ts s).0.timer.nrexmt ≡ 0)
unfolding send_burst
burst-window zero ts s h = ((refl, refl, refl), h)
burst-window (suc n) ts s h =
    let a = send_one-window ts s in
    let b = burst-window n ts (send_one ts s) a.1 in ground (arith, a, b)

burst-fresh :
    (n ts : ℕ) (s : Sender)
    → 1 ≤ n
    → s.is_eof ≡ false
    → SameWindow s (send_burst n ts s).0 × ((send_burst n ts s).0.timer.nrexmt ≡ 0)
unfolding send_burst
burst-fresh zero ts s l e = absurd (omega arith)
burst-fresh (suc n) ts s l e =
    let a = send_one-window ts s in
    let b = burst-window n ts (send_one ts s) a.1 in ground (arith, a, b)

pub round-IsPatient :
    (ts : ℕ) (s : Sender)
    → 1 ≤ s.rwnd
    → 1 ≤ s.cwnd
    → s.is_eof ≡ false
    → IsPatient (send_round ts s).0 × ((send_round ts s).0.is_eof ≡ false)
unfolding send_round
round-IsPatient ts s r c e =
    let (w, f) = burst-fresh (min s.cwnd s.rwnd) ts s (omega (arith, r, c)) e in
    let s' = (send_burst (min s.cwnd s.rwnd) ts s).0 in
    elim (Bool-cases ((s'.rwnd == 0) && not s'.is_eof)) [
      | inl g ↦ absurd (ground arith)
      | inr g ↦
          let q : s' ≡ (send_round ts s).0 = ground arith in
          subst (λ (x : Sender). IsPatient x × (x.is_eof ≡ false)) q
            (
              record { fresh = f; window = omega (arith, w.0, r); room = omega (arith, w.1, c) },
              w.2 ∙ e,
            )
    ]

pub round-window :
    (ts : ℕ) (s : Sender)
    → 1 ≤ s.rwnd
    → 1 ≤ s.cwnd
    → s.is_eof ≡ false
    → SameWindow s (send_round ts s).0
unfolding send_round
round-window ts s r c e =
    let (w, f) = burst-fresh (min s.cwnd s.rwnd) ts s (omega (arith, r, c)) e in
    let s' = (send_burst (min s.cwnd s.rwnd) ts s).0 in
    elim (Bool-cases ((s'.rwnd == 0) && not s'.is_eof)) [
      | inl g ↦ absurd (ground arith)
      | inr g ↦
          let q : s' ≡ (send_round ts s).0 = ground arith in
          subst (λ (x : Sender). SameWindow s x) q w
    ]

-- A sender in the middle of a wait without any acknowledgement.
pub record IsWaiting (t : Transfer) : Type 0 where
  pub sender : Sender
  pub wait : Wait
  pub here : t ≡ waiting sender wait
  pub patient : IsPatient sender
  pub open_file : sender.is_eof ≡ false
  pub silent : wait.prev ≡ none

resume-IsWaiting :
    (ts : ℕ) (s : Sender)
    → 1 ≤ s.rwnd
    → 1 ≤ s.cwnd
    → s.is_eof ≡ false
    → IsWaiting (resume ts (returned s)).0
unfolding resume
resume-IsWaiting ts s r c e =
    let p = round-IsPatient ts s r c e in
    record {
      sender = (send_round ts s).0;
      wait = record { expected = (send_round ts s).0.next; prev = none; fast = 0 };
      here = ground arith;
      patient = p.0;
      open_file = p.1;
      silent = refl;
    }

pub on_alarm-returned :
    (w : Wait) (s : Sender)
    → s.timer.nrexmt ≡ 0
    → w.prev ≡ none
    → on_alarm w s
      ≡ returned (record s {
        timer = (rtt_timeout s.timer).0;
        ssthresh = some (s.cwnd / 2);
        cwnd = 1;
        rttinit = false;
      })
unfolding on_alarm rtt_timeout
on_alarm-returned w s f n = ground arith

alarm-IsWaiting : (ts : ℕ) (t : Transfer) → IsWaiting t → IsWaiting (step ts alarm t).0
unfolding step
alarm-IsWaiting ts t v = rw v.here (timed_out v.sender v.wait v.patient v.open_file v.silent)
  where
    timed_out :
        (s : Sender) (w : Wait)
        → IsPatient s
        → s.is_eof ≡ false
        → w.prev ≡ none
        → IsWaiting (resume ts (on_alarm w s)).0
    timed_out s w p e n =
        rw (on_alarm-returned w s p.fresh n) (resume-IsWaiting ts _ p.window (omega arith) e)

-- The transfer after `n` timeouts in a row.
unfoldable pub timeouts : ℕ → ℕ → Transfer → Transfer
timeouts zero ts t = t
timeouts (suc n) ts t = timeouts n ts (step ts alarm t).0

timeouts-IsWaiting : (n ts : ℕ) (t : Transfer) → IsWaiting t → IsWaiting (timeouts n ts t)
unfolding timeouts
timeouts-IsWaiting zero ts t v = v
timeouts-IsWaiting (suc n) ts t v =
    timeouts-IsWaiting n ts (step ts alarm t).0 (alarm-IsWaiting ts t v)

-- However many timeouts in a row follow the first round of a transfer, with no acknowledgement among
-- them, the sender still waits and has not given up, if the receive window that it starts with is not
-- empty.
pub start-timeouts :
    (n ts rwnd : ℕ) (words : List Bytes) (timer : Timer) (q_obj : Datagram)
    → 1 ≤ rwnd
    → (s : Sender) × (w : Wait) × (timeouts n ts
          (resume ts (returned (start words rwnd timer q_obj))).0
        ≡ waiting s w)
unfolding start
start-timeouts n ts rwnd words timer q_obj l =
    let v =
      timeouts-IsWaiting n ts _
        (resume-IsWaiting ts (start words rwnd timer q_obj) l (omega arith) refl) in
    (v.sender, v.wait, v.here)
