-- ===== src/Transfer/Net/Slows.antt =====
-- A timeout without an acknowledgement, which closes the congestion window down to one datagram.
use network_programming.Base.{ℕ, ◌/◌, ◌≤◌, ◌<◌, false, none, some, List, ◌≡◌, ◌∙◌, ap, arith}
use network_programming.Transfer.Receiver.{Datagram, int_max}
use network_programming.Transfer.Rtt.{max_nrexmt, rtt_timeout}
use network_programming.Transfer.Sender.{
  Sender, Wait, Transfer, waiting, returned, resume, alarm, grow, send_round, on_alarm,
}
use network_programming.Transfer.Sender
use network_programming.Transfer.Sender.Words.{IsPlaced}
use network_programming.Transfer.Sender.Aim.{IsBehind, round-IsBehind}
use network_programming.Transfer.Sender.Patience.{round-IsPatient, round-window, on_alarm-returned}

-- A sender behind number `e` with a timeout left and room to grow.
pub record IsSlow (e : ℕ) (s : Sender) : Type 0 where
  pub behind : IsBehind e s
  pub patient : s.timer.nrexmt < max_nrexmt
  pub small : grow s ≤ int_max

grow-small : (s : Sender) → s.cwnd ≡ 1 → grow s ≤ int_max
grow-small s c = ground arith

pub slows :
    (e : ℕ) (s : Sender) (w : Wait)
    → w.prev ≡ none
    → s.timer.nrexmt ≡ 0
    → s.is_eof ≡ false
    → 1 ≤ s.rwnd
    → s.last_unacked ≡ none
    → IsPlaced s
    → IsBehind e s
    → (s' : Sender) × (w' : Wait) × (ds : List Datagram) × (Sender.step 0 alarm (waiting s w)
        ≡ (waiting s' w', ds))
      × IsSlow e s'
unfolding Sender.step resume
slows e s w p f o r u v b =
    let t : Sender = record s {
      timer = (rtt_timeout s.timer).0;
      ssthresh = some (s.cwnd / 2);
      cwnd = 1;
      rttinit = false;
    } in
    let placed : IsPlaced t = record {
      place = v.place;
      inside = v.inside;
      end = v.end;
      again = v.again;
    } in
    let (patient, _) = round-IsPatient 0 t r (omega arith) o in
    let (_, c, _) = round-window 0 t r (omega arith) o in
    (
      (send_round 0 t).0,
      record { expected = (send_round 0 t).0.next; prev = none; fast = 0 },
      (send_round 0 t).1,
      ap (resume 0) (on_alarm-returned w s f p) ∙ ground arith,
      record {
        behind = round-IsBehind 0 e t placed u b;
        patient = omega (arith, patient.fresh);
        small = grow-small (send_round 0 t).0 c;
      },
    )
