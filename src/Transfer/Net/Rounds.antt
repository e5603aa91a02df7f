-- ===== src/Transfer/Net/Rounds.antt =====
-- A round of the sender, and the delivery of what it begins with.
use network_programming.Base.{
  ℕ, ◌+◌, ◌≤◌, ◌<◌, some, none, List, ◌++◌, length, get_elem?, Bytes, ◌≡◌, ◌≢◌, refl, subst, ap,
  ◌∙◌, inl, inr, ◌⊎◌, arith, get_elem?-append_at, get_elem?-append,
}
use native.Mathlib.Nat.{mod-lt}
use network_programming.Transfer.Receiver.{Datagram, Ack, last_pass, int_max}
use network_programming.Transfer.Receiver.Scan.{stream}
use network_programming.Transfer.Rtt.{max_nrexmt}
use network_programming.Transfer.Sender.{
  Sender, Wait, Transfer, waiting, done, returned, waits, resume, acked, alarm, on_ack, on_alarm,
  is_past, send_round, grow,
}
use network_programming.Transfer.Sender
use network_programming.Transfer.Sender.Words.{IsPlaced}
use network_programming.Transfer.Sender.Aim.{Opens, send_round-Opens}
use network_programming.Transfer.Sender.Answer.{Resumes, Asked, on_alarm-Resumes}
use network_programming.Transfer.Sender.Patience.{round-IsPatient}
use network_programming.Transfer.Net.{
  Net, receiving, ended, exited, Step, exits, timeout, Run, stay, then,
}
use network_programming.Transfer.Net.Sending.{IsSound, IsFine, on_alarm-IsFine}
use network_programming.Transfer.Net.Truth.{line, closes, IsClosed, IsTruthful}
use network_programming.Transfer.Net.Steps.{Step-IsTruthful}
use network_programming.Transfer.Net.Going.{IsGoing, Step-IsGoing}
use network_programming.Transfer.Net.Moves.{
  Served, Run-trans, Run-IsGoing, deliver_at, refresh, Delivered,
}
use network_programming.Transfer.Net.Slows.{IsSlow, slows}
use network_programming.Transfer.Net.Safety.{last-closes}
use network_programming.Transfer.Net.Moves

-- The client has left its loop with one line still to print, and has acknowledged the whole file.
pub record IsLeft (words : List Bytes) (slots got : ℕ) (x : Net) (v : IsTruthful words slots x)
    : Type 0 where
  pub phase : x.phase ≡ ended
  pub count : v.count ≡ length words
  pub reply : Ack
  pub acks : get_elem? x.acks 0 ≡ some reply
  pub seq : reply.seq ≡ got

-- A net whose sender waits, with a timeout left and room in its congestion window, for a client that
-- has accepted `got` numbers.
pub record CanGoOn (words : List Bytes) (slots got : ℕ) (x : Net) : Type 0 where
  pub truthful : IsTruthful words slots x
  pub going : IsGoing x
  pub expected : x.receiver.expected ≡ got
  pub sender : Sender
  pub wait : Wait
  pub waits : x.sender ≡ waiting sender wait
  pub patient : sender.timer.nrexmt < max_nrexmt
  pub small : grow sender ≤ int_max
  pub phase : (x.phase ≡ receiving) ⊎ IsLeft words slots got x truthful
  pub in_step : sender.last_pack ≡ none → got ≢ sender.next → got < length words

-- The end of a transfer.
abbrev pub Completes : List Bytes → Net → Type 0
Completes words x =
    (z : Net) × Run x z
    × (s : Sender) × (z.sender ≡ done s)
    × (z.phase ≡ exited)
    × (z.printed ≡ stream (line words) 0 (length words + 1))

pub later-Completes :
    (words : List Bytes) {x y : Net} → Run x y → Completes words y → Completes words x
later-Completes words r (z, to, s, d, f, o) = (z, Run-trans r to, s, d, f, o)

module _ (words : List Bytes) (slots : ℕ) (small : length words < int_max) where
  -- With one line left the last pass of `main` prints it, wherever it lies in the array.
  pub done-Completes :
      (x : Net) (s : Sender) (v : IsTruthful words slots x)
      → 0 < slots
      → x.sender ≡ done s
      → x.phase ≡ ended
      → v.count ≡ length words
      → Completes words x
  done-Completes x s v q d f c =
      let (_, out) = last-closes words slots small x v f in
      let all : closes words slots v.count ≡ length words + 1 =
        omega (arith, c, mod-lt v.count q) in
      (
        record x {
          receiver = (last_pass x.receiver).0;
          printed = x.printed ++ (last_pass x.receiver).1;
          phase = exited;
        },
        then stay (exits f refl) tt,
        s,
        d,
        refl,
        out ∙ ap (stream (line words) 0) all,
      )

  -- A round that begins with the number expected, and the delivery of its first datagram.
  module _ (got ts : ℕ) (x y : Net) (v : IsTruthful words slots y) (g : IsGoing y) (t : Sender)
      (p : IsPlaced t) (same : t.words ≡ words) (r : Resumes got slots t)
      (sender : y.sender ≡ (resume ts (returned t)).0)
      (sent : y.sent ≡ x.sent ++ (resume ts (returned t)).1) (expected : y.receiver.expected ≡ got)
      (low : got ≤ length words) (some_slot : 0 < slots) (phase : y.phase ≡ receiving) where
    opens : Opens got (send_round ts t).0 (send_round ts t).1
    opens =
        send_round-Opens ts got t p (rw same low) r.aims r.open_file r.room
          (omega (arith, r.window, some_slot))

    resumed : resume ts (returned t) ≡ (
      waiting
          (send_round ts t).0
          (record { expected = (send_round ts t).0.next; prev = none; fast = 0 }),
      (send_round ts t).1,
    )
    unfolding resume
    resumed = rw r.open_file refl

    in_flight : get_elem? y.sent (length x.sent) ≡ some opens.head
    in_flight =
        ap (λ (ds : List Datagram). get_elem? ds (length x.sent))
          (sent
            ∙ ap (λ (ds : List Datagram). x.sent ++ ds)
                (ap (λ (q : Transfer × List Datagram). q.1) resumed ∙ opens.split))
        ∙ get_elem?-append_at x.sent opens.head opens.rest

    -- Before the datagram is delivered the sender times out once, without an acknowledgement.
    timed :
        (s : Sender) × (w : Wait) × (ds : List Datagram) × (Sender.step 0 alarm y.sender
          ≡ (waiting s w, ds))
        × IsSlow got s
    timed =
        let room : 1 ≤ t.rwnd = omega (arith, r.window, some_slot) in
        let (patient, is_open) = round-IsPatient ts t room r.room r.open_file in
        let first = sender ∙ ap (λ (q : Transfer × List Datagram). q.0) resumed in
        let sound = subst (IsSound words y.receiver.expected) first v.sound in
        let (s, w, ds, e, slow) =
          slows got (send_round ts t).0
            (record { expected = (send_round ts t).0.next; prev = none; fast = 0 }) refl
            patient.fresh is_open patient.window opens.unacked sound.placed opens.behind in
        (s, w, ds, ap (Sender.step 0 alarm) first ∙ e, slow)

    after : Net
    after = record y {
      sender = (Sender.step 0 alarm y.sender).0;
      sent = y.sent ++ (Sender.step 0 alarm y.sender).1;
    }

    times_out : Step y after
    unfolding after
    times_out = timeout 0 refl

    still_in_flight : get_elem? after.sent (length x.sent) ≡ some opens.head
    unfolding after
    still_in_flight =
        get_elem?-append y.sent (Sender.step 0 alarm y.sender).1 (length x.sent) in_flight

    pub round : (z : Net) × Run y z × CanGoOn words slots (got + 1) z
    unfolding after times_out
    round =
        let (s, w, ds, alarmed, slow) = timed in
        let v' = Step-IsTruthful words slots small times_out v in
        let (r', e, c, f) = Moves.read_all words slots small after v' phase in
        let d =
          deliver_at words slots small r'.net r'.live f (length x.sent) opens.head
            (rw r'.sent still_in_flight) in
        let to_end = Run-trans (then stay times_out tt) (Run-trans r'.reach d.served.reach) in
        let waits =
          d.served.sender ∙ (r'.sender ∙ ap (λ (q : Transfer × List Datagram). q.0) alarmed) in
        let sound =
          subst (IsSound words d.served.net.receiver.expected) waits d.served.live.sound in
        let up : d.served.net.receiver.expected ≡ got + 1 =
          ground (arith, d.expected, opens.kind, opens.seq, e, c, expected, some_slot) in
        (
          d.served.net,
          to_end,
          record {
            truthful = d.served.live;
            going = Run-IsGoing to_end g;
            expected = up;
            sender = s;
            wait = w;
            waits = waits;
            patient = slow.patient;
            small = slow.small;
            phase = elim d.phase [
              | inl k ↦ inl k
              | inr k ↦
                  let at_end =
                    subst (λ q. IsClosed words q d.served.net.receiver.expected) k
                      d.served.live.closed in
                  inr (record {
                    phase = k;
                    count = omega (arith, d.count, c, e, expected, at_end, up);
                    reply = d.reply;
                    acks = d.acks;
                    seq = d.seq ∙ up;
                  })
            ];
            in_step = λ m ne.
                omega
                  (arith, slow.behind m, sound.placed.inside m, ap (length {A = Bytes}) sound.same);
          },
        )

  pub timed_out :
      (got : ℕ) (y : Net) (s : Sender) (w : Wait)
      → IsTruthful words slots y
      → IsGoing y
      → y.sender ≡ waiting s w
      → Asked got slots s w
      → y.receiver.expected ≡ got
      → got ≤ length words
      → 0 < slots
      → y.phase ≡ receiving
      → (z : Net) × Run y z × CanGoOn words slots (got + 1) z
  unfolding Sender.step
  timed_out got y s w v g h asked e l q f =
      let (t, k, r) = on_alarm-Resumes got slots w s asked in
      let sound = subst (IsSound words y.receiver.expected) h v.sound in
      let fine =
        subst (IsFine words y.receiver.expected) k
          (on_alarm-IsFine words y.receiver.expected w s sound) in
      let z : Net = record y {
        sender = (Sender.step 0 alarm y.sender).0;
        sent = y.sent ++ (Sender.step 0 alarm y.sender).1;
      } in
      let st : Step y z = timeout 0 refl in
      let sends : Sender.step 0 alarm y.sender ≡ resume 0 (returned t) =
        ap (Sender.step 0 alarm) h ∙ ap (resume 0) k in
      let (z', to, o) =
        round got 0 y z (Step-IsTruthful words slots small st v) (Step-IsGoing st g) t fine.placed
          fine.same r (ap (λ (q : Transfer × List Datagram). q.0) sends)
          (ap (λ (q : Transfer × List Datagram). y.sent ++ q.1) sends) e l q f in
      (z', Run-trans (then stay st tt) to, o)
