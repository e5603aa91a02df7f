-- ===== src/Transfer/Net/Hearing.antt =====
-- What holds of the sender after an acknowledgement, and after any event.
use network_programming.Base.{
  ℕ, ◌≤◌, ◌<◌, true, none, some, List, All, length, ◌==◌, Bytes, ◌≡◌, ◌≢◌, refl, subst, inl, inr,
  arith, Bool-cases,
}
use network_programming.Transfer.Receiver.{Datagram, Ack}
use network_programming.Transfer.Sender.{
  Sender, Wait, Transfer, waiting, done, failed, returned, waits, is_past, on_alarm, grow, finish,
  note_ack, on_ack, acked, alarm, step, start,
}
use network_programming.Transfer.Rtt.{Timer}
use network_programming.Transfer.Sender.Words.{IsTrue}
use network_programming.Transfer.Net.Sending.{
  IsWaiting, IsReturned, IsSound, IsFine, resume-IsSound, past_end, IsPlaced-again, IsPlaced-window,
  on_alarm-IsFine,
}

module _ (words : List Bytes) (got : ℕ) (a : Ack) (estimate : ℕ) (w : Wait) (s : Sender) where
  note_ack-prev : (note_ack a.seq w).prev ≡ some a.seq
  note_ack-prev = ground arith

  noted-IsWaiting :
      IsWaiting words got s w
      → a.seq ≤ got
      → (s.last_pack ≡ none → a.seq < length s.words)
      → IsWaiting words got (record s { cwnd = grow s; rwnd = a.rwnd }) (note_ack a.seq w)
  noted-IsWaiting v l p = record {
    placed = IsPlaced-window s _ v.placed (refl, refl, refl, refl, refl);
    same = v.same;
    is_open = v.is_open;
    heard = λ q h. ground (arith, note_ack-prev);
    inside = λ q h n. ground (arith, note_ack-prev, p n);
  }

  pub on_ack-IsFine :
      IsWaiting words got s w
      → a.seq ≤ got
      → (s.last_pack ≡ none → a.seq ≢ w.expected → a.seq < length s.words)
      → IsFine words got (on_ack a estimate w s)
  unfolding on_ack finish
  on_ack-IsFine v l p = elim (Bool-cases (is_past (some a.seq) s.last_pack)) [
    | inl e ↦
        let t : Sender = finish estimate (record s { cwnd = grow s; is_eof = true }) in
        let q : returned t ≡ on_ack a estimate w s = ground arith in
        subst (IsFine words got) q (record {
          placed =
              IsPlaced-window (record s { last_unacked = none }) t
                (IsPlaced-again s none v.placed (λ u h. cc)) (refl, refl, refl, refl, refl);
          same = v.same;
          over = λ _. past_end words got s a.seq v.placed v.same l e;
        })
    | inr e ↦ elim (Bool-cases (a.seq == w.expected)) [
      | inl f ↦
          let t : Sender = finish estimate (record s { cwnd = grow s; rwnd = a.rwnd }) in
          let q : returned t ≡ on_ack a estimate w s = ground arith in
          subst (IsFine words got) q (record {
            placed =
                IsPlaced-window (record s { last_unacked = none }) t
                  (IsPlaced-again s none v.placed (λ u h. cc)) (refl, refl, refl, refl, refl);
            same = v.same;
            over = λ h. absurd (ground (arith, v.is_open));
          })
      | inr f ↦
          let n = noted-IsWaiting v l (λ m. p m (λ g. ground arith)) in
          elim (Bool-cases ((note_ack a.seq w).fast == 3)) [
            | inl g ↦
                let q : on_alarm (note_ack a.seq w) (record s { cwnd = grow s; rwnd = a.rwnd })
                    ≡ on_ack a estimate w s =
                  ground arith in
                subst (IsFine words got) q (on_alarm-IsFine words got _ _ n)
            | inr g ↦
                let q : waits (record s { cwnd = grow s; rwnd = a.rwnd }) (note_ack a.seq w)
                    ≡ on_ack a estimate w s =
                  ground arith in
                subst (IsFine words got) q n
          ]
    ]
  ]

-- More that the client has accepted does no harm.
pub IsSound-grows :
    (words : List Bytes) (got got' : ℕ) (t : Transfer)
    → got ≤ got'
    → IsSound words got t
    → IsSound words got' t
IsSound-grows words got got' (waiting s w) l v = record {
  placed = v.placed;
  same = v.same;
  is_open = v.is_open;
  heard = λ p h. omega (arith, v.heard p h);
  inside = v.inside;
}
IsSound-grows words got got' (done s) l v = omega arith
IsSound-grows words got got' failed l v = tt

pub alarm-IsSound :
    (words : List Bytes) (got ts : ℕ) (t : Transfer)
    → IsSound words got t
    → IsSound words got (step ts alarm t).0 × All (IsTrue words) (step ts alarm t).1
unfolding step
alarm-IsSound words got ts (waiting s w) v =
    resume-IsSound words got ts (on_alarm w s) (on_alarm-IsFine words got w s v)
alarm-IsSound words got ts (done s) v = (v, tt)
alarm-IsSound words got ts failed v = (v, tt)

pub acked-IsSound :
    (words : List Bytes) (got ts : ℕ) (a : Ack) (estimate : ℕ) (w : Wait) (s : Sender)
    → IsSound words got (waiting s w)
    → a.seq ≤ got
    → (s.last_pack ≡ none → a.seq ≢ w.expected → a.seq < length s.words)
    → IsSound words got (step ts (acked a estimate) (waiting s w)).0
      × All (IsTrue words) (step ts (acked a estimate) (waiting s w)).1
unfolding step
acked-IsSound words got ts a estimate w s v l p =
    resume-IsSound words got ts (on_ack a estimate w s)
      (on_ack-IsFine words got a estimate w s v l p)

pub start-IsReturned :
    (words : List Bytes) (got rwnd : ℕ) (timer : Timer) (q_obj : Datagram)
    → IsReturned words got (start words rwnd timer q_obj)
unfolding start
start-IsReturned words got rwnd timer q_obj = record {
  placed = record {
    place = omega arith;
    inside = λ n. omega arith;
    end = λ l h. cc;
    again = λ u h. cc;
  };
  same = refl;
  over = λ h. cc;
}
