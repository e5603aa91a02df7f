-- ===== src/Transfer/Net/Sending.antt =====
-- What holds of the sender while it waits, whatever the client has acknowledged.
use network_programming.Base.{
  ℕ, ◌/◌, ◌≤◌, ◌<◌, true, false, Option, none, some, List, [], All, length, Bytes, ◌≡◌, refl, ◌∙◌,
  subst, inl, inr, arith, Bool-cases, Option-cases,
}
use network_programming.Transfer.Receiver.{Datagram}
use network_programming.Transfer.Sender.{
  Sender, Wait, Transfer, waiting, done, failed, Outcome, returned, waits, gave_up, is_past,
  on_alarm, resume, send_round,
}
use network_programming.Transfer.Rtt.{rtt_timeout}
use network_programming.Transfer.Sender.Words.{IsPlaced, IsTrue}
use network_programming.Transfer.Sender.Round.{send_round-SentAll}

-- Behind an acknowledged number the client has accepted everything; `got` is how far it has come.
pub record IsWaiting (words : List Bytes) (got : ℕ) (s : Sender) (w : Wait) : Type 0 where
  pub placed : IsPlaced s
  pub same : s.words ≡ words
  pub is_open : s.is_eof ≡ false
  pub heard : (p : ℕ) → w.prev ≡ some p → p ≤ got
  pub inside : (p : ℕ) → w.prev ≡ some p → s.last_pack ≡ none → p < length s.words

-- What `receive_ack` may return.
pub record IsReturned (words : List Bytes) (got : ℕ) (s : Sender) : Type 0 where
  pub placed : IsPlaced s
  pub same : s.words ≡ words
  pub over : s.is_eof ≡ true → length words < got

abbrev pub IsSound : List Bytes → ℕ → Transfer → Type 0
IsSound words got (waiting s w) = IsWaiting words got s w
IsSound words got (done s) = length words < got
IsSound words got failed = Unit

abbrev pub IsFine : List Bytes → ℕ → Outcome → Type 0
IsFine words got (returned s) = IsReturned words got s
IsFine words got (waits s w) = IsWaiting words got s w
IsFine words got gave_up = Unit

pub resume-IsSound :
    (words : List Bytes) (got ts : ℕ) (o : Outcome)
    → IsFine words got o
    → IsSound words got (resume ts o).0 × All (IsTrue words) (resume ts o).1
unfolding resume
resume-IsSound words got ts (waits s w) f = (f, tt)
resume-IsSound words got ts gave_up f = (tt, tt)
resume-IsSound words got ts (returned s) f = elim (Bool-cases s.is_eof) [
  | inl e ↦
      let q : (done s, []) ≡ resume ts (returned s) = ground arith in
      subst (λ (r : Transfer × List Datagram). IsSound words got r.0 × All (IsTrue words) r.1) q
        (f.over e, tt)
  | inr e ↦
      let r = send_round-SentAll ts s f.placed in
      let s' = (send_round ts s).0 in
      let q : (
        waiting s' (record { expected = s'.next; prev = none; fast = 0 }),
        (send_round ts s).1,
      )
          ≡ resume ts (returned s) =
        ground arith in
      subst (λ (r : Transfer × List Datagram). IsSound words got r.0 × All (IsTrue words) r.1) q
        (
          record {
            placed = r.placed;
            same = r.words ∙ f.same;
            is_open = r.is_eof ∙ e;
            heard = λ p h. cc;
            inside = λ p h. cc;
          },
          subst (λ ws. All (IsTrue ws) (send_round ts s).1) f.same r.carried,
        )
]

-- The last packet, once known, has the number behind the words.
pub past_end :
    (words : List Bytes) (got : ℕ) (s : Sender) (p : ℕ)
    → IsPlaced s
    → s.words ≡ words
    → p ≤ got
    → is_past (some p) s.last_pack ≡ true
    → length words < got
past_end words got s p v q l h = elim (Option-cases s.last_pack) [
  | inl n ↦ absurd (ground arith)
  | inr (k, n) ↦ ground (arith, v.end k n)
]

-- The same place in the same file, with another number to send again.
pub IsPlaced-again :
    (s : Sender) (u : Option ℕ)
    → IsPlaced s
    → ((p : ℕ) → u ≡ some p → s.last_pack ≡ none → p < length s.words)
    → IsPlaced (record s { last_unacked = u })
IsPlaced-again s u v h = record { place = v.place; inside = v.inside; end = v.end; again = h }

-- Fields that have no part in the place.
pub IsPlaced-window :
    (s : Sender) (t : Sender)
    → IsPlaced s
    → (t.pos ≡ s.pos)
      × (t.next ≡ s.next)
      × (t.words ≡ s.words)
      × (t.last_pack ≡ s.last_pack)
      × (t.last_unacked ≡ s.last_unacked)
    → IsPlaced t
IsPlaced-window s t v (p, n, w, l, u) = record {
  place = rw (p, n, w) v.place;
  inside = rw (n, w, l) v.inside;
  end = rw (w, l) v.end;
  again = rw (w, l, u) v.again;
}

resent : Option ℕ → Option ℕ → Option ℕ
resent prev u = elim prev [ none ↦ u | some p ↦ some p ]

resent-inside :
    (words : List Bytes) (got : ℕ) (w : Wait) (s : Sender)
    → IsWaiting words got s w
    → (p : ℕ) → resent w.prev s.last_unacked ≡ some p
    → s.last_pack ≡ none
    → p < length s.words
unfolding resent
resent-inside words got w s v p h n = elim (Option-cases w.prev) [
  | inl m ↦ v.placed.again p (ground arith) n
  | inr (k, m) ↦ v.inside p (ground arith) n
]

pub on_alarm-IsFine :
    (words : List Bytes) (got : ℕ) (w : Wait) (s : Sender)
    → IsWaiting words got s w
    → IsFine words got (on_alarm w s)
unfolding on_alarm resent
on_alarm-IsFine words got w s v = elim (Bool-cases (is_past w.prev s.last_pack)) [
  | inl e ↦
      let q : returned (record s { is_eof = true }) ≡ on_alarm w s = ground arith in
      subst (IsFine words got) q (record {
        placed = IsPlaced-window s _ v.placed (refl, refl, refl, refl, refl);
        same = v.same;
        over = λ _. heard_end e;
      })
  | inr e ↦ elim (Bool-cases (rtt_timeout s.timer).1) [
    | inl g ↦ let q : gave_up ≡ on_alarm w s = ground arith in subst (IsFine words got) q tt
    | inr g ↦
        let t : Sender = record s {
          timer = (rtt_timeout s.timer).0;
          ssthresh = some (s.cwnd / 2);
          cwnd = 1;
          last_unacked = resent w.prev s.last_unacked;
          rttinit = false;
        } in
        let q : returned t ≡ on_alarm w s = ground arith in
        subst (IsFine words got) q (record {
          placed =
              IsPlaced-window (record s { last_unacked = resent w.prev s.last_unacked }) t
                (IsPlaced-again s _ v.placed (resent-inside words got w s v))
                (refl, refl, refl, refl, refl);
          same = v.same;
          over = λ h. absurd (ground (arith, v.is_open));
        })
  ]
]
  where
    heard_end : is_past w.prev s.last_pack ≡ true → length words < got
    heard_end e = elim (Option-cases w.prev) [
      | inl m ↦ absurd (ground arith)
      | inr (p, m) ↦ past_end words got s p v.placed v.same (v.heard p m) (rw m at e)
    ]
