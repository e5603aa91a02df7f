-- ===== src/Transfer/Sender/Sent.antt =====
-- One datagram of the sender: its type, and what it leaves.
use network_programming.Base.{
  ℕ, ◌+◌, ◌<◌, true, false, none, some, length, get_elem?, ltb, ◌≡◌, refl, ◌∙◌, ap, subst, inl, inr,
  arith, Bool-cases, Option-cases,
}
use network_programming.Transfer.Receiver.{payload, eof}
use network_programming.Transfer.Sender.{Sender, resend, read_next, set_type, start_timer, send_one}
use network_programming.Transfer.Sender.Words.{
  IsPlaced, IsTrue, Picked, resend-Picked, read_next-Picked, get-some,
}

-- What holds of a sender that has a datagram in hand.
pub record Sent (s s' : Sender) : Type 0 where
  pub placed : IsPlaced s'
  pub carried : IsTrue s.words s'.q_obj
  pub words : s'.words ≡ s.words
  pub unacked : s'.last_unacked ≡ none
  pub is_eof : s'.is_eof ≡ s.is_eof

pub set_type-none :
    (t : Sender)
    → t.last_pack ≡ none
    → set_type t ≡ record t { q_obj = record t.q_obj { kind = payload } }
unfolding set_type
set_type-none t n = ground arith

set_type_if_before :
    (t : Sender) (l : ℕ)
    → t.last_pack ≡ some l
    → ltb l t.next ≡ false
    → set_type t ≡ record t { q_obj = record t.q_obj { kind = payload } }
unfolding set_type
set_type_if_before t l n e = ground arith

set_type_if_past :
    (t : Sender) (l : ℕ)
    → t.last_pack ≡ some l
    → ltb l t.next ≡ true
    → set_type t ≡ record t { next = l + 1; q_obj = record t.q_obj { kind = eof; seq = l } }
unfolding set_type
set_type_if_past t l n e = ground arith

word_of :
    (s t : Sender)
    → Picked s t
    → (length s.words < t.next → ¬ (t.last_pack ≡ some (length s.words)))
    → get_elem? s.words t.q_obj.seq ≡ some t.q_obj.buf
word_of s t p n = elim p.holds [ inl e ↦ e | inr (l, e) ↦ absurd (n l e) ]

with_data :
    (s t : Sender)
    → Picked s t
    → get_elem? s.words t.q_obj.seq ≡ some t.q_obj.buf
    → Sent s (record t { q_obj = record t.q_obj { kind = payload } })
with_data s t p e = record {
  placed = record {
    place = rw p.words p.place;
    inside = λ n. rw p.words (omega (arith, p.number, get-some s.words t.q_obj.seq e));
    end = λ l n. rw p.words (p.end l n);
    again = λ u h. cc;
  };
  carried = e;
  words = p.words;
  unacked = p.unacked;
  is_eof = p.is_eof;
}

with_end :
    (s t : Sender)
    → Picked s t
    → t.last_pack ≡ some (length s.words)
    → length s.words < t.next
    → Sent s (record t {
      next = length s.words + 1;
      q_obj = record t.q_obj { kind = eof; seq = length s.words };
    })
with_end s t p m l = record {
  placed = record {
    place = rw p.words (omega (arith, p.place));
    inside = λ n. absurd (ground arith);
    end = λ k n. rw p.words (p.end k n);
    again = λ u h. cc;
  };
  carried = refl;
  words = p.words;
  unacked = p.unacked;
  is_eof = p.is_eof;
}

set_type-Sent : (s t : Sender) → Picked s t → Sent s (set_type t)
set_type-Sent s t p = elim (Option-cases t.last_pack) [
  | inl n ↦ rw (set_type-none t n) (with_data s t p (word_of s t p (λ l e. ground arith)))
  | inr (l, n) ↦ elim (Bool-cases (ltb l t.next)) [
    | inl e ↦
        let q = p.end l n in
        rw (set_type_if_past t l n e, q) (with_end s t p (n ∙ ap some q) (ground arith))
    | inr e ↦
        rw (set_type_if_before t l n e)
          (with_data s t p (word_of s t p (λ k m. ground (arith, p.end l n))))
  ]
]

start_timer-Sent : (s t : Sender) → Sent s t → Sent s (start_timer t)
unfolding start_timer
start_timer-Sent s t v = record {
  placed = record {
    place = v.placed.place;
    inside = v.placed.inside;
    end = v.placed.end;
    again = v.placed.again;
  };
  carried = v.carried;
  words = v.words;
  unacked = v.unacked;
  is_eof = v.is_eof;
}

-- A sender that stands at its place in the file, and has no number to send again that it has not
-- read, sends a datagram with the word of its number, or with the number of the end, and still stands
-- at its place.
pub send_one-Sent : (ts : ℕ) (s : Sender) → IsPlaced s → Sent s (send_one ts s)
unfolding send_one
send_one-Sent ts s v = elim (Option-cases s.last_unacked) [
  | inl n ↦
      let q : start_timer (set_type (read_next ts s)) ≡ send_one ts s = ground arith in
      subst (Sent s) q (start_timer-Sent s _ (set_type-Sent s _ (read_next-Picked ts s v n)))
  | inr (u, n) ↦
      let q : start_timer (set_type (resend u s)) ≡ send_one ts s = ground arith in
      subst (Sent s) q (start_timer-Sent s _ (set_type-Sent s _ (resend-Picked u s v n)))
]
