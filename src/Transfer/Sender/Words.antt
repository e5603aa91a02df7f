-- ===== src/Transfer/Sender/Words.antt =====
-- Which word of the file a datagram carries.
use network_programming.Base.{
  ℕ, zero, suc, ◌+◌, ◌≤◌, ◌<◌, min, none, some, List, [], ◌∷◌, length, get_elem?, ltb, Bytes, ◌≡◌,
  refl, ◌∙◌, ap, subst, inl, inr, ◌⊎◌, arith, Bool-cases, Option-cases,
}
use network_programming.Transfer.Receiver.{DataType, payload, eof, ping, Datagram}
use network_programming.Transfer.Sender.{Sender, reread, resend, read_next}

-- Where the sender stands in the file, and what it may have to send again.
pub record IsPlaced (s : Sender) : Type 0 where
  pub place : s.pos ≡ min s.next (length s.words)
  pub inside : s.last_pack ≡ none → s.next ≤ length s.words
  pub end : (l : ℕ) → s.last_pack ≡ some l → l ≡ length s.words
  pub again : (u : ℕ) → s.last_unacked ≡ some u → s.last_pack ≡ none → u < length s.words

-- A datagram with data carries the word of its number, and the end of the file has the number behind
-- the last word.
abbrev pub Carries : List Bytes → DataType → ℕ → Bytes → Type 0
Carries words payload n buf = get_elem? words n ≡ some buf
Carries words eof n buf = n ≡ length words
Carries words DataType.ack n buf = Unit
Carries words ping n buf = Unit

abbrev pub IsTrue : List Bytes → Datagram → Type 0
IsTrue words d = Carries words d.kind d.seq d.buf

get-reread : (ws : List Bytes) (u : ℕ) → u < length ws → get_elem? ws u ≡ some (reread ws u)
unfolding reread
get-reread [] u l = absurd (omega arith)
get-reread (w ∷ ws) zero l = refl
get-reread (w ∷ []) (suc u) l = absurd (omega arith)
get-reread (w ∷ (v ∷ ws)) (suc u) l = get-reread (v ∷ ws) u (omega arith)

get-none : (ws : List Bytes) (i : ℕ) → get_elem? ws i ≡ none → length ws ≤ i
get-none [] i h = omega arith
get-none (w ∷ ws) zero h = cc
get-none (w ∷ ws) (suc i) h = omega (arith, get-none ws i h)

pub get-some : (ws : List Bytes) (i : ℕ) {w : Bytes} → get_elem? ws i ≡ some w → i < length ws
get-some [] i h = cc
get-some (w ∷ ws) zero h = omega arith
get-some (w ∷ ws) (suc i) h = omega (arith, get-some ws i h)

-- Before the type is set: the datagram holds a word, or the end of the file has been noted.
pub record Picked (s t : Sender) : Type 0 where
  pub place : t.pos ≡ min t.next (length s.words)
  pub words : t.words ≡ s.words
  pub unacked : t.last_unacked ≡ none
  pub is_eof : t.is_eof ≡ s.is_eof
  pub end : (l : ℕ) → t.last_pack ≡ some l → l ≡ length s.words
  pub number : t.q_obj.seq + 1 ≡ t.next
  pub holds :
      (get_elem? s.words t.q_obj.seq ≡ some t.q_obj.buf)
      ⊎ (length s.words < t.next) × (t.last_pack ≡ some (length s.words))

pub resend-Picked :
    (u : ℕ) (s : Sender) → IsPlaced s → s.last_unacked ≡ some u → Picked s (resend u s)
unfolding resend
resend-Picked u s v h = record {
  place = refl;
  words = refl;
  unacked = refl;
  is_eof = refl;
  end = v.end;
  number = refl;
  holds = elim (Bool-cases (ltb u (length s.words))) [
    | inl e ↦ inl (get-reread s.words u (ground arith))
    | inr e ↦ elim (Option-cases s.last_pack) [
      | inl n ↦ absurd (ground (arith, v.again u h n))
      | inr (l, n) ↦ inr (ground arith, n ∙ ap some (v.end l n))
    ]
  ];
}

pub read_next-Picked :
    (ts : ℕ) (s : Sender) → IsPlaced s → s.last_unacked ≡ none → Picked s (read_next ts s)
unfolding read_next
read_next-Picked ts s v h = elim (Option-cases (get_elem? s.words s.pos)) [
  | inr (w, n) ↦ rw (reads s n) (record {
    place = ground (arith, v.place, get-some s.words s.pos n);
    words = refl;
    unacked = h;
    is_eof = refl;
    end = v.end;
    number = refl;
    holds = inl (
        subst (λ i. get_elem? s.words i ≡ some w) (omega (arith, v.place, get-some s.words s.pos n))
          n);
  })
  | inl n ↦ elim (Option-cases s.last_pack) [
    | inl m ↦ rw (finds_end s n m) (record {
      place = omega (arith, v.place, get-none s.words s.pos n);
      words = refl;
      unacked = h;
      is_eof = refl;
      end = λ l e. ground (arith, v.place, get-none s.words s.pos n, v.inside m);
      number = refl;
      holds = inr (
        omega (arith, v.place, get-none s.words s.pos n),
        ap some (omega (arith, v.place, get-none s.words s.pos n, v.inside m)),
      );
    })
    | inr (l, m) ↦ rw (is_at_end s n m) (record {
      place = omega (arith, v.place, get-none s.words s.pos n);
      words = refl;
      unacked = h;
      is_eof = refl;
      end = v.end;
      number = refl;
      holds = inr (omega (arith, v.place, get-none s.words s.pos n), m ∙ ap some (v.end l m));
    })
  ]
]
  where
    reads :
        (s : Sender) {w : Bytes}
        → get_elem? s.words s.pos ≡ some w
        → read_next ts s ≡ record s {
          next = s.next + 1;
          pos = s.pos + 1;
          q_obj = record { kind = DataType.ack; seq = s.next; ts = ts; buf = w };
        }
    reads s n = ground arith

    finds_end :
        (s : Sender)
        → get_elem? s.words s.pos ≡ none
        → s.last_pack ≡ none
        → read_next ts s ≡ record s {
          next = s.next + 1;
          last_pack = some s.next;
          q_obj = record { kind = DataType.ack; seq = s.next; ts = ts; buf = [] };
        }
    finds_end s n m = ground arith

    is_at_end :
        (s : Sender) {l : ℕ}
        → get_elem? s.words s.pos ≡ none
        → s.last_pack ≡ some l
        → read_next ts s ≡ record s {
          next = s.next + 1;
          q_obj = record { kind = DataType.ack; seq = s.next; ts = ts; buf = [] };
        }
    is_at_end s n m = ground arith
