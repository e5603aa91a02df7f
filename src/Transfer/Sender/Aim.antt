-- ===== src/Transfer/Sender/Aim.antt =====
-- Which datagram a round begins with, and where the sender stands behind the round.
use network_programming.Base.{
  ℕ, zero, suc, ◌+◌, ◌≤◌, min, not, ◌&&◌, true, false, none, some, List, [], ◌∷◌, ◌++◌, length,
  ◌==◌, ◌≡◌, ◌⊎◌, refl, ap, subst, inl, inr, arith, Bool-cases, Option-cases,
}
use network_programming.Transfer.Receiver.{Datagram}
use network_programming.Transfer.Receiver.Arrive.{is_word}
use network_programming.Transfer.Sender.{
  Sender, resend, read_next, set_type, start_timer, send_one, send_burst, send_round, with_ping,
}
use network_programming.Transfer.Sender.Words.{IsPlaced, Picked, resend-Picked, read_next-Picked}
use network_programming.Transfer.Sender.Sent.{send_one-Sent}

-- The next datagram is number `e`.
abbrev pub Aims : ℕ → Sender → Type 0
Aims e s = (s.last_unacked ≡ none) × (s.next ≡ e) ⊎ (s.last_unacked ≡ some e)

-- Number `e` is in hand, as data or as the end of the file.
abbrev pub Hits : ℕ → Sender → Type 0
Hits e t = (is_word t.q_obj.kind ≡ true) × (t.q_obj.seq ≡ e) × (t.next ≡ e + 1)

set_type-Hits :
    (s t : Sender) (e : ℕ) → Picked s t → t.next ≡ e + 1 → e ≤ length s.words → Hits e (set_type t)
unfolding set_type
set_type-Hits s t e p n l = elim (Option-cases t.last_pack) [
  | inl m ↦ ground (arith, p.number)
  | inr (k, m) ↦ ground (arith, p.number, p.end k m)
]

read_next-next : (ts : ℕ) (s : Sender) → (read_next ts s).next ≡ s.next + 1
unfolding read_next
read_next-next ts s = ground arith

start_timer-Hits : (t : Sender) (e : ℕ) → Hits e t → Hits e (start_timer t)
unfolding start_timer
start_timer-Hits t e h = h

pub send_one-Hits :
    (ts e : ℕ) (s : Sender) → IsPlaced s → e ≤ length s.words → Aims e s → Hits e (send_one ts s)
unfolding send_one resend
send_one-Hits ts e s v l (inl (n, q)) = rw n (
    start_timer-Hits _ e (
      set_type-Hits s (read_next ts s) e (read_next-Picked ts s v n)
        (omega (arith, read_next-next ts s, q)) l))
send_one-Hits ts e s v l (inr u) =
    rw u (start_timer-Hits _ e (set_type-Hits s (resend e s) e (resend-Picked e s v u) refl l))

-- While the end of the file has not been noted, the sender stands behind number `e`.
abbrev pub IsBehind : ℕ → Sender → Type 0
IsBehind e s = s.last_pack ≡ none → e + 1 ≤ s.next

send_one-IsBehind :
    (ts e : ℕ) (s : Sender) → s.last_unacked ≡ none → IsBehind e s → IsBehind e (send_one ts s)
unfolding send_one start_timer set_type read_next
send_one-IsBehind ts e s u b h = elim (Option-cases s.last_pack) [
  | inl m ↦ let k = b m in ground arith
  | inr (l, m) ↦ absurd (ground arith)
]

burst-IsBehind :
    (n ts e : ℕ) (s : Sender)
    → IsPlaced s
    → s.last_unacked ≡ none
    → IsBehind e s
    → IsBehind e (send_burst n ts s).0
unfolding send_burst
burst-IsBehind zero ts e s v u b = b
burst-IsBehind (suc n) ts e s v u b = elim (Bool-cases s.is_eof) [
  | inl f ↦ let q : s ≡ (send_burst (suc n) ts s).0 = ground arith in subst (IsBehind e) q b
  | inr f ↦
      let o = send_one-Sent ts s v in
      let q : (send_burst n ts (send_one ts s)).0 ≡ (send_burst (suc n) ts s).0 = ground arith in
      subst (IsBehind e) q
        (burst-IsBehind n ts e (send_one ts s) o.placed o.unacked (send_one-IsBehind ts e s u b))
]

burst-unacked :
    (n ts : ℕ) (s : Sender)
    → IsPlaced s
    → s.last_unacked ≡ none
    → (send_burst n ts s).0.last_unacked ≡ none
unfolding send_burst
burst-unacked zero ts s v u = u
burst-unacked (suc n) ts s v u =
    let o = send_one-Sent ts s v in
    let r = burst-unacked n ts (send_one ts s) o.placed o.unacked in ground arith

-- A round with nothing to send again only moves on.
pub round-IsBehind :
    (ts e : ℕ) (s : Sender)
    → IsPlaced s
    → s.last_unacked ≡ none
    → IsBehind e s
    → IsBehind e (send_round ts s).0
unfolding send_round
round-IsBehind ts e s v u b =
    let (s', ds) = send_burst (min s.cwnd s.rwnd) ts s in
    let o : IsBehind e s' = burst-IsBehind (min s.cwnd s.rwnd) ts e s v u b in
    elim (Bool-cases ((s'.rwnd == 0) && not s'.is_eof)) [
      | inl g ↦ let q : with_ping s' ≡ (send_round ts s).0 = ground arith in subst (IsBehind e) q o
      | inr g ↦ let q : s' ≡ (send_round ts s).0 = ground arith in subst (IsBehind e) q o
    ]

-- What a round that aims at number `e` begins with, and where it ends.
pub record Opens (e : ℕ) (s' : Sender) (ds : List Datagram) : Type 0 where
  pub head : Datagram
  pub rest : List Datagram
  pub split : ds ≡ head ∷ rest
  pub kind : is_word head.kind ≡ true
  pub seq : head.seq ≡ e
  pub behind : IsBehind e s'
  pub unacked : s'.last_unacked ≡ none

burst-Opens :
    (n ts e : ℕ) (s : Sender)
    → IsPlaced s
    → e ≤ length s.words
    → Aims e s
    → s.is_eof ≡ false
    → 1 ≤ n
    → Opens e (send_burst n ts s).0 (send_burst n ts s).1
unfolding send_burst
burst-Opens zero ts e s v l a f p = absurd (omega arith)
burst-Opens (suc n) ts e s v l a f p =
    let o = send_one-Sent ts s v in
    let (k, i, m) = send_one-Hits ts e s v l a in
    let (s', ds) = send_burst n ts (send_one ts s) in
    let q : (s', (send_one ts s).q_obj ∷ ds) ≡ send_burst (suc n) ts s = ground arith in
    subst (λ (r : Sender × List Datagram). Opens e r.0 r.1) q
      (record {
        head = (send_one ts s).q_obj;
        rest = ds;
        split = refl;
        kind = k;
        seq = i;
        behind = burst-IsBehind n ts e (send_one ts s) o.placed o.unacked (λ h. omega arith);
        unacked = burst-unacked n ts (send_one ts s) o.placed o.unacked;
      })

pub send_round-Opens :
    (ts e : ℕ) (s : Sender)
    → IsPlaced s
    → e ≤ length s.words
    → Aims e s
    → s.is_eof ≡ false
    → 1 ≤ s.cwnd
    → 1 ≤ s.rwnd
    → Opens e (send_round ts s).0 (send_round ts s).1
unfolding send_round
send_round-Opens ts e s v l a f c r =
    let (s', ds) = send_burst (min s.cwnd s.rwnd) ts s in
    let o = burst-Opens (min s.cwnd s.rwnd) ts e s v l a f (omega arith) in
    elim (Bool-cases ((s'.rwnd == 0) && not s'.is_eof)) [
      | inl g ↦
          let q : (with_ping s', ds ++ ((with_ping s').q_obj ∷ [])) ≡ send_round ts s =
            ground arith in
          subst (λ (r : Sender × List Datagram). Opens e r.0 r.1) q
            (record {
              head = o.head;
              rest = o.rest ++ ((with_ping s').q_obj ∷ []);
              split = ap (λ l. l ++ ((with_ping s').q_obj ∷ [])) o.split;
              kind = o.kind;
              seq = o.seq;
              behind = o.behind;
              unacked = o.unacked;
            })
      | inr g ↦
          let q : (s', ds) ≡ send_round ts s = ground arith in
          subst (λ (r : Sender × List Datagram). Opens e r.0 r.1) q o
    ]
