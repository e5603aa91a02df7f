-- ===== src/Tour/Itinerary.antt =====
-- Where the packet of a tour goes.
use network_programming.Base.{
  ℕ, zero, suc, ◌+◌, ◌≤◌, ◌<◌, true, some, List, [], ◌∷◌, length, get_elem?, take, drop, leb, Bytes,
  ◌≡◌, refl, sym, ◌∙◌, ap, subst, inl, inr, arith, Bool-cases, Option-cases, is_some,
  get_elem?-some,
}
use network_programming.Tour.{
  Route, Packet, Out, packet, multicast, Tour, advance, add_ip_to_ping, send_rt, recv_rt, pass_on,
  on_route, num_ips_ping,
}

-- The addresses of a route behind its index.
abbrev pub ahead : Route → List Bytes
ahead r = drop (r.index + 1) (take r.total_size r.ip_addr)

pub drop_next :
    (i n : ℕ) (xs : List Bytes) (x : Bytes)
    → get_elem? xs i ≡ some x
    → i < n
    → drop i (take n xs) ≡ x ∷ drop (suc i) (take n xs)
drop_next zero zero xs x e l = absurd (omega arith)
drop_next zero (suc n) [] x e l = cc
drop_next zero (suc n) (y ∷ xs) x e l = ground arith
drop_next (suc i) zero xs x e l = absurd (omega arith)
drop_next (suc i) (suc n) [] x e l = cc
drop_next (suc i) (suc n) (y ∷ xs) x e l = drop_next i n xs x e (omega arith)

pub drop_past : (i n : ℕ) (xs : List Bytes) → n ≤ i → drop i (take n xs) ≡ []
drop_past zero zero xs l = refl
drop_past zero (suc n) xs l = absurd (omega arith)
drop_past (suc i) zero xs l = refl
drop_past (suc i) (suc n) [] l = refl
drop_past (suc i) (suc n) (x ∷ xs) l = drop_past i n xs (omega arith)

-- What a host does with a packet of its tour: the last one tells the group, another one sends the
-- packet, with the index moved, to the next address.
pub data Hop (p : Packet) : List Out → Type 0 where
  ends : (vm : Bytes) → p.body.total_size ≤ p.body.index + 1 → Hop p (multicast vm ∷ [])
  goes :
      (ip : Bytes)
      → p.body.index + 1 < p.body.total_size
      → get_elem? p.body.ip_addr (p.body.index + 1) ≡ some ip
      → Hop p (packet ip (record p { body = advance p.body }) ∷ [])

Hop-pass_on :
    (p : Packet) (s : Tour) {s' : Tour} {outs : List Out}
    → p.ip_id ≡ s.ident
    → s.route_el ≡ advance p.body
    → pass_on s ≡ some (s', outs)
    → Hop p outs
unfolding pass_on send_rt
Hop-pass_on p s {s'} {outs} i r h = elim (Bool-cases (leb s.route_el.total_size s.route_el.index)) [
  | inl e ↦
      let q : multicast s.src_vm ∷ [] ≡ outs = ground arith in
      subst (Hop p) q (ends s.src_vm (ground arith))
  | inr e ↦ elim (Option-cases (get_elem? s.route_el.ip_addr s.route_el.index)) [
    | inl n ↦ absurd (ground arith)
    | inr (ip, n) ↦
        let q : packet ip (record p { body = advance p.body }) ∷ [] ≡ outs = ground arith in
        subst (Hop p) q (goes ip (ground arith) (rw r at n))
  ]
]

on_route-Hop :
    (from : Bytes) (p : Packet) (s : Tour) {s' : Tour} {outs : List Out}
    → p.ip_id ≡ s.ident
    → on_route from p s ≡ some (s', outs)
    → Hop p outs
unfolding on_route recv_rt
on_route-Hop from p s {s'} i h = elim (Option-cases (add_ip_to_ping s.src_ip from s.ips_to_ping)) [
  | inl n ↦ absurd (ground arith)
  | inr (ips, n) ↦
      Hop-pass_on p (record s { route_el = advance p.body; ips_to_ping = ips }) {s' = s'} i refl
        (ground arith)
]

ahead_at_end :
    (p : Packet) (vm : Bytes) {outs : List Out}
    → Hop p outs
    → outs ≡ multicast vm ∷ []
    → ahead p.body ≡ []
ahead_at_end p vm (ends vm' l) e = drop_past (p.body.index + 1) p.body.total_size p.body.ip_addr l
ahead_at_end p vm (goes ip l g) e = absurd (ground arith)

ahead-Hop :
    (p q : Packet) (ip : Bytes) {outs : List Out}
    → Hop p outs
    → outs ≡ packet ip q ∷ []
    → ahead p.body ≡ ip ∷ ahead q.body
ahead-Hop p q ip (ends vm l) e = absurd (ground arith)
ahead-Hop p q ip (goes ip' l g) e =
    drop_next (p.body.index + 1) p.body.total_size p.body.ip_addr ip' g l ∙ ground arith

-- The addresses that a packet is sent to, whatever hosts of the tour handle it.
pub data Visits : Packet → List Bytes → Type 0 where
  last :
      (p : Packet) (from vm : Bytes) (s s' : Tour)
      → p.ip_id ≡ s.ident
      → on_route from p s ≡ some (s', multicast vm ∷ [])
      → Visits p []
  hop :
      (p : Packet) (from ip : Bytes) (s s' : Tour) (q : Packet) (ips : List Bytes)
      → p.ip_id ≡ s.ident
      → on_route from p s ≡ some (s', packet ip q ∷ [])
      → Visits q ips
      → Visits p (ip ∷ ips)

-- A packet that hosts with one identification hand on until the group is told has been sent to the
-- addresses of its route behind its index, each in its turn, and to no other.
pub Visits-ahead : (p : Packet) (ips : List Bytes) → Visits p ips → ips ≡ ahead p.body
Visits-ahead _ _ (last p from vm s s' i h) =
    sym (ahead_at_end p vm (on_route-Hop from p s i h) refl)
Visits-ahead _ _ (hop p from ip s s' q ips i h v) =
    ap (λ xs. ip ∷ xs) (Visits-ahead q ips v)
    ∙ sym (ahead-Hop p q ip (on_route-Hop from p s i h) refl)

-- A host of the tour that has not yet 20 addresses to ping always sends on a packet whose route
-- stays inside its array.
on_route-is_some :
    (from : Bytes) (p : Packet) (s : Tour)
    → length s.ips_to_ping < num_ips_ping
    → p.body.total_size ≤ length p.body.ip_addr
    → is_some (on_route from p s) ≡ true
unfolding on_route recv_rt pass_on send_rt add_ip_to_ping
on_route-is_some from p s r l = ground (arith, get_elem?-some p.body.ip_addr (p.body.index + 1))
