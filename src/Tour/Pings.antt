-- ===== src/Tour/Pings.antt =====
-- The list of the addresses that a host pings.
use network_programming.Base.{
  ℕ, ◌+◌, ◌≤◌, false, some, List, [], ◌∷◌, ◌++◌, length, ltb, if◌then◌else◌, Bytes, str_eq,
  str_eq_refl, eq_of_str_eq, ◌≡◌, refl, subst, inl, inr, arith, Bool-cases, Option-cases,
}
use network_programming.Tour.{
  Packet, Out, Tour, is_skipped, add_ip_to_ping, recv_rt, pass_on, send_rt, on_route, Event,
  route_packet, group_message, run, num_ips_ping,
}

-- How often an address is in the list.
abbrev pub count : Bytes → List Bytes → ℕ
count ip [] = 0
count ip (x ∷ xs) = if str_eq ip x then count ip xs + 1 else count ip xs

count-append :
    (ip : Bytes) (xs : List Bytes) (x : Bytes)
    → count ip (xs ++ (x ∷ [])) ≡ (if str_eq ip x then count ip xs + 1 else count ip xs)
count-append ip [] x = ground arith
count-append ip (y ∷ xs) x = ground (arith, count-append ip xs x)

count-new : (self ip : Bytes) (xs : List Bytes) → is_skipped self ip xs ≡ false → count ip xs ≡ 0
unfolding is_skipped
count-new self ip [] h = refl
count-new self ip (x ∷ xs) h = ground (arith, count-new self ip xs)

-- Each address at most once.
pub record IsPingList (xs : List Bytes) : Type 0 where
  pub once : (ip : Bytes) → count ip xs ≤ 1

pub add-IsPingList :
    (self ip : Bytes) (xs : List Bytes) {ys : List Bytes}
    → IsPingList xs
    → add_ip_to_ping self ip xs ≡ some ys
    → IsPingList ys
unfolding add_ip_to_ping
add-IsPingList self ip xs {ys} v h = elim (Bool-cases (is_skipped self ip xs)) [
  | inl e ↦ let q : xs ≡ ys = ground arith in subst IsPingList q v
  | inr e ↦ elim (Bool-cases (ltb (length xs) num_ips_ping)) [
    | inl l ↦
        let q : (xs ++ (ip ∷ [])) ≡ ys = ground arith in
        subst IsPingList q (record {
          once = λ x. elim (Bool-cases (str_eq x ip)) [
            | inl y ↦
                ground (arith, count-append x xs ip, count-new self ip xs e, eq_of_str_eq x ip y)
            | inr y ↦ ground (arith, count-append x xs ip, v.once x)
          ];
        })
    | inr l ↦ absurd (ground arith)
  ]
]

recv_rt-pings :
    (p : Packet) (s : Tour) {t : Tour} → recv_rt p s ≡ some t → t.ips_to_ping ≡ s.ips_to_ping
unfolding recv_rt
recv_rt-pings p s h = ground arith

pass_on-pings : (s : Tour) {s' : Tour} {outs : List Out} → pass_on s ≡ some (s', outs) → s' ≡ s
unfolding pass_on send_rt
pass_on-pings s h = ground arith

on_route-IsPingList :
    (from : Bytes) (p : Packet) (s : Tour) {s' : Tour} {outs : List Out}
    → IsPingList s.ips_to_ping
    → on_route from p s ≡ some (s', outs)
    → IsPingList s'.ips_to_ping
unfolding on_route
on_route-IsPingList from p s {s'} {outs} v h = elim (Option-cases (recv_rt p s)) [
  | inl n ↦ let q : s ≡ s' = ground arith in subst (λ (r : Tour). IsPingList r.ips_to_ping) q v
  | inr (t, n) ↦ elim (Option-cases (add_ip_to_ping t.src_ip from t.ips_to_ping)) [
    | inl m ↦ absurd (ground arith)
    | inr (ips, m) ↦
        let q =
          pass_on-pings (record t { ips_to_ping = ips }) {s' = s'} {outs = outs} (ground arith) in
        let k : t.ips_to_ping ≡ s.ips_to_ping = recv_rt-pings p s n in
        rw q (add-IsPingList t.src_ip from t.ips_to_ping (rw k v) m)
  ]
]

-- Through all the packets and messages that a host handles, without a write behind the strings of the
-- list, the addresses that it pings stay distinct if they were.
pub run-IsPingList :
    (es : List Event) (s : Tour) {s' : Tour} {outs : List Out}
    → IsPingList s.ips_to_ping
    → run es s ≡ some (s', outs)
    → IsPingList s'.ips_to_ping
unfolding run
run-IsPingList [] s {s'} v h =
    let q : s ≡ s' = ground arith in subst (λ (r : Tour). IsPingList r.ips_to_ping) q v
run-IsPingList (route_packet from p ∷ es) s {s' = end} v h =
    elim (Option-cases (on_route from p s)) [
      | inl n ↦ absurd (ground arith)
      | inr ((s', outs), n) ↦ elim (Option-cases (run es s')) [
        | inl m ↦ absurd (ground arith)
        | inr ((s'', more), m) ↦
            let q : s'' ≡ end = ground arith in
            subst (λ (r : Tour). IsPingList r.ips_to_ping) q
              (run-IsPingList es s' (on_route-IsPingList from p s v n) m)
      ]
    ]
run-IsPingList (group_message ∷ es) s {s'} v h =
    let q : record s { keep_pinging = false } ≡ s' = ground arith in
    subst (λ (r : Tour). IsPingList r.ips_to_ping) q v

-- A host does not put its own address into a list that is not empty, but it does into an empty one.
add_self :
    (self : Bytes) (xs : List Bytes)
    → add_ip_to_ping self self xs ≡ some (elim xs [ [] ↦ self ∷ [] | x ∷ rest ↦ x ∷ rest ])
unfolding add_ip_to_ping is_skipped
add_self self [] = refl
add_self self (x ∷ xs) = ground (arith, str_eq_refl self)
