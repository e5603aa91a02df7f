-- ===== src/Tour/Ping/Announced.antt =====
-- What a pass of the thread over its list sends.
use network_programming.Base.{
  ℕ, zero, suc, ◌+◌, ◌%◌, ◌^◌, ◌≤◌, ◌<◌, some, List, [], ◌∷◌, ◌++◌, length, get_elem?, take, drop,
  Bytes, ◌≡◌, refl, sym, ◌∙◌, ap, subst, arith, Option-cases, inl, inr, All, All-get_elem?,
  get_elem?-append, Option, get_elem?-some, append_snoc,
}
use mathlib.Core.List.{append-nil}
use native.Mathlib.Decide.{dec_lt}
use network_programming.Arp.Areq.{areq}
use network_programming.Tour.Ping.{
  Icmp, PingFrame, PingOut, announce, request, Pinger, Turn, announce_next, set_icmp,
  send_ping_request, ping_one, ping_from,
}

-- Each request goes to an address that was announced before it; `seen` was announced earlier.
abbrev pub AreAnnounced : List Bytes → List PingOut → Type 0
AreAnnounced seen [] = Unit
AreAnnounced seen (announce ip ∷ outs) = AreAnnounced (seen ++ (ip ∷ [])) outs
AreAnnounced seen (request f ∷ outs) =
    ((j : ℕ) × (get_elem? seen j ≡ some f.dest_ip)) × AreAnnounced seen outs

abbrev pub announced : List PingOut → List Bytes
announced [] = []
announced (announce ip ∷ outs) = ip ∷ announced outs
announced (request f ∷ outs) = announced outs

-- The addresses and sequence numbers of the requests.
abbrev pub requests : List PingOut → List (Bytes × ℕ)
requests [] = []
requests (announce ip ∷ outs) = requests outs
requests (request f ∷ outs) = (f.dest_ip, f.icmp.icmp_seq) ∷ requests outs

abbrev pub numbered : ℕ → List Bytes → List (Bytes × ℕ)
numbered seq [] = []
numbered seq (ip ∷ ips) = (ip, (seq + 1) % 2 ^ 16) ∷ numbered (seq + 1) ips

-- The list that a round finds is the start of `all`, and has `n` addresses or more.
abbrev pub IsStart : List Bytes → ℕ → Turn → Type 0
IsStart all n t = (more : List Bytes) × (t.ips_to_ping ++ more ≡ all) × (n ≤ length t.ips_to_ping)

take-snoc :
    (xs : List Bytes) (n : ℕ) {x : Bytes}
    → get_elem? xs n ≡ some x
    → take (n + 1) xs ≡ take n xs ++ (x ∷ [])
take-snoc [] n h = absurd (ground arith)
take-snoc (y ∷ xs) zero h = ground arith
take-snoc (y ∷ xs) (suc n) {x} h =
    let up : suc n + 1 ≡ suc (n + 1) = omega arith in
    ap (λ (m : ℕ). take m (y ∷ xs)) up ∙ ap (λ (l : List Bytes). y ∷ l) (take-snoc xs n h)

get_elem?-take :
    (xs : List Bytes) (n i : ℕ) {x : Bytes}
    → i < n
    → get_elem? xs i ≡ some x
    → get_elem? (take n xs) i ≡ some x
get_elem?-take [] n i l h = absurd (ground arith)
get_elem?-take (y ∷ xs) zero i l h = absurd (omega arith)
get_elem?-take (y ∷ xs) (suc n) zero l h = h
get_elem?-take (y ∷ xs) (suc n) (suc i) l h = get_elem?-take xs n i (omega arith) h

take-drop :
    (xs : List Bytes) (k n : ℕ) {x : Bytes}
    → get_elem? xs k ≡ some x
    → take (suc n) (drop k xs) ≡ x ∷ take n (drop (k + 1) xs)
take-drop [] k n h = absurd (ground arith)
take-drop (y ∷ xs) zero n h = ground arith
take-drop (y ∷ xs) (suc k) n {x} h =
    let up : suc k + 1 ≡ suc (k + 1) = omega arith in
    take-drop xs k n h ∙ ap (λ (m : ℕ). x ∷ take n (drop m (y ∷ xs))) (sym up)

-- `gethostbyaddr` finds a name for the address, and `Host_serv` finds something for the name.
abbrev pub IsNamed : (Bytes → Option Bytes) → (Bytes → Option Bytes) → Bytes → Type 0
IsNamed gethostbyaddr host_serv ip =
    (h_name : Bytes) × (ai : Bytes) × (gethostbyaddr ip ≡ some h_name)
    × (host_serv h_name ≡ some ai)

-- The state of the thread at `k`: every address before it was announced.
module _ (gethostbyaddr host_serv : Bytes → Option Bytes) (all : List Bytes)
    (named : All (IsNamed gethostbyaddr host_serv) all) where
  -- What an announcement leads to.
  abbrev Announces : List Bytes → ℕ → Pinger → Type 0
  Announces ips k s =
      (r : Pinger × List PingOut) × (announce_next gethostbyaddr host_serv ips s ≡ some r)
      × (k < r.0.next_ip_to_ping_index)
      × (r.0.seq ≡ s.seq)
      × ((outs : List PingOut)
          → AreAnnounced (take r.0.next_ip_to_ping_index all) outs
          → AreAnnounced (take s.next_ip_to_ping_index all) (r.1 ++ outs))
      × ((outs : List PingOut) → requests (r.1 ++ outs) ≡ requests outs)
      × ((outs : List PingOut)
          → take s.next_ip_to_ping_index all ++ announced (r.1 ++ outs)
            ≡ take r.0.next_ip_to_ping_index all ++ announced outs)

  announce_next-Announces :
      (ips more : List Bytes) (k : ℕ) (s : Pinger)
      → ips ++ more ≡ all
      → k < length ips
      → k ≤ s.next_ip_to_ping_index
      → Announces ips k s
  unfolding announce_next
  announce_next-Announces ips more k s e l m =
      elim (Option-cases (get_elem? ips s.next_ip_to_ping_index)) [
        | inl n ↦
            let past : k < s.next_ip_to_ping_index = elim (dec_lt k s.next_ip_to_ping_index) [
              | yes p ↦ p
              | no p ↦
                  let (ip, f) = get_elem?-some ips s.next_ip_to_ping_index (omega (arith, l, m)) in
                  absurd (ground arith)
            ] in
            (
              (s, []),
              rw (announce_next, n) refl,
              past,
              refl,
              (λ outs a. a),
              (λ outs. refl),
              λ outs. refl,
            )
        | inr (ip, n) ↦
            let here : get_elem? all s.next_ip_to_ping_index ≡ some ip =
              subst (λ (xs : List Bytes). get_elem? xs s.next_ip_to_ping_index ≡ some ip) e
                (get_elem?-append ips more s.next_ip_to_ping_index n) in
            let (h_name, ai, g, h) =
              All-get_elem? (IsNamed gethostbyaddr host_serv) all s.next_ip_to_ping_index named
                here in
            (
              (record s { next_ip_to_ping_index = s.next_ip_to_ping_index + 1 }, announce ip ∷ []),
              rw (announce_next, n, g, h) refl,
              omega arith,
              refl,
              (λ outs a.
                  subst (λ (seen : List Bytes). AreAnnounced seen outs)
                    (take-snoc all s.next_ip_to_ping_index here) a),
              (λ outs. refl),
              λ outs.
                  sym (append_snoc (take s.next_ip_to_ping_index all) ip (announced outs))
                  ∙ ap (λ (seen : List Bytes). seen ++ announced outs)
                      (sym (take-snoc all s.next_ip_to_ping_index here)),
            )
      ]

  module _ (in_cksum : Icmp → ℕ) (src_ip : Bytes) where
    -- What the rounds from `k` on send, and what has been announced at their end.
    abbrev pub Sends : ℕ → List Turn → Pinger → Type 0
    Sends k ts s =
        (s' : Pinger) × (outs : List PingOut) × (ping_from in_cksum gethostbyaddr host_serv src_ip k
            ts s
          ≡ some (s', outs))
        × AreAnnounced (take s.next_ip_to_ping_index all) outs
        × (requests outs ≡ numbered s.seq (take (length ts) (drop k all)))
        × (s'.seq ≡ s.seq + length ts)
        × (take s.next_ip_to_ping_index all ++ announced outs ≡ take s'.next_ip_to_ping_index all)

    -- One round.
    ping_one-request :
        (k : ℕ) (t : Turn) (s : Pinger) (ip : Bytes) (told : Pinger × List PingOut)
        → get_elem? t.ips_to_ping k ≡ some ip
        → announce_next gethostbyaddr host_serv t.ips_to_ping s ≡ some told
        → (f : PingFrame) × (ping_one in_cksum gethostbyaddr host_serv src_ip k t s
            ≡ some (record told.0 { seq = told.0.seq + 1 }, told.1 ++ (request f ∷ [])))
          × (f.dest_ip ≡ ip)
          × (f.icmp.icmp_seq ≡ (told.0.seq + 1) % 2 ^ 16)
    unfolding ping_one send_ping_request set_icmp
    ping_one-request k t s ip told h e =
        let dest = (areq t.dest).0 in
        let self = (areq t.self).0 in
        let r =
          send_ping_request in_cksum dest.sll_addr self.sll_addr src_ip ip self.sll_ifindex t.time
            told.0 in
        (r.1, rw (ping_one, h, e) refl, refl, refl)

    ping_from-Sends :
        (k n : ℕ) (ts : List Turn) (s : Pinger)
        → k + length ts ≡ n
        → All (IsStart all n) ts
        → k ≤ s.next_ip_to_ping_index
        → Sends k ts s
    unfolding ping_from
    ping_from-Sends k n [] s z v m = (s, [], refl, tt, refl, omega arith, append-nil _)
    ping_from-Sends k n (t ∷ ts) s z ((more, e, l), v) m =
        let (told, tells, p, same, a, r, j) =
          announce_next-Announces t.ips_to_ping more k s e (omega arith) m in
        let (ip, h) = get_elem?-some t.ips_to_ping k (omega arith) in
        let (f, one, d, q) = ping_one-request k t s ip told h tells in
        let at_k : get_elem? all k ≡ some ip =
          subst (λ (xs : List Bytes). get_elem? xs k ≡ some ip) e
            (get_elem?-append t.ips_to_ping more k h) in
        let (s', outs, go, b, g, q', u) =
          ping_from-Sends (k + 1) n ts (record told.0 { seq = told.0.seq + 1 }) (omega arith) v
            (omega arith) in
        let first_request : requests (request f ∷ outs)
            ≡ numbered s.seq (ip ∷ take (length ts) (drop (k + 1) all)) =
          rw (d, q, g, same) refl in
        (
          s',
          (told.1 ++ (request f ∷ [])) ++ outs,
          rw (ping_from, one, go) refl,
          subst (AreAnnounced (take s.next_ip_to_ping_index all))
              (sym (append_snoc told.1 (request f) outs))
              (a (request f ∷ outs) (
                (k, get_elem?-take all told.0.next_ip_to_ping_index k p at_k ∙ ap some (sym d)),
                b,
              )),
          ap requests (append_snoc told.1 (request f) outs)
              ∙ r (request f ∷ outs)
              ∙ first_request
              ∙ ap (numbered s.seq) (sym (take-drop all k (length ts) at_k)),
          omega arith,
          ap (λ (o : List PingOut). take s.next_ip_to_ping_index all ++ announced o)
                (append_snoc told.1 (request f) outs)
              ∙ j (request f ∷ outs)
              ∙ u,
        )

    -- A pass of the thread over the addresses that are in its list when it starts, while the list may
    -- grow: it sends each of them one request, in their order, with consecutive sequence numbers modulo
    -- 2^16, and each address was announced before its request, by this pass or by an earlier one. It is
    -- assumed that `gethostbyaddr` finds a name for each address of the list, and `Host_serv` an address
    -- for each of these names: without one the program ends there.
    pub pass-Sends : (ts : List Turn) (s : Pinger) → All (IsStart all (length ts)) ts → Sends 0 ts s
    pass-Sends ts s v = ping_from-Sends 0 (length ts) ts s (omega arith) v (omega arith)
