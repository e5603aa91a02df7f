-- ===== src/Tour/Start.antt =====
-- The first packet of a tour, and the whole way of it.
use network_programming.Base.{
  ℕ, All, none, zero, suc, ◌+◌, ◌-◌, ◌≤◌, ◌<◌, Option, some, List, [], ◌∷◌, ◌++◌, map, length, take,
  drop, replicate, Bytes, ◌≡◌, refl, sym, ◌∙◌, ap, subst, arith, length-append, length-map,
  take-append, get_elem?-append_at, set-append_at, append_snoc, get_elem?-some, Bool-cases, inl,
  inr,
}
use mathlib.Core.Option
use mathlib.Core.Option.{some-injective}
use native.Mathlib.Decide.{dec_lt}
use network_programming.Tour.{
  Route, Packet, Out, packet, multicast, Tour, advance, resolved, fill_route, populate_route,
  send_rt, on_route, recv_rt, pass_on, add_ip_to_ping, is_skipped, num_ips_ping, max_route,
}
use network_programming.Tour.Itinerary.{ahead, drop_past, drop_next, Visits, Visits-ahead}

-- The route as the program finds it: a global, so all of it is zero.
abbrev pub zero_route : Route
zero_route = record { ip_addr = replicate max_route []; index = 0; total_size = 0 }

module _ (host_ip : Bytes → Option Bytes) where
  -- The address of a name, and the empty string for a name that is not found.
  abbrev pub address : Bytes → Bytes
  address host = resolved (host_ip host) []

  fill_route-map :
      (hosts done : List Bytes) (k n : ℕ)
      → n ≡ length hosts + k
      → fill_route host_ip hosts (length done) (done ++ replicate n [])
        ≡ some (done ++ (map address hosts ++ replicate k []))
  unfolding fill_route
  fill_route-map [] done k n e =
      let q : n ≡ k = omega arith in ap (λ (m : ℕ). some (done ++ replicate m [])) q
  fill_route-map (h ∷ hs) done k zero e = absurd (omega arith)
  fill_route-map (h ∷ hs) done k (suc n) e =
      let rest = replicate n [] in
      let next : length (done ++ (address h ∷ [])) ≡ length done + 1 =
        length-append done (address h ∷ []) in
      rw
        (
          fill_route,
          get_elem?-append_at done [] rest,
          set-append_at done [] rest (address h),
          sym next,
          fill_route-map hs (done ++ (address h ∷ [])) k n (omega arith),
        )
        (ap some (append_snoc done (address h) (map address hs ++ replicate k [])))

  -- The route of a tour over `host` and `hosts`, from the host named `vm`.
  abbrev pub whole_route : Bytes → Bytes → List Bytes → Route
  whole_route vm host hosts = record {
    ip_addr = map address (vm ∷ (host ∷ hosts)) ++ replicate (18 - length hosts) [];
    index = 1;
    total_size = length (host ∷ hosts) + 1;
  }

  starts_zero :
      (host : Bytes) (hosts : List Bytes) (s : Tour)
      → length hosts < 19
      → let r = whole_route s.src_vm host hosts in
        populate_route host_ip (host ∷ hosts) (record s { route_el = zero_route })
        ≡ some (
          record s { route_el = r },
          packet (address host) (record { ip_id = s.ident; body = r }) ∷ [],
        )
  unfolding populate_route send_rt
  starts_zero host hosts s l =
      rw
        (
          populate_route,
          fill_route-map (s.src_vm ∷ (host ∷ hosts)) [] (18 - length hosts) 20 (omega arith),
        )
        refl

  -- With one to 19 names, the first run of a host fills in the addresses of this host and of the names in
  -- their order, the empty one for a name that is not found, and sends the route to the first of the names.
  pub populate_route-starts :
      (host : Bytes) (hosts : List Bytes) (s : Tour)
      → s.route_el ≡ zero_route
      → length hosts < 19
      → let r = whole_route s.src_vm host hosts in
        populate_route host_ip (host ∷ hosts) s
        ≡ some (
          record s { route_el = r },
          packet (address host) (record { ip_id = s.ident; body = r }) ∷ [],
        )
  populate_route-starts host hosts s z l =
      let r = whole_route s.src_vm host hosts in
      subst
        (λ (q : Route).
          populate_route host_ip (host ∷ hosts) (record s { route_el = q })
          ≡ some (
            record s { route_el = r },
            packet (address host) (record { ip_id = s.ident; body = r }) ∷ [],
          ))
        (sym z) (starts_zero host hosts s l)

  ahead-whole_route :
      (vm host : Bytes) (hosts : List Bytes) → ahead (whole_route vm host hosts) ≡ map address hosts
  ahead-whole_route vm host hosts =
      let size : suc (length hosts) + 1 ≡ suc (suc (length hosts)) = omega arith in
      ap (λ (n : ℕ). drop 2 (take n (whole_route vm host hosts).ip_addr)) size
      ∙ take-append (map address hosts) (replicate (18 - length hosts) []) (length hosts)
          (sym (length-map address hosts))

-- A packet of this tour, on a host with room for another address to ping.
on_route-pass_on :
    (from : Bytes) (p : Packet) (s : Tour)
    → p.ip_id ≡ s.ident
    → length s.ips_to_ping < num_ips_ping
    → (ips : List Bytes) × (on_route from p s
        ≡ pass_on (record s { route_el = advance p.body; ips_to_ping = ips }))
unfolding on_route recv_rt add_ip_to_ping
on_route-pass_on from p s i r = elim (Bool-cases (is_skipped s.src_ip from s.ips_to_ping)) [
  | inl e ↦ (s.ips_to_ping, ground arith)
  | inr e ↦ (s.ips_to_ping ++ (from ∷ []), ground arith)
]

-- A packet on its way: each element of the list is the state of the host that gets it next, with the
-- address that it comes from. The result is the addresses that it is sent to until the group is told,
-- and `none` if a host drops it, if a handler fails or if the list ends before that.
unfoldable pub handed : (Packet → Option (List Bytes)) → List Out → Option (List Bytes)
handed rest [] = none
handed rest (multicast vm ∷ outs) = some []
handed rest (packet ip q ∷ outs) = Option.map (λ ips. ip ∷ ips) (rest q)

unfoldable pub journey : List (Bytes × Tour) → Packet → Option (List Bytes)
journey [] p = none
journey ((from, s) ∷ hosts) p = elim (on_route from p s) [
  | none ↦ none
  | some (s', outs) ↦ handed (journey hosts) outs
]

-- A host of the tour with room for another address to ping.
abbrev pub IsOnTour : ℕ → Bytes × Tour → Type 0
IsOnTour ident (from, s) = (ident ≡ s.ident) × (length s.ips_to_ping < num_ips_ping)

-- A packet whose route stays inside its array is sent to the addresses behind its index, in their order,
-- and then the group is told: none of the hosts drops it. It is assumed that there are enough hosts,
-- one more than those addresses, and that each of them, whatever else is in its state, has the
-- identification of the tour and room for another address to ping.
pub tour_ends :
    (hosts : List (Bytes × Tour)) (p : Packet)
    → All (IsOnTour p.ip_id) hosts
    → p.body.total_size ≤ length p.body.ip_addr
    → p.body.total_size ≤ p.body.index + length hosts
    → 1 ≤ length hosts
    → journey hosts p ≡ some (ahead p.body)
unfolding journey handed pass_on send_rt
tour_ends [] p v l n o = absurd (omega arith)
tour_ends ((from, s) ∷ hosts) p ((i, r), v) l n o =
    let (ips, e) = on_route-pass_on from p s i r in
    elim (dec_lt (p.body.index + 1) p.body.total_size) [
      | yes f ↦
          let (ip, g) = get_elem?-some p.body.ip_addr (p.body.index + 1) (omega (arith, l, f)) in
          let q = record p { body = advance p.body } in
          let rest = tour_ends hosts q v l (omega (arith, n)) (omega (arith, n, f)) in
          let after : p.body.index + 1 + 1 ≡ suc (p.body.index + 1) = omega arith in
          let same : ahead p.body ≡ ip ∷ ahead (advance p.body) =
            drop_next (p.body.index + 1) p.body.total_size p.body.ip_addr ip g f
            ∙ ap (λ (n : ℕ). ip ∷ drop n (take p.body.total_size p.body.ip_addr)) (sym after) in
          let sends : on_route from p s
              ≡ some (record s { route_el = advance p.body; ips_to_ping = ips }, packet ip q ∷ []) =
            e ∙ ground arith in
          rw (journey, sends, rest, same) refl
      | no f ↦
          let tells : on_route from p s
              ≡ some (
                record s { route_el = advance p.body; ips_to_ping = ips },
                multicast s.src_vm ∷ [],
              ) =
            e ∙ ground arith in
          rw
            (
              journey,
              tells,
              drop_past (p.body.index + 1) p.body.total_size p.body.ip_addr (omega arith),
            )
            refl
    ]

-- A tour over one to 19 names that is started on a host with a zero route and is handed on until the
-- group is told has been sent to the address of each name, in their order, and to no other; a name that is
-- not found counts as the empty address.
pub tour_goes_round :
    (host_ip : Bytes → Option Bytes) (host : Bytes) (hosts : List Bytes) (s s' : Tour) (ip : Bytes)
    (p : Packet) (ips : List Bytes)
    → s.route_el ≡ zero_route
    → length hosts < 19
    → populate_route host_ip (host ∷ hosts) s ≡ some (s', packet ip p ∷ [])
    → Visits p ips
    → ip ∷ ips ≡ map (address host_ip) (host ∷ hosts)
tour_goes_round host_ip host hosts s s' ip p ips z l h v =
    let r = whole_route host_ip s.src_vm host hosts in
    let e = some-injective _ _ (sym (populate_route-starts host_ip host hosts s z l) ∙ h) in
    let f : packet (address host_ip host) (record { ip_id = s.ident; body = r }) ∷ []
        ≡ packet ip p ∷ [] =
      ap (λ (t : Tour × List Out). t.1) e in
    let g : address host_ip host ≡ ip = cc in
    let k : record { ip_id = s.ident; body = r } ≡ p = cc in
    let q : ips ≡ map (address host_ip) hosts =
      Visits-ahead p ips v
      ∙ ap (λ (x : Packet). ahead x.body) (sym k)
      ∙ ahead-whole_route host_ip s.src_vm host hosts in
    cc
