-- ===== src/Tests/Tour.antt =====
-- A tour over three hosts.
use network_programming.Base.{
  ℕ, true, false, some, List, [], ◌∷◌, Bytes, text, ◌≡◌, refl, arith, replicate,
}
use network_programming.Tour.{
  Packet, packet, multicast, Tour, advance, is_skipped, add_ip_to_ping, recv_rt, pass_on, send_rt,
  on_route, route_packet, group_message, run, fill_route, populate_route,
}
use network_programming.Tour.Itinerary.{Visits, last, hop}
use network_programming.Tour.Start.{
  zero_route, whole_route, populate_route-starts, journey, tour_ends, tour_goes_round,
}
use network_programming.Tour.Pings.{IsPingList, run-IsPingList}

abbrev ip_1 : Bytes
ip_1 = text "1"

abbrev ip_2 : Bytes
ip_2 = text "2"

abbrev ip_3 : Bytes
ip_3 = text "3"

abbrev host : Bytes → Tour
host ip = record {
  src_vm = ip;
  src_ip = ip;
  ident = 7;
  route_el = record { ip_addr = replicate 4 []; index = 0; total_size = 0 };
  ips_to_ping = [];
  keep_pinging = true;
}

abbrev sent : ℕ → Packet
sent i = record {
  ip_id = 7;
  body = record { ip_addr = ip_1 ∷ ip_2 ∷ ip_3 ∷ [] ∷ []; index = i; total_size = 3 };
}

abbrev knows : ℕ → Bytes → Bytes → Tour
knows i ip from = record (host ip) { route_el = (sent i).body; ips_to_ping = from ∷ [] }

starts :
    populate_route some (ip_2 ∷ ip_3 ∷ []) (host ip_1)
    ≡ some (record (host ip_1) { route_el = (sent 1).body }, packet ip_2 (sent 1) ∷ [])
unfolding populate_route fill_route send_rt
starts = refl

at_2 : on_route ip_1 (sent 1) (host ip_2) ≡ some (knows 2 ip_2 ip_1, packet ip_3 (sent 2) ∷ [])
unfolding on_route recv_rt add_ip_to_ping is_skipped pass_on send_rt
at_2 = refl

at_3 : on_route ip_2 (sent 2) (host ip_3) ≡ some (knows 3 ip_3 ip_2, multicast ip_3 ∷ [])
unfolding on_route recv_rt add_ip_to_ping is_skipped pass_on send_rt
at_3 = refl

none_yet : IsPingList []
none_yet = record { once = λ ip. omega arith }

ends :
    run (route_packet ip_1 (sent 1) ∷ group_message ∷ []) (host ip_2)
    ≡ some (record (knows 2 ip_2 ip_1) { keep_pinging = false }, packet ip_3 (sent 2) ∷ [])
unfolding run on_route recv_rt add_ip_to_ping is_skipped pass_on send_rt
ends = refl

run-IsPingList_example : IsPingList (ip_1 ∷ [])
run-IsPingList_example =
    run-IsPingList (route_packet ip_1 (sent 1) ∷ group_message ∷ []) (host ip_2) none_yet ends

-- The same tour from a route of 20 places.
abbrev fresh : Tour
fresh = record (host ip_1) { route_el = zero_route }

abbrev route_1 : Packet
route_1 = record { ip_id = 7; body = whole_route some ip_1 ip_2 (ip_3 ∷ []) }

-- The hosts of the rest of the tour, as they are when it comes to them.
abbrev on_the_way : List (Bytes × Tour)
on_the_way = (ip_1, host ip_2) ∷ ((ip_2, host ip_3) ∷ [])

tour_ends_example : journey on_the_way route_1 ≡ some (ip_3 ∷ [])
tour_ends_example =
    tour_ends on_the_way route_1 ((refl, omega arith), ((refl, omega arith), tt)) (omega arith)
      (omega arith) (omega arith)

abbrev route_2 : Packet
route_2 = record route_1 { body = advance route_1.body }

abbrev passed : Bytes → Bytes → ℕ → Tour
passed ip from i = record (host ip) {
  route_el = record route_1.body { index = i };
  ips_to_ping = from ∷ [];
}

hands_on : on_route ip_1 route_1 (host ip_2) ≡ some (passed ip_2 ip_1 2, packet ip_3 route_2 ∷ [])
unfolding on_route recv_rt add_ip_to_ping is_skipped pass_on send_rt
hands_on = refl

tells : on_route ip_2 route_2 (host ip_3) ≡ some (passed ip_3 ip_2 3, multicast ip_3 ∷ [])
unfolding on_route recv_rt add_ip_to_ping is_skipped pass_on send_rt
tells = refl

visits : Visits route_1 (ip_3 ∷ [])
visits =
    hop route_1 ip_1 ip_3 (host ip_2) (passed ip_2 ip_1 2) route_2 [] refl hands_on
      (last route_2 ip_2 ip_3 (host ip_3) (passed ip_3 ip_2 3) refl tells)

tour_goes_round_example : ip_2 ∷ ip_3 ∷ [] ≡ ip_2 ∷ ip_3 ∷ []
tour_goes_round_example =
    tour_goes_round some ip_2 (ip_3 ∷ []) fresh (record fresh { route_el = route_1.body }) ip_2
      route_1 (ip_3 ∷ []) refl (omega arith)
      (populate_route-starts some ip_2 (ip_3 ∷ []) fresh refl (omega arith)) visits
