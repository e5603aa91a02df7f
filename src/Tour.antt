-- ===== src/Tour.antt =====
-- The tour of hw4 (tour.c): a list of hosts in a packet that each host sends on to the next, and the
-- list of the hosts that a host pings. The answers to pings are only printed.
pub mod Itinerary
pub mod Pings
pub mod Start
pub mod Ping
use network_programming.Base.{
  ℕ, zero, suc, ◌+◌, Bool, true, false, ◌||◌, Option, none, some, List, [], ◌∷◌, ◌++◌, length, set,
  get_elem?, replicate, ltb, leb, ◌==◌, if◌then◌else◌, Bytes, str_eq,
}
use mathlib.Core.Option

-- `struct route` of tour.h; the array has 20 places.
pub record Route : Type 0 where
  pub ip_addr : List Bytes
  pub index : ℕ
  pub total_size : ℕ

abbrev pub max_route : ℕ
max_route = 20

abbrev pub num_ips_ping : ℕ
num_ips_ping = 20

-- What travels: the identification in the IP header, and the route behind it.
pub record Packet : Type 0 where
  pub ip_id : ℕ
  pub body : Route

-- A packet to an address, or the message to the group with the name of the sender.
pub data Out : Type 0 where
  packet : Bytes → Packet → Out
  multicast : Bytes → Out

-- The globals of tour.c. `ident` is `htons(IDENTIFICATION)`. The list of addresses to ping is as
-- long as `next_ip_index` says.
pub record Tour : Type 0 where
  pub src_vm : Bytes
  pub src_ip : Bytes
  pub ident : ℕ
  pub route_el : Route
  pub ips_to_ping : List Bytes
  pub keep_pinging : Bool

-- The loop over the list: whether it returns. The test for this host is inside it.
unfoldable pub is_skipped : Bytes → Bytes → List Bytes → Bool
is_skipped self ip [] = false
is_skipped self ip (x ∷ xs) = str_eq ip x || (str_eq self ip || is_skipped self ip xs)

-- There is no test for the end of the list. `main` allocates 20 strings, and `none` is a run that
-- writes behind them, from where on nothing is known of it.
unfoldable pub add_ip_to_ping : Bytes → Bytes → List Bytes → Option (List Bytes)
add_ip_to_ping self ip ips =
    if is_skipped self ip ips
    then some ips
    else if ltb (length ips) num_ips_ping
    then some (ips ++ (ip ∷ []))
    else none

-- To the address at the index of the route.
unfoldable pub send_rt : Tour → Option Out
send_rt s =
    Option.map (λ ip. packet ip (record { ip_id = s.ident; body = s.route_el }))
      (get_elem? s.route_el.ip_addr s.route_el.index)

-- The next address after the one that is at the index.
abbrev pub advance : Route → Route
advance r = record r { index = r.index + 1 }

-- `none` where the code returns -1.
unfoldable pub recv_rt : Packet → Tour → Option Tour
recv_rt p s = if p.ip_id == s.ident then some (record s { route_el = advance p.body }) else none

-- At the end of the route the group is told, else the packet goes on.
unfoldable pub pass_on : Tour → Option (Tour × List Out)
pass_on s =
    if leb s.route_el.total_size s.route_el.index
    then some (s, multicast s.src_vm ∷ [])
    else Option.map (λ out. (s, out ∷ [])) (send_rt s)

-- A packet on the route socket, from the address `from`.
unfoldable pub on_route : Bytes → Packet → Tour → Option (Tour × List Out)
on_route from p s = elim (recv_rt p s) [
  | none ↦ some (s, [])
  | some s' ↦ elim (add_ip_to_ping s'.src_ip from s'.ips_to_ping) [
    | none ↦ none
    | some ips ↦ pass_on (record s' { ips_to_ping = ips })
  ]
]

-- A packet of the route, or a message of the group, which ends the program.
pub data Event : Type 0 where
  route_packet : Bytes → Packet → Event
  group_message : Event

unfoldable pub run : List Event → Tour → Option (Tour × List Out)
run [] s = some (s, [])
run (route_packet from p ∷ es) s = elim (on_route from p s) [
  | none ↦ none
  | some (s', outs) ↦ elim (run es s') [ none ↦ none | some (s'', more) ↦ some (s'', outs ++ more) ]
]
run (group_message ∷ es) s = some (record s { keep_pinging = false }, [])

-- `get_ip_from_host` leaves the array alone where it does not find the name.
abbrev pub resolved : Option Bytes → Bytes → Bytes
resolved none old = old
resolved (some ip) old = ip

-- `gethostbyname` and `Inet_ntop` are not in the repository: they are the parameter.
module _ (host_ip : Bytes → Option Bytes) where
  -- The loop over the arguments from place `i` on; `none` is a place past the array.
  unfoldable pub fill_route : List Bytes → ℕ → List Bytes → Option (List Bytes)
  fill_route [] i ips = some ips
  fill_route (host ∷ hosts) i ips = elim (get_elem? ips i) [
    | none ↦ none
    | some old ↦ fill_route hosts (i + 1) (set ips i (resolved (host_ip host) old))
  ]

  -- The arguments behind the name of the program; this host comes first.
  unfoldable pub populate_route : List Bytes → Tour → Option (Tour × List Out)
  populate_route hosts s = elim (fill_route (s.src_vm ∷ hosts) 0 s.route_el.ip_addr) [
    | none ↦ none
    | some ips ↦
        let s' : Tour = record s {
          route_el = record {
            ip_addr = ips;
            index = s.route_el.index + 1;
            total_size = length hosts + 1;
          };
        } in
        Option.map (λ out. (s', out ∷ [])) (send_rt s')
  ]
