-- ===== src/Tests/Arp.antt =====
-- Three hosts with the address resolution of hw4.
use network_programming.Base.{
  ℕ, none, some, List, [], ◌∷◌, ◌++◌, Bytes, text, replicate, str_eq, ◌≡◌, ◌≢◌, refl, inl, inr,
  arith, if◌then◌else◌,
}
use network_programming.Arp.Types.{
  ServerDetails, HwAddr, ArpReqReply, Out, reply, close, Arp, zero_details, zero_entry, no_fd,
}
use network_programming.Arp.Cache.{
  entry_of, insert_into_cache, update_response_in_cache, update_cache_entry, learned, send_reply,
}
use network_programming.Arp.Cache.Lookup.{IsPacked, lookup, lookup-insert}
use network_programming.Arp.Process.{
  b_mac, prepare_arp_req_reply, send_packet, handle_client, send_req, handle_request,
  handle_response, answer_packet, process_frame, boot_cache, take_source,
}
use network_programming.Arp.Process.Resolve.{request_for, pending}
use network_programming.Arp.Process.Network.{resolution}
use network_programming.Arp.Areq.{areq, heard, zero_hwaddr, areq-answer, areq_misled}
use network_programming.Arp.Loop.{Event, packet, client, boot, step, run}
use network_programming.Arp.Loop.Reach.{run-IsPacked}

abbrev ip_a : Bytes
ip_a = text "130.245.156.21"

abbrev ip_b : Bytes
ip_b = text "130.245.156.22"

abbrev mac_a : Bytes
mac_a = 2 ∷ 1 ∷ 1 ∷ 1 ∷ 1 ∷ 10 ∷ []

abbrev mac_b : Bytes
mac_b = 2 ∷ 1 ∷ 1 ∷ 1 ∷ 1 ∷ 11 ∷ []

-- A host with its own address in a cache of three entries.
abbrev host : Bytes → Bytes → Arp
host ip mac = record {
  src_mac = mac;
  src_ip = ip;
  src_ifindex = some 2;
  cache =
      record { ip = ip; mac = mac; index = 2; fd = 0; filled = 1 } ∷ zero_entry ∷ zero_entry ∷ [];
  proto = 77;
}

abbrev a : Arp
a = host ip_a mac_a

abbrev b : Arp
b = host ip_b mac_b

host-IsPacked : (ip mac : Bytes) → IsPacked (host ip mac).cache
host-IsPacked ip mac = inl (refl, inr ((refl, refl), ((refl, refl), tt)))

-- Host `a` while a client on descriptor 9 waits for the address of `b`.
abbrev a_waits : Arp
a_waits = record a {
  cache =
      record { ip = ip_a; mac = mac_a; index = 2; fd = 0; filled = 1 }
      ∷ pending ip_b 9
      ∷ zero_entry
      ∷ [];
}

abbrev broadcast : List Out
broadcast = send_packet b_mac mac_a (some 2) (request_for ip_b a) ∷ []

abbrev answer : ArpReqReply
answer = answer_packet (request_for ip_b a) b

asks : handle_client 9 ip_b a ≡ some (a_waits, broadcast)
unfolding handle_client send_req insert_into_cache send_reply str_eq
asks = refl

abbrev b_knows : Arp
b_knows = record b {
  cache =
      record { ip = ip_b; mac = mac_b; index = 2; fd = 0; filled = 1 }
      ∷ entry_of (record zero_details { ip = ip_a; mac = mac_a }) no_fd
      ∷ zero_entry
      ∷ [];
}

answers :
    process_frame (request_for ip_b a) b
    ≡ some (b_knows, send_packet mac_a mac_b (some 2) answer ∷ [])
unfolding process_frame handle_request insert_into_cache str_eq prepare_arp_req_reply answer_packet
answers = refl

unknown_b : lookup ip_b a.cache ≡ none
unfolding str_eq
unknown_b = refl

ip_b-ne-nil : ip_b ≢ []
ip_b-ne-nil e = cc

resolution_example :
    (broadcast ≡ send_packet b_mac a.src_mac a.src_ifindex (request_for b.src_ip a) ∷ [])
    × (send_packet mac_a mac_b (some 2) answer ∷ []
        ≡ send_packet a.src_mac b.src_mac b.src_ifindex (answer_packet (request_for b.src_ip a) b)
          ∷ [])
    × ((h : HwAddr) × ((handle_response answer a_waits).1 ≡ reply 9 h ∷ close 9 ∷ [])
        × (h.sll_addr ≡ b.src_mac ++ (0 ∷ 0 ∷ [])))
    × (lookup a.src_ip b_knows.cache
        ≡ some (entry_of (record zero_details { ip = a.src_ip; mac = a.src_mac }) no_fd))
unfolding process_frame str_eq prepare_arp_req_reply answer_packet
resolution_example =
    resolution 9 a b a_waits b_knows (handle_response answer a_waits).0 (host-IsPacked ip_a mac_a)
      (host-IsPacked ip_b mac_b) unknown_b (omega arith) ip_b-ne-nil asks answers refl

-- Host `b` asks for `a` while the client of `a` waits for `b`.
abbrev crossing : ArpReqReply
crossing = request_for ip_a b

abbrev a_forgot : Arp
a_forgot = record a {
  cache =
      record { ip = ip_a; mac = mac_a; index = 2; fd = 0; filled = 1 }
      ∷ entry_of (record zero_details { ip = ip_b; mac = mac_b }) no_fd
      ∷ zero_entry
      ∷ [];
}

lookup-insert_example :
    lookup ip_b a_waits.cache
    ≡ (if str_eq ip_b ip_b then some (pending ip_b 9) else lookup ip_b a.cache)
unfolding insert_into_cache str_eq
lookup-insert_example =
    lookup-insert a.cache (record zero_details { ip = ip_b }) 9 ip_b (host-IsPacked ip_a mac_a) refl

-- From boot, with one interface: a client asks, and the answer comes.
abbrev session : List Event
session = client 9 ip_b ∷ packet answer ∷ []

abbrev interfaces : List ServerDetails
interfaces = record { ip = ip_a; mac = mac_a; index = 2 } ∷ []

abbrev booted : Arp
booted = record {
  src_mac = mac_a;
  src_ip = ip_a;
  src_ifindex = some 2;
  cache = entry_of (record { ip = ip_a; mac = mac_a; index = 2 }) no_fd ∷ replicate 39 zero_entry;
  proto = 77;
}

abbrev after_session : Arp
after_session = record booted {
  cache =
      entry_of (record { ip = ip_a; mac = mac_a; index = 2 }) no_fd
      ∷ record (learned answer (pending ip_b 9)) { fd = 0 }
      ∷ replicate 38 zero_entry;
}

boots : boot interfaces 77 ≡ some booted
unfolding boot boot_cache take_source insert_into_cache
boots = refl

session_runs :
    run session booted ≡ some (after_session, broadcast ++ (handle_response answer a_waits).1)
unfolding run step handle_client process_frame send_req insert_into_cache send_reply handle_response
    update_response_in_cache update_cache_entry str_eq answer_packet prepare_arp_req_reply
    network_programming.Arp.Cache.answer_entry
session_runs = refl

sender_named : answer.sender_ip ≢ []
unfolding answer_packet
sender_named e = cc

run-IsPacked_example : IsPacked after_session.cache
run-IsPacked_example =
    run-IsPacked interfaces 77 session booted after_session (tt, (sender_named, tt)) boots
      session_runs

areq-answer_example :
    (h : HwAddr) × (areq (heard 9 (handle_response answer a_waits).1) ≡ (h, 0))
    × (h.sll_addr ≡ answer.sender_eth ++ (0 ∷ 0 ∷ []))
unfolding answer_packet
areq-answer_example =
    areq-answer 9 ip_b answer a (host-IsPacked ip_a mac_a) unknown_b (omega arith) ip_b-ne-nil refl
      asks

abbrev second : ℕ
second = 12

abbrev first : ℕ
first = 9

other : second ≢ first
other e = absurd (omega arith)

areq_misled_example :
    (s'' : Arp) × (outs : List Out) × (h : HwAddr) × (handle_client 12 ip_b a_waits
      ≡ some (s'', outs))
    × (areq (heard 9 outs) ≡ (zero_hwaddr, 0))
    × (areq (heard 12 outs) ≡ (h, 0))
    × (h.sll_addr ≡ replicate 8 0)
areq_misled_example =
    areq_misled 9 12 ip_b a (host-IsPacked ip_a mac_a) unknown_b (omega arith) other asks
