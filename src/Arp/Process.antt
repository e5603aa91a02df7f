-- ===== src/Arp/Process.antt =====
-- The handlers of arp.c: frames from the packet socket, and clients on the local one.
pub mod Resolve
pub mod Network
use network_programming.Base.{
  ℕ, Bool, true, false, Option, none, some, List, [], ◌∷◌, ◌++◌, ◌==◌, if◌then◌else◌, Bytes, str_eq,
  text, replicate,
}
use mathlib.Core.Option
use network_programming.Arp.Types.{
  ServerDetails, zero_details, zero_mac, zero_entry, ArpReqReply, Frame, Out, frame, Arp, no_fd,
  num_cache_entries, Entry,
}
use network_programming.Arp.Cache.{insert_into_cache, send_reply, update_response_in_cache}

abbrev pub identification : Bytes
identification = text "dk"

abbrev pub b_mac : Bytes
b_mac = replicate 6 0xff

unfoldable pub send_packet : Bytes → Bytes → Option ℕ → ArpReqReply → Out
send_packet dest_mac src_mac if_index p =
    frame (record { dest_mac = dest_mac; src_mac = src_mac; if_index = if_index; body = p })

unfoldable pub prepare_arp_req_reply : Arp → ℕ → ArpReqReply
prepare_arp_req_reply s op = record {
  eth_dest = zero_mac;
  eth_src = s.src_mac;
  frame_type = 0x0806;
  hard_type = 1;
  prot_type = s.proto;
  hard_size = 6;
  prot_size = 2;
  op = op;
  sender_eth = s.src_mac;
  sender_ip = s.src_ip;
  target_eth = zero_mac;
  target_ip = [];
  identification = identification;
}

-- An entry with no address yet, and the request.
unfoldable pub send_req : Bytes → ℕ → Arp → Option (Arp × List Out)
send_req target_ip waiting_fd s =
    Option.map
      (λ c. (
        record s { cache = c },
        send_packet b_mac s.src_mac s.src_ifindex
              (record (prepare_arp_req_reply s 1) { target_ip = target_ip })
            ∷ [],
      ))
      (insert_into_cache s.cache (record zero_details { ip = target_ip }) waiting_fd)

-- A client has connected and asks for `buf`.
unfoldable pub handle_client : ℕ → Bytes → Arp → Option (Arp × List Out)
handle_client connfd buf s = elim (send_reply s.cache buf (some connfd)) [
  | some (c, outs) ↦ some (record s { cache = c }, outs)
  | none ↦ send_req buf connfd s
]

-- The result of `send_reply` is not looked at.
unfoldable pub handle_response : ArpReqReply → Arp → Arp × List Out
handle_response p s =
    let (c, _) = update_response_in_cache s.cache p in
    elim (send_reply c p.sender_ip none) [
      | some (c', outs) ↦ (record s { cache = c' }, outs)
      | none ↦ (record s { cache = c }, [])
    ]

-- The packet of the answer: the three swaps, and then this host's address over the source fields.
unfoldable pub answer_packet : ArpReqReply → Arp → ArpReqReply
answer_packet p s = record p {
  op = 2;
  eth_dest = p.eth_src;
  eth_src = s.src_mac;
  target_eth = p.sender_eth;
  sender_eth = s.src_mac;
  sender_ip = p.target_ip;
  target_ip = p.sender_ip;
}

unfoldable pub handle_request : ArpReqReply → Arp → Option (Arp × List Out)
handle_request p s =
    if str_eq s.src_ip p.target_ip
    then Option.map
        (λ c. (
          record s { cache = c },
          send_packet (answer_packet p s).target_eth s.src_mac s.src_ifindex (answer_packet p s)
              ∷ [],
        ))
        (insert_into_cache s.cache (record zero_details { ip = p.sender_ip; mac = p.sender_eth })
          no_fd)
    else some (record s { cache = (update_response_in_cache s.cache p).0 }, [])

unfoldable pub process_frame : ArpReqReply → Arp → Option (Arp × List Out)
process_frame p s =
    if str_eq p.identification identification
    then if p.op == 1
      then handle_request p s
      else if p.op == 2
      then some (handle_response p s)
      else some (s, [])
    else some (s, [])

-- The entry of the first interface gives this host its addresses.
unfoldable pub take_source : ServerDetails → Arp → Arp
take_source svd s = elim s.src_ifindex [
  | none ↦ record s { src_mac = svd.mac; src_ifindex = some svd.index; src_ip = svd.ip }
  | some i ↦ s
]

-- Up to the first interface with no address; the list has at most 20.
unfoldable pub boot_cache : List ServerDetails → Arp → Option Arp
boot_cache [] s = some s
boot_cache (svd ∷ rest) s = elim svd.ip [
  | [] ↦ some s
  | c ∷ cs ↦ elim (insert_into_cache s.cache svd no_fd) [
    | none ↦ none
    | some cache ↦ boot_cache rest (record (take_source svd s) { cache = cache })
  ]
]

-- The globals before `boot`.
abbrev pub unbooted : ℕ → Arp
unbooted proto = record {
  src_mac = zero_mac;
  src_ip = [];
  src_ifindex = none;
  cache = replicate num_cache_entries zero_entry;
  proto = proto;
}
