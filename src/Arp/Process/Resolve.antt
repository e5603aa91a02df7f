-- ===== src/Arp/Process/Resolve.antt =====
-- The resolution of an address: a client asks, the request is broadcast, and the answer of its owner
-- reaches the client. And two orders of events in which a client is told a wrong address or nothing.
use network_programming.Base.{
  ℕ, ◌<◌, true, none, some, List, [], ◌∷◌, ◌++◌, replace_first, Bytes, c_string, str_eq,
  str_eq_refl, ◌≡◌, ◌≢◌, refl, ◌∙◌, arith, Option-cases, inl, inr,
}
use network_programming.Arp.Types.{
  Entry, HwAddr, ArpReqReply, Out, reply, close, Arp, zero_details, zero_mac, no_fd,
}
use network_programming.Arp.Cache.{
  stops_at, entry_of, insert_into_cache, answer_entry, hwaddr_of, learned,
}
use network_programming.Arp.Cache.Lookup.{
  IsPacked, lookup, lookup-insert, send_reply-lookup, IsPacked-replace_first, insert_cases,
}
use network_programming.Arp.Cache.Learn.{learn_list, update_response-learn_list, lookup-learn}
use network_programming.Arp.Process.{
  identification, b_mac, send_packet, prepare_arp_req_reply, send_req, handle_client,
  handle_response, answer_packet, handle_request, process_frame,
}

-- The entry that a request for `ip` leaves while the client on `fd` waits.
abbrev pub pending : Bytes → ℕ → Entry
pending ip fd = entry_of (record zero_details { ip = ip }) fd

-- The request that is broadcast.
abbrev pub request_for : Bytes → Arp → ArpReqReply
request_for ip s = record (prepare_arp_req_reply s 1) { target_ip = ip }

-- A client that asks for an address that is not held: it is not answered, an entry waits for it, and
-- one request is broadcast.
pub handle_client-unknown :
    (fd : ℕ) (ip : Bytes) (s : Arp) {s' : Arp} {outs : List Out}
    → lookup ip s.cache ≡ none
    → handle_client fd ip s ≡ some (s', outs)
    → (insert_into_cache s.cache (record zero_details { ip = ip }) fd ≡ some s'.cache)
      × (s' ≡ record s { cache = s'.cache })
      × (outs ≡ send_packet b_mac s.src_mac s.src_ifindex (request_for ip s) ∷ [])
unfolding handle_client send_req
handle_client-unknown fd ip s n h =
    elim (Option-cases (insert_into_cache s.cache (record zero_details { ip = ip }) fd)) [
      | inl m ↦ absurd (ground (arith, send_reply-lookup s.cache ip (some fd)))
      | inr (c, m) ↦ ground (arith, send_reply-lookup s.cache ip (some fd))
    ]

-- A response of an address for which the client on `fd` waits.
pub handle_response-pending :
    (p : ArpReqReply) (s : Arp) (e : Entry)
    → IsPacked s.cache
    → p.sender_ip ≢ []
    → lookup p.sender_ip s.cache ≡ some e
    → (handle_response p s).1 ≡ answer_entry (learned p e) none
unfolding handle_response
handle_response-pending p s e k n h = ground (
  arith,
  send_reply-lookup (learn_list p s.cache) p.sender_ip none,
  update_response-learn_list p s.cache,
  lookup-learn p p.sender_ip s.cache n k,
  str_eq_refl p.sender_ip,
)

lookup-asked :
    (fd : ℕ) (ip : Bytes) (s : Arp) {s' : Arp} {outs : List Out}
    → IsPacked s.cache
    → lookup ip s.cache ≡ none
    → handle_client fd ip s ≡ some (s', outs)
    → lookup ip s'.cache ≡ some (pending ip fd)
lookup-asked fd ip s {s'} k n h =
    let (c, _, _) = handle_client-unknown fd ip s n h in
    ground
      (arith, lookup-insert s.cache (record zero_details { ip = ip }) fd ip k c, str_eq_refl ip)

IsPacked-asked :
    (fd : ℕ) (ip : Bytes) (s : Arp) {s' : Arp} {outs : List Out}
    → IsPacked s.cache
    → lookup ip s.cache ≡ none
    → handle_client fd ip s ≡ some (s', outs)
    → IsPacked s'.cache
IsPacked-asked fd ip s k n h =
    let (c, _, _) = handle_client-unknown fd ip s n h in
    rw (insert_cases s.cache (record zero_details { ip = ip }) fd c).1
      (IsPacked-replace_first ip (pending ip fd) s.cache k refl)

-- A client asks on `fd` for an address that is not held, and the next event is a response of that
-- address: the client receives the sender's Ethernet address, with two bytes of padding and the
-- interface 2, and its connection is closed.
pub ask-answer :
    (fd : ℕ) (ip : Bytes) (p : ArpReqReply) (s : Arp) {s' : Arp} {outs : List Out}
    → IsPacked s.cache
    → lookup ip s.cache ≡ none
    → 0 < fd
    → ip ≢ []
    → p.sender_ip ≡ ip
    → handle_client fd ip s ≡ some (s', outs)
    → (a : HwAddr) × ((handle_response p s').1 ≡ reply fd a ∷ close fd ∷ [])
      × (a.sll_addr ≡ p.sender_eth ++ (0 ∷ 0 ∷ []))
      × (a.sll_ifindex ≡ 2)
unfolding answer_entry hwaddr_of
ask-answer fd ip p s {s'} k n pos ne q h =
    let r =
      handle_response-pending p s' (pending ip fd) (IsPacked-asked fd ip s k n h) (rw q ne)
        (rw q (lookup-asked fd ip s k n h)) in
    (hwaddr_of (learned p (pending ip fd)), r ∙ ground arith, refl, refl)

-- While a client waits for an address, a second client that asks for it is told the address of six
-- zero bytes at once, and the first client's connection is closed with no answer.
pub second_client_misled :
    (fd other : ℕ) (ip : Bytes) (s : Arp) {s' : Arp} {outs : List Out}
    → IsPacked s.cache
    → lookup ip s.cache ≡ none
    → 0 < fd
    → handle_client fd ip s ≡ some (s', outs)
    → (s'' : Arp) × (a : HwAddr) × (handle_client other ip s'
        ≡ some (s'', reply other a ∷ close fd ∷ []))
      × (a.sll_addr ≡ zero_mac ++ (0 ∷ 0 ∷ []))
      × (a.sll_halen ≡ 0)
unfolding handle_client answer_entry hwaddr_of c_string
second_client_misled fd other ip s {s'} k n pos h = (
  record s' {
    cache = replace_first (stops_at ip) (record (pending ip fd) { fd = no_fd }) s'.cache;
  },
  hwaddr_of (pending ip fd),
  ground (arith, send_reply-lookup s'.cache ip (some other), lookup-asked fd ip s k n h),
  refl,
  refl,
)

-- A request of another host for this one is answered, and its sender is then held with no client
-- that waits, whatever was held of it before.
pub handle_request-lookup :
    (p : ArpReqReply) (s : Arp) {s' : Arp} {outs : List Out}
    → IsPacked s.cache
    → str_eq s.src_ip p.target_ip ≡ true
    → handle_request p s ≡ some (s', outs)
    → (lookup p.sender_ip s'.cache
        ≡ some (entry_of (record zero_details { ip = p.sender_ip; mac = p.sender_eth }) no_fd))
      × IsPacked s'.cache
      × (outs ≡ send_packet p.sender_eth s.src_mac s.src_ifindex (answer_packet p s) ∷ [])
      × (s' ≡ record s { cache = s'.cache })
unfolding handle_request answer_packet
handle_request-lookup p s {s'} k t h =
    let d = record zero_details { ip = p.sender_ip; mac = p.sender_eth } in
    elim (Option-cases (insert_into_cache s.cache d no_fd)) [
      | inl m ↦ absurd (ground arith)
      | inr (c, m) ↦
          let q : s'.cache ≡ c = ground arith in
          (
            ground (arith, lookup-insert s.cache d no_fd p.sender_ip k m, str_eq_refl p.sender_ip),
            rw (q, (insert_cases s.cache d no_fd m).1)
                (IsPacked-replace_first p.sender_ip (entry_of d no_fd) s.cache k refl),
            ground arith,
            ground arith,
          )
    ]

pub process_frame-request :
    (p : ArpReqReply) (s : Arp)
    → str_eq p.identification identification ≡ true
    → p.op ≡ 1
    → process_frame p s ≡ handle_request p s
unfolding process_frame
process_frame-request p s i o = ground arith

pub process_frame-response :
    (p : ArpReqReply) (s : Arp)
    → str_eq p.identification identification ≡ true
    → p.op ≡ 2
    → process_frame p s ≡ some (handle_response p s)
unfolding process_frame
process_frame-response p s i o = ground arith
