-- ===== src/Odr/Neighbours/Ends.antt =====
-- What the two ends of an exchange do with its frames.
use network_programming.Base.{
  ℕ, false, some, [], ◌∷◌, replicate, find_index, ◌==◌, if◌then◌else◌, Bytes, text, str_eq,
  str_eq_refl, str_eq_comm, Bool-cases, ltb, inl, inr, ◌≡◌, ◌≢◌, refl, sym, ◌∙◌,
}
use network_programming.Odr.Types.{
  PeerInfo, ServerDetails, FrameHead, rrep, rreq, payload_req, payload_resp, Frame, Out, frame,
  zero_buf,
}
use network_programming.Odr.Table.{init_routing_table}
use network_programming.Odr.Buffer.{push_data_to_buf, init_buffer, awaits}
use network_programming.Odr.Send.{populate_frame_header, send_packet, b_mac}
use network_programming.Odr.Local.{ip_to_vm, get_data_from_server}
use network_programming.Odr.Process.{
  Node, learn_source, on_rreq, on_rrep, send_to_client, serve_request, deliver_response,
  at_destination, on_payload, dispatch, process_frame,
}
use network_programming.Odr.Loop.{boot, ask_through, ask_all, on_request}
use network_programming.Odr.Neighbours.First.{
  known, is_mine_self, learns_first, payload-flood, payload-known, rrep-known,
}

-- A frame out of interface `i`.
abbrev pub out_of : ServerDetails → Bytes → FrameHead → Frame
out_of i to h = record { dest_mac = to; src_mac = i.mac; if_index = i.index; header = h }

-- The headers of the four frames.
module _ (a b : Bytes) (flag : ℕ) where
  abbrev pub request : ℕ → FrameHead
  request h = populate_frame_header a b h 2 rreq flag

  abbrev pub reply : ℕ → FrameHead
  reply k = populate_frame_header b a k 2 rrep 0

abbrev pub ask : Bytes → Bytes → ℕ → ℕ → FrameHead
ask a b hops bid = record (populate_frame_header a b hops bid payload_req 0) { msg = text " " }

abbrev pub response : Bytes → Bytes → Bytes → ℕ → ℕ → FrameHead
response a b msg hops bid = record (populate_frame_header b a hops bid payload_resp 0) { msg = msg }

-- The client's host `a`, and the host `b` of the server that it asks.
module _ (a b : ServerDetails) (host_a host_b : Bytes) (p : PeerInfo) (now : ℕ) where
  -- The node of `a` behind the request of its client.
  abbrev pub asked : Node
  asked = record (boot (a ∷ []) host_a) {
    broadcast_id = 2;
    packet_counter = 1;
    buffer = record { peer_info = p; count = 1 } ∷ replicate 99 zero_buf;
  }

  -- The node of `b` behind a route request, and that of `a` behind a route reply.
  abbrev pub b_knows : ℕ → Bytes → Node
  b_knows h mac = record (boot (b ∷ []) host_b) {
    table = known (request a.ip b.ip p.flag h) mac now;
  }

  abbrev pub a_knows : ℕ → Bytes → Node
  a_knows k mac = record asked { table = known (reply a.ip b.ip p.flag k) mac now }

  -- What the time server of `b` is sent.
  abbrev pub to_server : ℕ → ℕ → PeerInfo → Out
  to_server hops bid answer =
      (get_data_from_server host_b (ask a.ip b.ip hops bid) (ip_to_vm a.ip) answer 0).0

  module _ (a_set : a.ip ≢ []) (b_set : b.ip ≢ []) (differ : str_eq a.ip b.ip ≡ false) where
    same_table :
        (if p.flag == 1 then init_routing_table else init_routing_table) ≡ init_routing_table
    same_table = elim (Bool-cases (p.flag == 1)) [ inl e ↦ rw e refl | inr e ↦ rw e refl ]

    pub asks :
        p.dest_ip ≡ b.ip
        → on_request p (boot (a ∷ []) host_a)
          ≡ some (asked, frame (out_of a b_mac (request a.ip b.ip p.flag 1)) ∷ [])
    unfolding on_request ask_all ask_through boot push_data_to_buf init_buffer send_packet
    asks e =
        let f =
          payload-flood a 2 a.ip p.dest_ip payload_req (text " ") p.flag (λ n. b_set (sym e ∙ n)) in
        rw (on_request, ask_all, ask_through, same_table, f, e) refl

    pub replies :
        (h : ℕ) (i : ServerDetails) (x : PeerInfo)
        → process_frame (out_of i b_mac (request a.ip b.ip p.flag h)) now x (boot (b ∷ []) host_b)
          ≡ some (b_knows h i.mac, frame (out_of b i.mac (reply a.ip b.ip p.flag 1)) ∷ [])
    unfolding process_frame dispatch on_rreq send_packet boot populate_frame_header
    replies h i x =
        let g = request a.ip b.ip p.flag h in
        rw
          (
            process_frame,
            learns_first b (boot (b ∷ []) host_b) refl g i.mac now refl refl a_set
                (str_eq_comm b.ip a.ip ∙ differ),
          )
          (rw (on_rreq, is_mine_self b, rrep-known b g i.mac now 2 1 b.ip) refl)

    pub requests_time :
        (k : ℕ) (j : ServerDetails) (to : Bytes) (x : PeerInfo)
        → process_frame (out_of j to (reply a.ip b.ip p.flag k)) now x asked
          ≡ some (a_knows k j.mac, frame (out_of a j.mac (ask a.ip b.ip k 2)) ∷ [])
    unfolding process_frame dispatch on_rrep send_packet boot populate_frame_header
    requests_time k j to x =
        let g = reply a.ip b.ip p.flag k in
        rw (process_frame, learns_first a asked refl g j.mac now refl refl b_set differ)
          (rw (on_rrep, is_mine_self a, payload-known a g j.mac now 2 a.ip payload_req (text " ") 0)
            refl)

    pub serves :
        (h : ℕ) (mac : Bytes) (hops bid : ℕ) (i : ServerDetails) (to : Bytes) (answer : PeerInfo)
        → process_frame (out_of i to (ask a.ip b.ip hops bid)) now answer (b_knows h mac)
          ≡ some (
            record (b_knows h mac) { server_bid = if ltb 0 bid then bid else 0 },
            to_server hops bid answer
                ∷ frame (out_of b mac (response a.ip b.ip answer.msg h 1))
                ∷ [],
          )
    unfolding process_frame learn_source dispatch on_payload at_destination serve_request
        get_data_from_server send_packet boot populate_frame_header
    serves h mac hops bid i to answer =
        rw
          (
            process_frame,
            learn_source,
            dispatch,
            on_payload,
            is_mine_self b,
            serve_request,
            payload-known b (request a.ip b.ip p.flag h) mac now 1 b.ip payload_resp answer.msg 0,
          )
          refl

    pub answers :
        (k : ℕ) (mac : Bytes) (hops bid : ℕ) (j : ServerDetails) (to : Bytes) (x : PeerInfo)
        (time : Bytes)
        → p.dest_ip ≡ b.ip
        → process_frame (out_of j to (response a.ip b.ip time hops bid)) now x (a_knows k mac)
          ≡ some (
            record (a_knows k mac) {
              buffer = record { peer_info = p; count = 0 } ∷ replicate 99 zero_buf;
            },
            send_to_client host_a time p ∷ [],
          )
    unfolding process_frame learn_source dispatch on_payload at_destination deliver_response boot
        populate_frame_header
    answers k mac hops bid j to x time e =
        let found : find_index (awaits b.ip) asked.buffer ≡ some 0 =
          rw (e, str_eq_refl b.ip) refl in
        rw
          (
            process_frame,
            learn_source,
            dispatch,
            on_payload,
            is_mine_self a,
            deliver_response,
            found,
          )
          refl
