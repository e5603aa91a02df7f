-- ===== src/Odr/Neighbours.antt =====
-- Two hosts on one link, from the request of a client for the time to its answer.
pub mod First
pub mod Ends
use network_programming.Base.{
  ℕ, zero, suc, true, false, none, some, [], ◌∷◌, replicate, find_index, ◌==◌, if◌then◌else◌, Bytes,
  text, str_eq, str_eq_refl, str_eq_comm, Bool-cases, inl, inr, ◌≡◌, ◌≢◌, refl, sym, ◌∙◌,
}
use network_programming.Odr.Types.{
  PeerInfo, ServerDetails, FrameHead, DataType, rrep, rreq, payload_req, payload_resp, Table, Frame,
  Out, is_payload, frame, zero_row, zero_buf,
}
use network_programming.Odr.Table.{
  leads_to, get_row_entry, fill_row, should_update_rt, update_routing_table, init_routing_table,
}
use network_programming.Odr.Buffer.{push_data_to_buf, init_buffer, awaits}
use network_programming.Odr.Send.{
  populate_frame_header, send_packet, send_all, send_rreq, send_rrep, send_along, send_payload,
  flood, b_mac,
}
use network_programming.Odr.Local.{ip_to_vm, get_data_from_server}
use network_programming.Odr.Process.{
  Node, is_mine, source_ip_cmp, source_ip_cmp_from, learn_source, on_rreq, on_rrep, send_to_client,
  serve_request, deliver_response, at_destination, on_payload, dispatch, process_frame,
}
use network_programming.Odr.Loop.{boot, ask_through, ask_all, on_request}
use network_programming.Odr.Neighbours.Ends.{
  asked, a_knows, b_knows, asks, replies, requests_time, serves, answers,
}

-- The frames of an exchange between the hosts `a` and `b`, and the states between them.
module _ (a b : ServerDetails) (host_a host_b : Bytes) (p : PeerInfo) (now_a now_b : ℕ) where
  abbrev pub route_request : FrameHead
  route_request = populate_frame_header a.ip b.ip 1 2 rreq p.flag

  abbrev pub route_reply : FrameHead
  route_reply = populate_frame_header b.ip a.ip 1 2 rrep 0

  abbrev pub ask_header : FrameHead
  ask_header = record (populate_frame_header a.ip b.ip 1 2 payload_req 0) { msg = text " " }

  abbrev pub answer_header : Bytes → FrameHead
  answer_header time = record (populate_frame_header b.ip a.ip 1 1 payload_resp 0) { msg = time }

  abbrev pub from_a : Bytes → FrameHead → Frame
  from_a to h = record { dest_mac = to; src_mac = a.mac; if_index = a.index; header = h }

  abbrev pub from_b : FrameHead → Frame
  from_b h = record { dest_mac = a.mac; src_mac = b.mac; if_index = b.index; header = h }

  -- What the time server of `b` is sent.
  abbrev pub to_server : PeerInfo → Out
  to_server answer = (get_data_from_server host_b ask_header (ip_to_vm a.ip) answer 0).0

  -- The steps of the two processes, in their order, with what each of them sends.
  abbrev pub Exchange : PeerInfo → Type 0
  Exchange answer =
      (a₁ a₂ a₃ b₁ b₂ : Node) × (on_request p (boot (a ∷ []) host_a)
        ≡ some (a₁, frame (from_a b_mac route_request) ∷ []))
      × (process_frame (from_a b_mac route_request) now_b answer (boot (b ∷ []) host_b)
          ≡ some (b₁, frame (from_b route_reply) ∷ []))
      × (process_frame (from_b route_reply) now_a answer a₁
          ≡ some (a₂, frame (from_a b.mac ask_header) ∷ []))
      × (process_frame (from_a b.mac ask_header) now_b answer b₁
          ≡ some (b₂, to_server answer ∷ frame (from_b (answer_header answer.msg)) ∷ []))
      × (process_frame (from_b (answer_header answer.msg)) now_a answer a₂
          ≡ some (a₃, send_to_client host_a answer.msg p ∷ []))

  module _ (a_set : a.ip ≢ []) (b_set : b.ip ≢ []) (differ : str_eq a.ip b.ip ≡ false) where
    -- Two hosts `a` and `b` on one link, each with one interface and just started, with distinct IP
    -- addresses that are not empty, and no frame lost: when a client of `a` asks for the time of `b`, its
    -- process broadcasts a route request, that of `b` sends `a` a route reply, that of `a` sends `b` the
    -- request, and that of `b`, after it has asked its server, sends `a` the response; then the process
    -- of `a` gives the client the message of the server of `b`.
    pub neighbours-Exchange : (answer : PeerInfo) → p.dest_ip ≡ b.ip → Exchange answer
    neighbours-Exchange answer e = (
      asked a b host_a host_b p now_a,
      a_knows a b host_a host_b p now_a 1 b.mac,
      _,
      b_knows a b host_a host_b p now_b 1 a.mac,
      _,
      asks a b host_a host_b p now_a a_set b_set differ e,
      replies a b host_a host_b p now_b a_set b_set differ 1 a answer,
      requests_time a b host_a host_b p now_a a_set b_set differ 1 b a.mac answer,
      serves a b host_a host_b p now_b a_set b_set differ 1 a.mac 1 2 a b.mac answer,
      answers a b host_a host_b p now_a a_set b_set differ 1 b.mac 1 1 b a.mac answer answer.msg e,
    )
