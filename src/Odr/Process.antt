-- ===== src/Odr/Process.antt =====
-- `process_frame` of hw3/odr.c: what a node does with a frame from the packet socket.
pub mod Learning
pub mod Flood
pub mod Replies
pub mod Waiting
use network_programming.Base.{
  ℕ, ◌+◌, Bool, true, false, not, ◌&&◌, Option, none, some, List, [], ◌∷◌, ◌++◌, set, get_elem?,
  find_index, if◌then◌else◌, Bytes, str_eq, text, is_some,
}
use mathlib.Core.Option
use network_programming.Odr.Types.{
  PeerInfo, ServerDetails, ServerBuf, FrameHead, DataType, rrep, rreq, payload_req, payload_resp,
  is_payload, Table, Frame, Out,
}
use network_programming.Odr.Table.{get_row_entry, row_at, should_update_rt, update_routing_table}
use network_programming.Odr.Buffer.{awaits, vacate}
use network_programming.Odr.Send.{send_rreq, send_rrep, send_payload, msg_send}
use network_programming.Odr.Local.{ip_to_vm, get_data_from_server}

-- The globals of odr.c, the static of `get_data_from_server`, and the name of the host.
pub record Node : Type 0 where
  pub serv : List ServerDetails
  pub table : Table
  pub buffer : List ServerBuf
  pub broadcast_id : ℕ
  pub packet_counter : ℕ
  pub server_bid : ℕ
  pub hostname : Bytes

-- The loop goes on after a match: the last one counts.
unfoldable pub source_ip_cmp_from : Bytes → List ServerDetails → ℕ → Option ℕ → Option ℕ
source_ip_cmp_from ip [] i found = found
source_ip_cmp_from ip (s ∷ serv) i found =
    source_ip_cmp_from ip serv (i + 1) (if str_eq s.ip ip then some i else found)

unfoldable pub source_ip_cmp : Bytes → List ServerDetails → Option ℕ
source_ip_cmp ip serv = source_ip_cmp_from ip serv 0 none

abbrev pub is_mine : Bytes → List ServerDetails → Bool
is_mine ip serv = is_some (source_ip_cmp ip serv)

-- The first part: the table learns from an RREQ or RREP of another node. The flag is `update`.
unfoldable pub learn_source : FrameHead → Bytes → ℕ → Node → Option (Table × Bool)
learn_source header src_mac now s =
    if not (is_payload header.kind)
      && (should_update_rt s.table header && not (is_mine header.src_ip s.serv))
    then Option.map (λ t. (t, true)) (update_routing_table s.table header src_mac now)
    else some (s.table, false)

unfoldable pub on_rreq : FrameHead → Bool → Node → Option (List Out)
on_rreq header update s =
    let known = is_some (get_row_entry s.table header.dest_ip) in
    let mine = is_mine header.dest_ip s.serv in
    let forwards =
      if not mine && (not known && update)
      then send_rreq s.serv header.bc_id (header.hop_count + 1) header.src_ip header.dest_ip
          header.force_flag
      else [] in
    let replies =
      if mine
      then send_rrep s.table s.serv header.bc_id 1 header.src_ip header.dest_ip
      else if known
      then send_rrep s.table s.serv header.bc_id 1 header.src_ip header.dest_ip
      else some [] in
    Option.map (λ outs. forwards ++ outs) replies

unfoldable pub on_rrep : FrameHead → Node → Option (List Out)
on_rrep header s =
    if is_mine header.dest_ip s.serv
    then some (
        send_payload s.table s.serv s.broadcast_id header.dest_ip header.src_ip payload_req
          (text " ") 0)
    else send_rrep s.table s.serv header.bc_id (header.hop_count + 1) header.dest_ip header.src_ip

unfoldable pub send_to_client : Bytes → Bytes → PeerInfo → Out
send_to_client hostname msg p =
    msg_send hostname (text "dst_ip") (text "dst_port") (text "srcip") (text "srcport") msg 0
      p.src_port

-- A request at its destination: the local server is asked, and `answer` comes back.
unfoldable pub serve_request : FrameHead → PeerInfo → Node → Node × List Out
serve_request header answer s =
    let (asked, filled, bid) =
      get_data_from_server s.hostname header (ip_to_vm header.src_ip) answer s.server_bid in
    (
      record s { server_bid = bid },
      asked
          ∷ send_payload s.table s.serv s.broadcast_id header.dest_ip header.src_ip payload_resp
              filled.msg 0,
    )

-- The entry of the buffer at an index that the search has found.
answer_at : FrameHead → Node → ℕ → Node × List Out
answer_at header s i = elim (get_elem? s.buffer i) [
  | none ↦ (s, [])
  | some b ↦ (
    record s { buffer = set s.buffer i (vacate b) },
    send_to_client s.hostname header.msg b.peer_info ∷ [],
  )
]

-- A response at its destination: the first request that waits for its source is answered.
unfoldable pub deliver_response : FrameHead → Node → Node × List Out
unfolding answer_at
deliver_response header s = elim (find_index (awaits header.src_ip) s.buffer) [
  | none ↦ (s, [])
  | some i ↦ answer_at header s i
]

unfoldable pub at_destination : DataType → FrameHead → PeerInfo → Node → Node × List Out
at_destination payload_req header answer s = serve_request header answer s
at_destination _ header answer s = deliver_response header s

unfoldable pub on_payload : FrameHead → PeerInfo → Node → Node × List Out
on_payload header answer s =
    if is_mine header.dest_ip s.serv
    then at_destination header.kind header answer s
    else if is_some (get_row_entry s.table header.dest_ip)
    then (
      s,
      send_payload s.table s.serv s.broadcast_id header.src_ip header.dest_ip header.kind header.msg
          0,
    )
    else (s, [])

-- The dispatch on the type, after the table has learned.
unfoldable pub dispatch : DataType → FrameHead → Bool → PeerInfo → Node → Option (Node × List Out)
dispatch rreq header update answer s = Option.map (λ outs. (s, outs)) (on_rreq header update s)
dispatch rrep header update answer s = Option.map (λ outs. (s, outs)) (on_rrep header s)
dispatch payload_req header update answer s = some (on_payload header answer s)
dispatch payload_resp header update answer s = some (on_payload header answer s)

-- `none`: the code has read or written outside the routing table.
unfoldable pub process_frame : Frame → ℕ → PeerInfo → Node → Option (Node × List Out)
process_frame f now answer s = elim (learn_source f.header f.src_mac now s) [
  | none ↦ none
  | some (t, update) ↦ dispatch f.header.kind f.header update answer (record s { table = t })
]
