-- ===== src/Odr/Send.antt =====
-- The frames that odr.c sends. A send fails only by printing, so the result is the list of frames,
-- in the order of the calls; `none` is a read outside the routing table.
use network_programming.Base.{ℕ, Option, none, some, List, [], ◌∷◌, ◌++◌, Bytes, take}
use network_programming.Odr.Types.{
  ServerDetails, FrameHead, DataType, rrep, rreq, Row, Table, Out, frame, datagram,
}
use network_programming.Odr.Table.{get_row_entry, row_at}

unfoldable pub populate_frame_header : Bytes → Bytes → ℕ → ℕ → DataType → ℕ → FrameHead
populate_frame_header src_ip dest_ip hops b_id kind force_flag = record {
  src_ip = src_ip;
  dest_ip = dest_ip;
  hop_count = hops;
  bc_id = b_id;
  msg = [];
  force_flag = force_flag;
  kind = kind;
}

-- The frame that is built for the packet socket.
unfoldable pub send_packet : Bytes → Bytes → ℕ → FrameHead → Out
send_packet dest_mac src_mac if_index header =
    frame (record { dest_mac = dest_mac; src_mac = src_mac; if_index = if_index; header = header })

-- The loop over the interfaces: one packet out of each.
unfoldable pub send_all : Bytes → FrameHead → List ServerDetails → List Out
send_all dest_mac header [] = []
send_all dest_mac header (s ∷ serv) =
    send_packet dest_mac s.mac s.index header ∷ send_all dest_mac header serv

abbrev pub b_mac : Bytes
b_mac = 0xff ∷ 0xff ∷ 0xff ∷ 0xff ∷ 0xff ∷ 0xff ∷ []

unfoldable pub send_rreq : List ServerDetails → ℕ → ℕ → Bytes → Bytes → ℕ → List Out
send_rreq serv b_id h_count src_ip dest_ip force_flag =
    send_all b_mac (populate_frame_header src_ip dest_ip h_count b_id rreq force_flag) serv

-- `table.row[t_i]` is read once for each interface, with -1 for the index if there is no row.
unfoldable pub send_along : Option Row → FrameHead → List ServerDetails → Option (List Out)
send_along row header [] = some []
send_along none header (s ∷ serv) = none
send_along (some r) header (s ∷ serv) = some (send_all r.next_hop_mac header (s ∷ serv))

unfoldable pub send_rrep : Table → List ServerDetails → ℕ → ℕ → Bytes → Bytes → Option (List Out)
unfolding send_along
send_rrep t serv b_id h_count dest_ip src_ip =
    send_along (row_at t (get_row_entry t dest_ip))
      (populate_frame_header src_ip dest_ip h_count b_id rrep 0) serv

-- One RREQ flood for each interface, with the interface's own address as the source.
unfoldable pub flood : List ServerDetails → List ServerDetails → ℕ → Bytes → ℕ → List Out
flood serv [] b_id dest_ip force_flag = []
flood serv (s ∷ rest) b_id dest_ip force_flag =
    send_rreq serv b_id 1 s.ip dest_ip force_flag ++ flood serv rest b_id dest_ip force_flag

unfoldable pub send_payload :
    Table → List ServerDetails → ℕ → Bytes → Bytes → DataType → Bytes → ℕ → List Out
unfolding flood
send_payload t serv broadcast_id src_ip dest_ip payload msg force_flag =
    elim (row_at t (get_row_entry t dest_ip)) [
      | none ↦ flood serv serv broadcast_id dest_ip force_flag
      | some r ↦
          send_all r.next_hop_mac
            (record (populate_frame_header src_ip dest_ip r.hop_count broadcast_id payload
              force_flag) { msg = msg })
            serv
    ]

-- A message to a local socket, with the name of this host in it. INET_ADDRSTRLEN is 16 and
-- MAX_VM_NAME_LEN is 10.
unfoldable pub msg_send : Bytes → Bytes → Bytes → Bytes → Bytes → Bytes → ℕ → Bytes → Out
msg_send hostname dest_ip dest_port src_ip src_port msg flag path = datagram path (record {
  dest_port = dest_port;
  dest_ip = take 16 dest_ip;
  src_port = src_port;
  src_ip = src_ip;
  msg = msg;
  source_vm = take 10 hostname;
  flag = flag;
})
