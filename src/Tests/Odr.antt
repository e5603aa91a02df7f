-- ===== src/Tests/Odr.antt =====
-- Hosts of hw3 with one or two interfaces, and the frames that pass between them.
use network_programming.Base.{
  true, false, ◌*◌, ◌&&◌, none, some, List, [], ◌∷◌, ◌++◌, length, Bytes, text, replicate, str_eq,
  find, ◌≡◌, ◌≢◌, refl, if◌then◌else◌,
}
use network_programming.Odr.Types.{
  PeerInfo, ServerDetails, ServerBuf, Frame, FrameHead, Out, Row, rreq, rrep, payload_resp,
  zero_row, zero_peer, zero_buf,
}
use network_programming.Odr.Table.{
  get_row_entry, row_at, init_routing_table, update_routing_table, should_update_rt, fill_row,
  refresh_row, improves,
}
use network_programming.Odr.Table.Route.{IsClean, route, learn}
use network_programming.Odr.Table.Update.{route-update}
use network_programming.Odr.Buffer.{push_data_to_buf, init_buffer}
use network_programming.Odr.Send.{send_rreq, send_all, send_payload, flood, populate_frame_header}
use network_programming.Odr.Process.{
  Node, is_mine, source_ip_cmp, source_ip_cmp_from, learn_source, on_rreq, dispatch, process_frame,
  deliver_response, send_to_client,
}
use network_programming.Odr.Process.Learning.{takes, process_frame-route}
use network_programming.Odr.Process.Flood.{count_rreq, flood_stops}
use network_programming.Odr.Process.Replies.{rrep_without_route}
use network_programming.Odr.Process.Waiting.{deliver-push}
use network_programming.Odr.Loop.{
  Event, packet, request, stale, boot, step, run, on_request, ask_all, ask_through,
}
use network_programming.Odr.Loop.Cost.{cost, asked_table, on_request-cost}
use network_programming.Odr.Loop.Reach.{IsValid, run-IsValid}

abbrev ip_a : Bytes
ip_a = text "192.168.10.1"

abbrev ip_b : Bytes
ip_b = text "192.168.10.2"

abbrev ip_c : Bytes
ip_c = text "192.168.10.3"

abbrev mac_a : Bytes
mac_a = 0 ∷ 12 ∷ 41 ∷ 1 ∷ 1 ∷ 10 ∷ []

abbrev mac_b : Bytes
mac_b = 0 ∷ 12 ∷ 41 ∷ 1 ∷ 1 ∷ 11 ∷ []

abbrev eth_b : ServerDetails
eth_b = record { ip = ip_b; mac = mac_b; index = 2 }

abbrev host_b : Bytes
host_b = text "vm2"

-- A node with one interface, a table of two rows and room for one request.
abbrev b : Node
b = record {
  serv = eth_b ∷ [];
  table = zero_row ∷ zero_row ∷ [];
  buffer = zero_buf ∷ [];
  broadcast_id = 1;
  packet_counter = 0;
  server_bid = 0;
  hostname = host_b;
}

-- The route request of a for c.
abbrev seek : FrameHead
seek = populate_frame_header ip_a ip_c 1 1 rreq 0

abbrev seek_frame : Frame
seek_frame = record { dest_mac = mac_b; src_mac = mac_a; if_index = 2; header = seek }

abbrev row_a : Row
row_a = record {
  dest_ip = ip_a;
  next_hop_mac = mac_a;
  outgoing_index = 0;
  hop_count = 1;
  ts = 50;
  broadcast_id = 1;
  rrep_sent = 0;
  is_filled = 1;
}

abbrev b_learned : Node
b_learned = record b { table = row_a ∷ zero_row ∷ [] }

abbrev passed_on : List Out
passed_on = send_rreq b.serv 1 2 ip_a ip_c 0

b-IsClean : IsClean b.table
b-IsClean = (λ _. refl, (λ _. refl, tt))

ip_a-ne-nil : ip_a ≢ []
ip_a-ne-nil e = cc

updates : update_routing_table b.table seek mac_a 50 ≡ some b_learned.table
unfolding update_routing_table fill_row populate_frame_header str_eq
updates = refl

updates_again : update_routing_table b_learned.table seek mac_a 51 ≡ some b_learned.table
unfolding update_routing_table refresh_row populate_frame_header str_eq
updates_again = refl

takes_seek : process_frame seek_frame 50 zero_peer b ≡ some (b_learned, passed_on)
unfolding process_frame learn_source should_update_rt source_ip_cmp source_ip_cmp_from
    update_routing_table fill_row dispatch on_rreq populate_frame_header str_eq send_rreq send_all
takes_seek = refl

ignores_seek : process_frame seek_frame 51 zero_peer b_learned ≡ some (b_learned, [])
unfolding process_frame learn_source should_update_rt improves source_ip_cmp source_ip_cmp_from
    dispatch on_rreq populate_frame_header str_eq
ignores_seek = refl

process_frame-route_example : route b_learned.table ip_a ≡ (
    if takes seek b && str_eq seek.src_ip ip_a
    then some (learn (route b.table seek.src_ip) seek mac_a)
    else route b.table ip_a)
process_frame-route_example =
    process_frame-route seek_frame 50 zero_peer b ip_a b-IsClean ip_a-ne-nil takes_seek

route-update_example : route b_learned.table ip_c ≡ (
    if str_eq seek.src_ip ip_c
    then some (learn (route b.table seek.src_ip) seek mac_a)
    else route b.table ip_c)
route-update_example = route-update b.table seek mac_a 50 ip_c b-IsClean ip_c-ne-nil updates
  where
    ip_c-ne-nil : ip_c ≢ []
    ip_c-ne-nil e = cc

seek_kind : seek.kind ≡ rreq
unfolding populate_frame_header
seek_kind = refl

flood_stops_example : count_rreq [] ≡ 0
flood_stops_example =
    flood_stops seek_frame seek_frame seek_frame 50 51 51 zero_peer zero_peer zero_peer b b_learned
      b_learned b_learned seek_kind refl refl takes_seek ignores_seek ignores_seek

-- The route reply of c for a, at b, which has no route to a.
abbrev found_frame : Frame
found_frame = record {
  dest_mac = mac_b;
  src_mac = mac_a;
  if_index = 2;
  header = populate_frame_header ip_c ip_a 1 1 rrep 0;
}

abbrev row_c : Row
row_c = record row_a { dest_ip = ip_c }

found_kind : found_frame.header.kind ≡ rrep
unfolding populate_frame_header
found_kind = refl

not_for_b : is_mine found_frame.header.dest_ip b.serv ≡ false
unfolding source_ip_cmp source_ip_cmp_from populate_frame_header str_eq
not_for_b = refl

found_learned : learn_source found_frame.header mac_a 50 b ≡ some (row_c ∷ zero_row ∷ [], true)
unfolding learn_source should_update_rt source_ip_cmp source_ip_cmp_from update_routing_table
    fill_row populate_frame_header str_eq
found_learned = refl

no_way_back : route (row_c ∷ zero_row ∷ []) found_frame.header.dest_ip ≡ none
unfolding populate_frame_header str_eq
no_way_back = refl

rrep_without_route_example : process_frame found_frame 50 zero_peer b ≡ none
rrep_without_route_example =
    rrep_without_route found_frame 50 zero_peer b eth_b [] (row_c ∷ zero_row ∷ []) true refl
      found_kind not_for_b found_learned no_way_back

-- A client on b that asks for the time of c.
abbrev client : PeerInfo
client = record zero_peer { dest_ip = ip_c; src_port = text "tmp_1"; msg = text "GetMeTime" }

abbrev stored : List ServerBuf
stored = record { peer_info = client; count = 1 } ∷ []

abbrev time_of_c : FrameHead
time_of_c = record (populate_frame_header ip_c ip_b 1 1 payload_resp 0) {
  msg = text "Mon Nov  3 12:00:00 2014";
}

stores : push_data_to_buf b.buffer client ≡ some stored
unfolding push_data_to_buf
stores = refl

nobody_waits : find (network_programming.Odr.Buffer.awaits client.dest_ip) b.buffer ≡ none
unfolding str_eq
nobody_waits = refl

from_c : time_of_c.src_ip ≡ client.dest_ip
unfolding populate_frame_header
from_c = refl

deliver-push_example :
    (deliver_response time_of_c (record b { buffer = stored })).1
    ≡ send_to_client b.hostname time_of_c.msg client ∷ []
deliver-push_example = deliver-push client time_of_c b nobody_waits from_c stores

abbrev b_waits : Node
b_waits = record b { buffer = stored }

-- The request of the client, which floods.
abbrev b_asking : Node
b_asking = record b { buffer = stored; broadcast_id = 2; packet_counter = 1 }

abbrev asking_frames : List Out
asking_frames = send_rreq b.serv 2 1 ip_b ip_c 0

requests_time : on_request client b ≡ some (b_asking, asking_frames)
unfolding on_request push_data_to_buf ask_all ask_through send_payload flood send_rreq send_all
    str_eq
requests_time = refl

on_request-cost_example :
    length asking_frames
    ≡ length b.serv
      * cost
          (row_at (asked_table client b) (get_row_entry (asked_table client b) client.dest_ip))
          (length b.serv)
on_request-cost_example = on_request-cost client b requests_time

abbrev day : List Event
day = request client ∷ packet seek_frame 50 zero_peer ∷ stale ∷ []

abbrev b_after : Node
b_after = record b_asking { table = init_routing_table }

abbrev day_frames : List Out
day_frames = asking_frames ++ passed_on

day_runs : run day b ≡ some (b_after, day_frames)
unfolding run step on_request push_data_to_buf ask_all ask_through send_payload flood process_frame
    learn_source should_update_rt source_ip_cmp source_ip_cmp_from update_routing_table fill_row
    dispatch on_rreq populate_frame_header str_eq send_rreq send_all
day_runs = refl

-- A booted node, with its table of full size, that takes the route request.
abbrev booted : Node
booted = boot (eth_b ∷ []) host_b

abbrev booted_learned : Node
booted_learned = record booted { table = row_a ∷ replicate 99 zero_row }

booted_runs : run (packet seek_frame 50 zero_peer ∷ []) booted ≡ some (booted_learned, passed_on)
unfolding run step process_frame learn_source should_update_rt source_ip_cmp source_ip_cmp_from
    update_routing_table fill_row dispatch on_rreq populate_frame_header str_eq send_rreq send_all
    boot init_routing_table
booted_runs = refl

run-IsValid_example : IsValid booted_learned
run-IsValid_example =
    run-IsValid (eth_b ∷ []) host_b (packet seek_frame 50 zero_peer ∷ []) booted_runs
