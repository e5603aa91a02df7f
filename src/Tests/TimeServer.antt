-- ===== src/Tests/TimeServer.antt =====
-- A request at the time server of vm3 and its answer.
use network_programming.Base.{some, [], ◌∷◌, Bytes, text, take, atoi, ◌≡◌, refl}
use network_programming.Odr.Types.{
  PeerInfo, FrameHead, payload_req, payload_resp, zero_row, zero_buf,
}
use network_programming.Odr.Send.{populate_frame_header, send_payload, msg_send}
use network_programming.Odr.Local.{ip_to_vm, time_request, get_data_from_server, domain_sock_path}
use network_programming.Odr.Process.{Node, serve_request}
use network_programming.TimeServer.{Server, before_hash, after_hash, respond}
use network_programming.TimeServer.Lockstep.{message, serve_request-respond, time_request_lem}

abbrev ip_c : Bytes
ip_c = text "192.168.10.3"

abbrev node : Node
node = record {
  serv = record { ip = ip_c; mac = 0 ∷ 12 ∷ 41 ∷ 1 ∷ 1 ∷ 12 ∷ []; index = 2 } ∷ [];
  table = zero_row ∷ [];
  buffer = zero_buf ∷ [];
  broadcast_id = 1;
  packet_counter = 0;
  server_bid = 3;
  hostname = text "vm3";
}

abbrev server : Server
server = record { bc_id = 3; hostname = text "vm3"; this_ip = ip_c }

abbrev asked : FrameHead
asked = populate_frame_header (text "192.168.10.1") ip_c 1 17 payload_req 0

abbrev now : Bytes
now = text "Mon Nov  3 12:00:00 2014\n"

abbrev to_server : PeerInfo
to_server = record {
  dest_port = text "dst_port";
  dest_ip = text "dst_ip";
  src_port = text "srcport";
  src_ip = text "srcip";
  msg = time_request 17 (text "vm1");
  source_vm = text "vm3";
  flag = 0;
}

abbrev from_server : PeerInfo
from_server = record {
  dest_port = text "srcport";
  dest_ip = text "srcip";
  src_port = domain_sock_path;
  src_ip = ip_c;
  msg = text "Mon Nov  3 12:00:00 2014";
  source_vm = text "vm3";
  flag = 0;
}

asks :
    message
      (get_data_from_server node.hostname asked
        (ip_to_vm asked.src_ip)
        from_server
        node.server_bid).0
    ≡ some to_server
unfolding get_data_from_server msg_send ip_to_vm populate_frame_header
asks = refl

answers : message (respond now to_server (text "_test0910") server).1 ≡ some from_server
unfolding respond msg_send
answers = refl

serve_request-respond_example :
    ((serve_request asked from_server node).0.server_bid
      ≡ (respond now to_server (text "_test0910") server).0.bc_id)
    × ((serve_request asked from_server node).1
        ≡ (get_data_from_server node.hostname asked
            (ip_to_vm asked.src_ip)
            from_server
            node.server_bid).0
          ∷ send_payload node.table node.serv node.broadcast_id asked.dest_ip asked.src_ip
              payload_resp
              (take 24 now)
              0)
serve_request-respond_example =
    serve_request-respond asked node server now (text "_test0910") to_server from_server asks
      answers refl

time_request_lem_example :
    (atoi (before_hash (time_request 17 (text "vm1"))) ≡ 17)
    × (after_hash (time_request 17 (text "vm1")) ≡ some (text "vm1"))
time_request_lem_example = time_request_lem 17 (text "vm1")
