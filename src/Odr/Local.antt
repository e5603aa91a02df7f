-- ===== src/Odr/Local.antt =====
-- The messages between the routing process and the time server on the same host
-- (`ip_to_vm` and `get_data_from_server` of hw3/common.c).
use network_programming.Base.{ℕ, Bytes, ◌++◌, drop, text, decimal, ltb, if◌then◌else◌}
use network_programming.Odr.Types.{PeerInfo, FrameHead, Out}
use network_programming.Odr.Send.{msg_send}

-- An address shorter than 11 bytes is read past its end by the code; here it gives no bytes.
unfoldable pub ip_to_vm : Bytes → Bytes
ip_to_vm ip = text "vm" ++ drop 11 ip

abbrev pub domain_sock_path : Bytes
domain_sock_path = text "/tmp/deva_kau"

-- `buf`: the broadcast id, a `#` and the name of the source.
unfoldable pub time_request : ℕ → Bytes → Bytes
time_request bc_id source_vm = decimal bc_id ++ (text "#" ++ source_vm)

-- The request that is sent, the header with the message of the datagram `answer` that the call
-- then waits for, and the static `b_id`.
unfoldable pub get_data_from_server : Bytes → FrameHead → Bytes → PeerInfo → ℕ → Out × FrameHead × ℕ
get_data_from_server hostname header source_vm answer b_id = (
  msg_send hostname (text "dst_ip") (text "dst_port") (text "srcip") (text "srcport")
      (time_request header.bc_id source_vm) 0 domain_sock_path,
  record header { msg = answer.msg },
  if ltb b_id header.bc_id then header.bc_id else b_id,
)
