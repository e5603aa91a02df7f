-- ===== src/Odr/Types.antt =====
-- The structs of hw3/common.h. A `char` array that holds a string is the string's bytes, one that
-- holds an address is its bytes; an `int` that the code only sets to a count, copies, compares and
-- increments is a natural number; the index -1 is `none`.
use network_programming.Base.{ℕ, List, [], Bytes, Bool, true, false}

pub data DataType : Type 0 where
  rrep rreq payload_req payload_resp : DataType

-- The comparisons of `header.type` in the handlers.
abbrev pub is_payload : DataType → Bool
is_payload payload_req = true
is_payload payload_resp = true
is_payload rrep = false
is_payload rreq = false

pub record PeerInfo : Type 0 where
  pub dest_port : Bytes
  pub dest_ip : Bytes
  pub src_port : Bytes
  pub src_ip : Bytes
  pub msg : Bytes
  pub source_vm : Bytes
  pub flag : ℕ

pub record ServerDetails : Type 0 where
  pub ip : Bytes
  pub mac : Bytes
  pub index : ℕ

pub record ServerBuf : Type 0 where
  pub peer_info : PeerInfo
  pub count : ℕ

pub record FrameHead : Type 0 where
  pub src_ip : Bytes
  pub dest_ip : Bytes
  pub hop_count : ℕ
  pub bc_id : ℕ
  pub msg : Bytes
  pub force_flag : ℕ
  pub kind : DataType

pub record Row : Type 0 where
  pub dest_ip : Bytes
  pub next_hop_mac : Bytes
  pub outgoing_index : ℕ
  pub hop_count : ℕ
  pub ts : ℕ
  pub broadcast_id : ℕ
  pub rrep_sent : ℕ
  pub is_filled : ℕ

abbrev pub Table : Type 0
Table = List Row

abbrev pub routing_table_size : ℕ
routing_table_size = 100

abbrev pub buffer_size : ℕ
buffer_size = 100

-- `bzero` of a row, of a `peer_info` and of a buffer entry.
abbrev pub zero_row : Row
zero_row = record {
  dest_ip = [];
  next_hop_mac = [];
  outgoing_index = 0;
  hop_count = 0;
  ts = 0;
  broadcast_id = 0;
  rrep_sent = 0;
  is_filled = 0;
}

abbrev pub zero_peer : PeerInfo
zero_peer = record {
  dest_port = [];
  dest_ip = [];
  src_port = [];
  src_ip = [];
  msg = [];
  source_vm = [];
  flag = 0;
}

abbrev pub zero_buf : ServerBuf
zero_buf = record { peer_info = zero_peer; count = 0 }

-- An Ethernet frame: the two addresses in front of the header, and the interface it leaves by.
pub record Frame : Type 0 where
  pub dest_mac : Bytes
  pub src_mac : Bytes
  pub if_index : ℕ
  pub header : FrameHead

-- What a handler sends: a frame on the packet socket, or a datagram to a local socket's path.
pub data Out : Type 0 where
  frame : Frame → Out
  datagram : Bytes → PeerInfo → Out
