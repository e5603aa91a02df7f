-- ===== src/Arp/Types.antt =====
-- The structs of hw4/arp.h and hw4/common.h. Arrays that hold a string are the string's bytes, arrays
-- that hold an address are their six bytes.
use network_programming.Base.{ℕ, List, [], Bytes, Option, replicate}

-- `struct server_details`
pub record ServerDetails : Type 0 where
  pub ip : Bytes
  pub mac : Bytes
  pub index : ℕ

abbrev pub zero_mac : Bytes
zero_mac = replicate 6 0

-- `bzero(&sv, sizeof(server_details))`
abbrev pub zero_details : ServerDetails
zero_details = record { ip = []; mac = zero_mac; index = 0 }

-- `struct arp_cache_details`
pub record Entry : Type 0 where
  pub ip : Bytes
  pub mac : Bytes
  pub index : ℕ
  pub fd : ℕ
  pub filled : ℕ

abbrev pub zero_entry : Entry
zero_entry = record { ip = []; mac = zero_mac; index = 0; fd = 0; filled = 0 }

abbrev pub no_fd : ℕ
no_fd = 0

abbrev pub num_cache_entries : ℕ
num_cache_entries = 40

-- `struct arp_req_reply`
pub record ArpReqReply : Type 0 where
  pub eth_dest : Bytes
  pub eth_src : Bytes
  pub frame_type : ℕ
  pub hard_type : ℕ
  pub prot_type : ℕ
  pub hard_size : ℕ
  pub prot_size : ℕ
  pub op : ℕ
  pub sender_eth : Bytes
  pub sender_ip : Bytes
  pub target_eth : Bytes
  pub target_ip : Bytes
  pub identification : Bytes

-- `struct hwaddr`, what a client of the process receives. `sll_addr` has eight bytes.
pub record HwAddr : Type 0 where
  pub sll_ifindex : ℕ
  pub sll_hatype : ℕ
  pub sll_halen : ℕ
  pub sll_addr : Bytes

-- An Ethernet frame with its two addresses, and the interface that it leaves by (-1 is `none`).
pub record Frame : Type 0 where
  pub dest_mac : Bytes
  pub src_mac : Bytes
  pub if_index : Option ℕ
  pub body : ArpReqReply

-- What the process does to its sockets.
pub data Out : Type 0 where
  frame : Frame → Out
  reply : ℕ → HwAddr → Out
  close : ℕ → Out

-- The globals of arp.c. `proto` is `htons(OUR_PF_PROTOCOL)`: the low bits of a string's address.
pub record Arp : Type 0 where
  pub src_mac : Bytes
  pub src_ip : Bytes
  pub src_ifindex : Option ℕ
  pub cache : List Entry
  pub proto : ℕ
