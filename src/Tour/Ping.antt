-- ===== src/Tour/Ping.antt =====
-- The pings of a tour (hw4/tour.c): the thread `send_ping`, and what `main` does with a packet on the
-- socket for pings. The checksum of unpv13e, `in_cksum`, is a parameter.
pub mod Announced
pub mod Answer
use network_programming.Base.{
  ℕ, zero, suc, ◌+◌, ◌-◌, ◌*◌, ◌%◌, ◌^◌, Bool, true, false, Option, none, some, List, [], ◌∷◌, ◌++◌,
  length, get_elem?, take, ltb, ◌==◌, if◌then◌else◌, Bytes,
}
use network_programming.Arp.Areq.{Heard, areq}

-- `struct icmp` of an echo request or reply.
pub record Icmp : Type 0 where
  pub icmp_type : ℕ
  pub icmp_code : ℕ
  pub icmp_id : ℕ
  pub icmp_seq : ℕ
  pub icmp_cksum : ℕ
  pub icmp_data : Bytes

abbrev pub icmp_echo : ℕ
icmp_echo = 8

abbrev pub icmp_echoreply : ℕ
icmp_echoreply = 0

-- The frame of a request: the addresses as `inet_addr` reads them, and the interface. The fields of
-- the IP header that are the same in each are left out.
pub record PingFrame : Type 0 where
  pub dst_mac : Bytes
  pub src_mac : Bytes
  pub src_ip : Bytes
  pub dest_ip : Bytes
  pub if_index : ℕ
  pub icmp : Icmp

-- The line that a new address is pinged from now on, or a request.
pub data PingOut : Type 0 where
  announce : Bytes → PingOut
  request : PingFrame → PingOut

-- The globals of the thread.
pub record Pinger : Type 0 where
  pub pid : ℕ
  pub seq : ℕ
  pub next_ip_to_ping_index : ℕ

-- What the thread finds in one round of its inner loop: the list of addresses, which `main` may have
-- extended, what `areq` hears of both addresses, and the time.
pub record Turn : Type 0 where
  pub ips_to_ping : List Bytes
  pub dest : Heard
  pub self : Heard
  pub time : Bytes

-- The index is below `next_ip_index` where there is an address at it.
-- The parameters are `gethostbyaddr` and `Host_serv`, whose results are used without a check: an
-- address without a name, or a name without an address, ends the program, which is `none`.
module _ (gethostbyaddr host_serv : Bytes → Option Bytes) where
  unfoldable pub announce_next : List Bytes → Pinger → Option (Pinger × List PingOut)
  announce_next ips s = elim (get_elem? ips s.next_ip_to_ping_index) [
    | none ↦ some (s, [])
    | some ip ↦ elim (gethostbyaddr ip) [
      | none ↦ none
      | some h_name ↦ elim (host_serv h_name) [
        | none ↦ none
        | some ai ↦
            some
              (record s { next_ip_to_ping_index = s.next_ip_to_ping_index + 1 }, announce ip ∷ [])
      ]
    ]
  ]

module _ (in_cksum : Icmp → ℕ) where
  unfoldable pub set_icmp : Bytes → Pinger → Icmp × Pinger
  set_icmp time s =
      let icmp : Icmp = record {
        icmp_type = icmp_echo;
        icmp_code = 0;
        icmp_id = s.pid;
        icmp_seq = (s.seq + 1) % 2 ^ 16;
        icmp_cksum = 0;
        icmp_data = time;
      } in
      (record icmp { icmp_cksum = in_cksum icmp }, record s { seq = s.seq + 1 })

  unfoldable pub send_ping_request :
      Bytes → Bytes → Bytes → Bytes → ℕ → Bytes → Pinger → Pinger × PingFrame
  send_ping_request dst_mac src_mac src_ip dest_ip if_index time s =
      let (icmp, s') = set_icmp time s in
      (
        s',
        record {
          dst_mac = take 6 dst_mac;
          src_mac = take 6 src_mac;
          src_ip = src_ip;
          dest_ip = dest_ip;
          if_index = if_index;
          icmp = icmp;
        },
      )

  module _ (gethostbyaddr host_serv : Bytes → Option Bytes) where
    -- A round of the inner loop at `k`; the results of `areq` are not looked at. `none` is the end of the
    -- program, or an index behind the list.
    unfoldable pub ping_one : Bytes → ℕ → Turn → Pinger → Option (Pinger × List PingOut)
    ping_one src_ip k t s = elim (get_elem? t.ips_to_ping k) [
      | none ↦ none
      | some ip ↦
          let dest = (areq t.dest).0 in
          let self = (areq t.self).0 in
          elim (announce_next gethostbyaddr host_serv t.ips_to_ping s) [
            | none ↦ none
            | some (s', told) ↦
                let (s'', f) =
                  send_ping_request dest.sll_addr self.sll_addr src_ip ip self.sll_ifindex t.time
                    s' in
                some (s'', told ++ (request f ∷ []))
          ]
    ]

    -- The inner loop from `k` on; it has a round for each address that is in the list when it starts.
    unfoldable pub ping_from : Bytes → ℕ → List Turn → Pinger → Option (Pinger × List PingOut)
    ping_from src_ip k [] s = some (s, [])
    ping_from src_ip k (t ∷ ts) s = elim (ping_one src_ip k t s) [
      | none ↦ none
      | some (s', outs) ↦ elim (ping_from src_ip (k + 1) ts s') [
        | none ↦ none
        | some (s'', more) ↦ some (s'', outs ++ more)
      ]
    ]

-- A packet on the socket: the header of the ICMP message as it is read at an offset.
pub record Received : Type 0 where
  pub len : ℕ
  pub ip_hl : ℕ
  pub ip_ttl : ℕ
  pub ip_src : Bytes
  pub icmp_at : ℕ → Icmp

-- The line for a reply has the length, the address, the sequence number and the time to live.
pub data Verdict : Type 0 where
  ignored : Verdict
  quits : Verdict
  prints : ℕ → Bytes → ℕ → ℕ → Verdict

unfoldable pub proc_v4 : ℕ → Received → Verdict
proc_v4 pid p =
    let hlen1 = p.ip_hl * 4 in
    let icmp = p.icmp_at hlen1 in
    let icmplen = p.len - hlen1 in
    if ltb icmplen 8
    then quits
    else if icmp.icmp_type == icmp_echoreply
    then if icmp.icmp_id == pid
      then if ltb icmplen 16 then quits else prints icmplen p.ip_src icmp.icmp_seq p.ip_ttl
      else ignored
    else ignored

-- The branch of `main`, which reads the message behind a header of 20 bytes.
unfoldable pub on_ping : ℕ → Received → Verdict
on_ping pid p = if (p.icmp_at 20).icmp_id == pid then proc_v4 pid p else ignored
