-- ===== src/Tests/Ping.antt =====
-- A pass over two addresses, while a third is added.
use network_programming.Base.{All, ℕ, some, List, [], ◌∷◌, Bytes, text, replicate, ◌≡◌, refl, arith}
use network_programming.Arp.Types.{HwAddr}
use network_programming.Arp.Areq.{message, silence, areq}
use network_programming.Tour.Ping.{
  Icmp, PingOut, Pinger, Turn, Received, set_icmp, send_ping_request, ping_from, ping_one,
  announce_next,
}
use network_programming.Tour.Ping.Announced.{IsNamed, Sends, requests, pass-Sends}
use network_programming.Tour.Ping.Answer.{IsReplyTo}

abbrev ip_1 : Bytes
ip_1 = text "1"

abbrev ip_2 : Bytes
ip_2 = text "2"

abbrev ip_3 : Bytes
ip_3 = text "3"

abbrev hw : ℕ → HwAddr
hw n = record { sll_ifindex = 2; sll_hatype = 1; sll_halen = 6; sll_addr = replicate 6 n }

abbrev all : List Bytes
all = ip_1 ∷ ip_2 ∷ ip_3 ∷ []

-- Nobody answers for the second address.
abbrev turns : List Turn
turns =
    record {
      ips_to_ping = ip_1 ∷ ip_2 ∷ [];
      dest = message (hw 1);
      self = message (hw 9);
      time = [];
    }
    ∷ record { ips_to_ping = all; dest = silence; self = message (hw 9); time = [] }
    ∷ []

abbrev pinger : Pinger
pinger = record { pid = 77; seq = 0; next_ip_to_ping_index = 0 }

abbrev in_cksum : Icmp → ℕ
in_cksum m = m.icmp_seq

abbrev named : All (IsNamed some some) all
named = ((ip_1, ip_1, refl, refl), ((ip_2, ip_2, refl, refl), ((ip_3, ip_3, refl, refl), tt)))

pass-Sends_example : Sends some some all named in_cksum ip_3 0 turns pinger
pass-Sends_example =
    pass-Sends some some all named in_cksum ip_3 turns pinger
      ((ip_3 ∷ [], refl, omega arith), (([], refl, omega arith), tt))

two_requests :
    (s : Pinger) × (outs : List PingOut) × (ping_from in_cksum some some ip_3 0 turns pinger
      ≡ some (s, outs))
    × (requests outs ≡ (ip_1, 1) ∷ (ip_2, 2) ∷ [])
    × (s.next_ip_to_ping_index ≡ 2)
unfolding ping_from ping_one announce_next send_ping_request set_icmp areq
two_requests = (_, _, refl, refl, refl)

abbrev answer : Received
answer = record {
  len = 84;
  ip_hl = 5;
  ip_ttl = 64;
  ip_src = ip_1;
  icmp_at = λ n. record {
    icmp_type = 0;
    icmp_code = 0;
    icmp_id = 77;
    icmp_seq = 1;
    icmp_cksum = 0;
    icmp_data = [];
  };
}

is_answer :
    IsReplyTo
      (send_ping_request in_cksum (replicate 6 1) (replicate 6 9) ip_3 ip_1 2 [] pinger).1
      answer
unfolding send_ping_request set_icmp
is_answer = record {
  header = refl;
  kind = refl;
  same_id = refl;
  same_seq = refl;
  from = refl;
  whole = omega arith;
}
