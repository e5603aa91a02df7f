-- ===== src/Tour/Ping/Answer.antt =====
-- A request and its answer.
use network_programming.Base.{ℕ, ◌+◌, ◌-◌, ◌*◌, ◌%◌, ◌^◌, ◌≤◌, Bytes, ◌≡◌, refl, ◌∙◌, ap, arith}
use network_programming.Tour.Ping.{
  Icmp, PingFrame, Pinger, Received, prints, set_icmp, send_ping_request, proc_v4, on_ping,
  icmp_echoreply,
}

-- An echo reply: from the address that was asked, with the number of the process and the sequence number
-- of the request behind an IP header without options, and with 16 bytes or more.
pub record IsReplyTo (f : PingFrame) (p : Received) : Type 0 where
  pub header : p.ip_hl ≡ 5
  pub kind : (p.icmp_at 20).icmp_type ≡ icmp_echoreply
  pub same_id : (p.icmp_at 20).icmp_id ≡ f.icmp.icmp_id
  pub same_seq : (p.icmp_at 20).icmp_seq ≡ f.icmp.icmp_seq
  pub from : p.ip_src ≡ f.dest_ip
  pub whole : 36 ≤ p.len

on_ping-reply :
    (pid : ℕ) (f : PingFrame) (p : Received)
    → f.icmp.icmp_id ≡ pid
    → IsReplyTo f p
    → on_ping pid p ≡ prints (p.len - 20) f.dest_ip f.icmp.icmp_seq p.ip_ttl
unfolding on_ping proc_v4
on_ping-reply pid f p e r =
    let own : (p.icmp_at 20).icmp_id ≡ pid = r.same_id ∙ e in
    let at : p.ip_hl * 4 ≡ 20 = ap (λ (n : ℕ). n * 4) r.header in
    ground (arith, r.kind, r.same_seq, r.from, r.whole)

-- An echo reply to a request of this process is printed, with the address that was asked and the
-- sequence number of the request.
on_ping-send_ping_request :
    (in_cksum : Icmp → ℕ) (dst_mac src_mac src_ip dest_ip : Bytes) (if_index : ℕ) (time : Bytes)
    (s : Pinger) (p : Received)
    → IsReplyTo (send_ping_request in_cksum dst_mac src_mac src_ip dest_ip if_index time s).1 p
    → on_ping s.pid p ≡ prints (p.len - 20) dest_ip ((s.seq + 1) % 2 ^ 16) p.ip_ttl
unfolding send_ping_request set_icmp
on_ping-send_ping_request in_cksum dst_mac src_mac src_ip dest_ip if_index time s p r =
    on_ping-reply s.pid
      (send_ping_request in_cksum dst_mac src_mac src_ip dest_ip if_index time s).1 p refl r
