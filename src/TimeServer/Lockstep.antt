-- ===== src/TimeServer/Lockstep.antt =====
-- The routing process and the time server on one host, together.
use network_programming.Base.{
  ℕ, true, Option, none, some, [], ◌∷◌, ◌++◌, All, take, Bytes, decimal, is_digit, atoi,
  atoi-decimal, decimal-is_digit, ◌≡◌, refl, ap, ◌∙◌, arith,
}
use network_programming.Odr.Types.{PeerInfo, FrameHead, Out, frame, datagram, payload_resp}
use network_programming.Odr.Send.{msg_send, send_payload}
use network_programming.Odr.Local.{ip_to_vm, time_request, get_data_from_server}
use network_programming.Odr.Process.{Node, serve_request}
use network_programming.TimeServer.{Server, hash, before_hash, after_hash, respond}

abbrev IsDigits : Bytes → Type 0
IsDigits = All (λ c. is_digit c ≡ true)

before_hash-append : (ds s : Bytes) → IsDigits ds → before_hash (ds ++ (hash ∷ s)) ≡ ds
unfolding before_hash
before_hash-append [] s h = refl
before_hash-append (d ∷ ds) s h = ground (arith, h.0, before_hash-append ds s h.1)

after_hash-append : (ds s : Bytes) → IsDigits ds → after_hash (ds ++ (hash ∷ s)) ≡ some s
unfolding after_hash
after_hash-append [] s h = refl
after_hash-append (d ∷ ds) s h = ground (arith, h.0, after_hash-append ds s h.1)

-- The server reads back the broadcast id and the name that the routing process has written into its
-- request.
pub time_request_lem :
    (n : ℕ) (source : Bytes)
    → (atoi (before_hash (time_request n source)) ≡ n)
      × (after_hash (time_request n source) ≡ some source)
unfolding time_request
time_request_lem n source = (
  ap atoi (before_hash-append (decimal n) source (decimal-is_digit n)) ∙ atoi-decimal n,
  after_hash-append (decimal n) source (decimal-is_digit n),
)

abbrev pub message : Out → Option PeerInfo
message (datagram path p) = some p
message (frame f) = none

-- A payload request at its destination, with the local server answering it: if the two statics held
-- the same broadcast id before, they do afterwards, and the response that goes out carries the first
-- 24 bytes of the server's time.
pub serve_request-respond :
    (h : FrameHead) (s : Node) (srv : Server) (now sender : Bytes) (p a : PeerInfo)
    → message (get_data_from_server s.hostname h (ip_to_vm h.src_ip) a s.server_bid).0 ≡ some p
    → message (respond now p sender srv).1 ≡ some a
    → s.server_bid ≡ srv.bc_id
    → ((serve_request h a s).0.server_bid ≡ (respond now p sender srv).0.bc_id)
      × ((serve_request h a s).1
          ≡ (get_data_from_server s.hostname h (ip_to_vm h.src_ip) a s.server_bid).0
            ∷ send_payload s.table s.serv s.broadcast_id h.dest_ip h.src_ip payload_resp
                (take 24 now)
                0)
unfolding serve_request get_data_from_server respond msg_send
serve_request-respond h s srv now sender p a e k q =
    ground (arith, (time_request_lem h.bc_id (ip_to_vm h.src_ip)).0)
