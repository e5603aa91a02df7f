-- ===== src/Odr/Line/Exchange.antt =====
-- The request of a client at one end of a line, for the time at the other end.
use network_programming.Base.{
  ℕ, ◌+◌, true, false, some, List, [], ◌∷◌, map, length, All, Bytes, str_eq, ◌≡◌, ◌≢◌, refl,
}
use network_programming.Odr.Types.{PeerInfo, ServerDetails, FrameHead, Frame, Out, frame, datagram}
use network_programming.Odr.Local.{get_data_from_server}
use network_programming.Odr.Send.{b_mac, msg_send}
use network_programming.Odr.Process.{Node, send_to_client, process_frame}
use network_programming.Odr.Loop.{boot}
use network_programming.Odr.Neighbours.Ends.{out_of, request, reply, ask, response}
use network_programming.Odr.Neighbours.Ends
use network_programming.Odr.Line.{
  Relay, accepts, sent_on, hear, to_right, to_left, there_and_back, time_exchange,
}
use network_programming.Odr.Line.Relays.{Hop, IsBetween}
use network_programming.Odr.Line.Pass.{==_self, accepts_all, accepts_own}
use network_programming.Odr.Line.Across.{
  starts, first, last, replied, request_across, reply_across, ask_across, response_across,
}

-- A frame out of the one interface of an end.
sent_alone :
    (i : ServerDetails) (to : Bytes) (h : FrameHead)
    → sent_on i.index (frame (out_of i to h) ∷ []) ≡ some (out_of i to h)
unfolding sent_on
sent_alone i to h = rw (==_self i.index) refl

sent_after :
    (i : ServerDetails) (to : Bytes) (h : FrameHead) (path : Bytes) (q : PeerInfo)
    → sent_on i.index (datagram path q ∷ frame (out_of i to h) ∷ []) ≡ some (out_of i to h)
unfolding sent_on
sent_after i to h path q = rw (==_self i.index) refl

module _ (now : ℕ) (answer : PeerInfo) where
  heard :
      (i : ServerDetails) (f : Frame) (s : Node) (r : Node × List Out)
      → accepts i f ≡ true
      → process_frame f now answer s ≡ some r
      → hear now answer i f s ≡ some r
  unfolding hear
  heard i f s r l e = rw (l, e) refl

  -- The six steps of a frame and its answer.
  there_and_back_lem :
      (a b : ServerDetails) (rs : List Relay) (s t : Node) (outs : List Out) (f g : Frame)
      (r q : List Relay × Frame) (u w : Node × List Out)
      → sent_on a.index outs ≡ some f
      → to_right now answer rs f ≡ some r
      → hear now answer b r.1 t ≡ some u
      → sent_on b.index u.1 ≡ some g
      → to_left now answer r.0 g ≡ some q
      → hear now answer a q.1 s ≡ some w
      → there_and_back now answer a b rs s t outs ≡ some (q.0, w.0, u.0, w.1)
  unfolding there_and_back
  there_and_back_lem a b rs s t outs f g r q u w e₁ e₂ e₃ e₄ e₅ e₆ =
      rw (e₁, e₂, e₃, e₄, e₅, e₆) refl

module _ (a b : ServerDetails) (rs : List Hop) (host_a host_b : Bytes) (p answer : PeerInfo)
    (now : ℕ) (na : a.ip ≢ []) (nb : b.ip ≢ []) (ab : str_eq a.ip b.ip ≡ false)
    (v : All (IsBetween a.ip b.ip) rs) where
  hops : ℕ
  hops = 1 + length rs

  into_b : ServerDetails
  into_b = last a rs

  into_a : ServerDetails
  into_a = first b rs

  finds_route :
      there_and_back now answer a b
        (map starts rs)
        (Ends.asked a b host_a host_b p now)
        (boot (b ∷ []) host_b)
        (frame (out_of a b_mac (request a.ip b.ip p.flag 1)) ∷ [])
      ≡ some (
        replied a.ip b.ip now answer na nb ab p.flag a 1 b 1 rs,
        Ends.a_knows a b host_a host_b p now hops into_a.mac,
        Ends.b_knows a b host_a host_b p now hops into_b.mac,
        frame (out_of a into_a.mac (ask a.ip b.ip hops 2)) ∷ [],
      )
  unfolding hops into_a into_b
  finds_route =
      there_and_back_lem now answer a b _ _ _ _ _ _ _ _ _ _ (sent_alone a b_mac _)
        (request_across a.ip b.ip now answer na nb ab p.flag a 1 rs v)
        (heard now answer b _ _ _
          (accepts_all b (out_of into_b b_mac (request a.ip b.ip p.flag hops)) refl)
          (Ends.replies a b host_a host_b p now na nb ab hops into_b answer))
        (sent_alone b into_b.mac _) (reply_across a.ip b.ip now answer na nb ab p.flag a 1 b 1 rs v)
        (heard now answer a _ _ _
          (accepts_own a (out_of into_a a.mac (reply a.ip b.ip p.flag hops)) refl)
          (Ends.requests_time a b host_a host_b p now na nb ab hops into_a a.mac answer))

  gets_time :
      p.dest_ip ≡ b.ip
      → (s t : Node) × (there_and_back now answer a b
            (replied a.ip b.ip now answer na nb ab p.flag a 1 b 1 rs)
            (Ends.a_knows a b host_a host_b p now hops into_a.mac)
            (Ends.b_knows a b host_a host_b p now hops into_b.mac)
            (frame (out_of a into_a.mac (ask a.ip b.ip hops 2)) ∷ [])
          ≡ some (
            replied a.ip b.ip now answer na nb ab p.flag a 1 b 1 rs,
            s,
            t,
            send_to_client host_a answer.msg p ∷ [],
          ))
  unfolding hops into_a into_b get_data_from_server msg_send
  gets_time e =
      let (far, bid, there) = ask_across a.ip b.ip now answer na nb ab p.flag a 1 b 1 hops 2 rs v in
      let (near, bid', back) =
        response_across a.ip b.ip now answer na nb ab p.flag a 1 b 1 answer.msg hops 1 rs v in
      (
        _,
        _,
        there_and_back_lem now answer a b _ _ _ _ _ _ _ _ _ _ (sent_alone a into_a.mac _) there
            (heard now answer b _ _ _
              (accepts_own b (out_of into_b b.mac (ask a.ip b.ip far bid)) refl)
              (Ends.serves a b host_a host_b p now na nb ab hops into_b.mac _ bid into_b b.mac
                answer))
            (sent_after b into_b.mac _ _ _) back
            (heard now answer a _ _ _
              (accepts_own a (out_of into_a a.mac (response a.ip b.ip answer.msg near bid')) refl)
              (Ends.answers a b host_a host_b p now na nb ab hops into_a.mac _ _ into_a a.mac answer
                answer.msg e)),
      )

  -- Hosts in a line of any length, all just started, the two ends with one interface and the others
  -- with two, where each interface takes up only the frames for its own address and the broadcasts:
  -- when a client of the first host asks for the time of the last one, the route request goes through
  -- the line to the last host, the route reply comes back, the request follows the route that was
  -- found, and the response comes back, and then the first host gives the client the message of the
  -- server of the last one. Only the frames on their way to the other end are followed, and none of
  -- them is lost. It is assumed that the IP addresses of the two ends are not empty, differ from one
  -- another and from those of the other hosts, and that the two interfaces of a host have different
  -- numbers.
  pub line-Exchange :
      p.dest_ip ≡ b.ip
      → time_exchange now answer a b (map starts rs) host_a host_b p
        ≡ some (send_to_client host_a answer.msg p ∷ [])
  unfolding time_exchange
  line-Exchange e =
      let (s, t, q) = gets_time e in
      rw (Ends.asks a b host_a host_b p now na nb ab e, finds_route, q) refl
