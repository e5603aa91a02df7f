-- ===== src/Odr/Line/Pass.antt =====
-- A host between the two ends hands on each of the four frames of an exchange.
use network_programming.Base.{
  ℕ, ◌+◌, true, false, some, List, [], ◌∷◌, ◌==◌, Bytes, str_eq, str_eq_refl, ◌≡◌, ◌≢◌, refl, arith,
}
use network_programming.Odr.Types.{PeerInfo, ServerDetails, FrameHead, Frame, Out, frame}
use network_programming.Odr.Table.{fill_row}
use network_programming.Odr.Send.{
  populate_frame_header, send_packet, send_all, send_rreq, send_rrep, send_along, send_payload,
  b_mac,
}
use network_programming.Odr.Process.{
  Node, learn_source, on_rreq, on_rrep, on_payload, dispatch, process_frame,
}
use network_programming.Odr.Loop.{boot}
use network_programming.Odr.Neighbours.First.{known}
use network_programming.Odr.Neighbours.Ends.{out_of, request, reply, ask, response}
use network_programming.Odr.Line.{accepts, sent_on, hear, hand_on}
use network_programming.Odr.Line.Relays.{
  Hop, fresh, known_both, IsBetween, not_mine, learns_one, learns_two, other_row, row_first,
  row_second,
}

pub ==_self : (n : ℕ) → (n == n) ≡ true
==_self n = ground arith

-- A frame for an interface, or for all of them, is handed up.
pub accepts_all : (i : ServerDetails) (f : Frame) → f.dest_mac ≡ b_mac → accepts i f ≡ true
accepts_all i f e = ground (arith, str_eq_refl b_mac, e)

pub accepts_own : (i : ServerDetails) (f : Frame) → f.dest_mac ≡ i.mac → accepts i f ≡ true
accepts_own i f e = ground (arith, str_eq_refl i.mac, e)

-- A host that handles a frame by sending one out of both interfaces.
unfoldable pub both : Hop → Bytes → FrameHead → List Out
both r to h = frame (out_of r.left to h) ∷ (frame (out_of r.right to h) ∷ [])

module _ (now : ℕ) (x : PeerInfo) (r : Hop) (s s' : Node) (to : Bytes) (h : FrameHead)
    (f : Frame) where
  pub hands_right :
      (r.left.index == r.right.index) ≡ false
      → accepts r.left f ≡ true
      → process_frame f now x s ≡ some (s', both r to h)
      → hand_on now x r.left r.right f s ≡ some (s', out_of r.right to h)
  unfolding hand_on hear sent_on both
  hands_right ne l e = rw (hand_on, l, e, ne) (rw (==_self r.right.index) refl)

  pub hands_left :
      accepts r.right f ≡ true
      → process_frame f now x s ≡ some (s', both r to h)
      → hand_on now x r.right r.left f s ≡ some (s', out_of r.left to h)
  unfolding hand_on hear sent_on both
  hands_left l e = rw (hand_on, l, e) (rw (==_self r.left.index) refl)

-- The host behind the route request, and behind the route reply.
abbrev pub knows_one : Hop → Bytes → Bytes → ℕ → ℕ → ℕ → Bytes → Node
knows_one r a b now flag h mac = record (fresh r) { table = known (request a b flag h) mac now }

abbrev pub knows_both : Hop → Bytes → Bytes → ℕ → ℕ → ℕ → Bytes → ℕ → Bytes → Node
knows_both r a b now flag h mac k mac' = record (fresh r) {
  table = known_both (request a b flag h) mac (reply a b flag k) mac' now;
}

module _ (r : Hop) (a b : Bytes) (v : IsBetween a b r) (now : ℕ) (x : PeerInfo) (na : a ≢ [])
    (nb : b ≢ []) (ab : str_eq a b ≡ false) where
  pub handles_request :
      (flag h : ℕ) (i : ServerDetails)
      → process_frame (out_of i b_mac (request a b flag h)) now x (fresh r)
        ≡ some (knows_one r a b now flag h i.mac, both r b_mac (request a b flag (h + 1)))
  unfolding process_frame dispatch on_rreq send_rreq send_all send_packet boot populate_frame_header
      both
  handles_request flag h i =
      rw
        (
          process_frame,
          learns_one (fresh r) (request a b flag h) i.mac now refl refl na
              (not_mine r.left r.right a v.left_src v.right_src),
        )
        (rw
          (
            on_rreq,
            not_mine r.left r.right b v.left_dest v.right_dest,
            other_row (fresh r) (request a b flag h) i.mac now b nb ab,
          )
          refl)

  pub handles_reply :
      (flag h k : ℕ) (mac to : Bytes) (j : ServerDetails)
      → process_frame (out_of j to (reply a b flag k)) now x (knows_one r a b now flag h mac)
        ≡ some (knows_both r a b now flag h mac k j.mac, both r mac (reply a b flag (k + 1)))
  unfolding process_frame dispatch on_rrep send_rrep send_along send_all send_packet boot
      populate_frame_header both fill_row
  handles_reply flag h k mac to j =
      rw
        (
          process_frame,
          learns_two (knows_one r a b now flag h mac) (request a b flag h) mac now
              (reply a b flag k) j.mac refl refl nb ab
              (not_mine r.left r.right b v.left_dest v.right_dest),
        )
        (rw
          (
            on_rrep,
            not_mine r.left r.right a v.left_src v.right_src,
            send_rrep,
            row_first (fresh r) (request a b flag h) mac now (reply a b flag k) j.mac,
          )
          refl)

  pub handles_ask :
      (flag h k hops bid : ℕ) (mac mac' to : Bytes) (i : ServerDetails)
      → process_frame
          (out_of i to (ask a b hops bid))
          now
          x
          (knows_both r a b now flag h mac k mac')
        ≡ some (knows_both r a b now flag h mac k mac', both r mac' (ask a b k 1))
  unfolding process_frame learn_source dispatch on_payload send_payload send_all send_packet boot
      populate_frame_header both fill_row
  handles_ask flag h k hops bid mac mac' to i =
      rw
        (
          process_frame,
          learn_source,
          dispatch,
          on_payload,
          not_mine r.left r.right b v.left_dest v.right_dest,
          send_payload,
          row_second (fresh r) (request a b flag h) mac now (reply a b flag k) mac' ab,
        )
        refl

  pub handles_response :
      (flag h k hops bid : ℕ) (msg mac mac' to : Bytes) (j : ServerDetails)
      → process_frame
          (out_of j to (response a b msg hops bid))
          now
          x
          (knows_both r a b now flag h mac k mac')
        ≡ some (knows_both r a b now flag h mac k mac', both r mac (response a b msg h 1))
  unfolding process_frame learn_source dispatch on_payload send_payload send_all send_packet boot
      populate_frame_header both fill_row
  handles_response flag h k hops bid msg mac mac' to j =
      rw
        (
          process_frame,
          learn_source,
          dispatch,
          on_payload,
          not_mine r.left r.right a v.left_src v.right_src,
          send_payload,
          row_first (fresh r) (request a b flag h) mac now (reply a b flag k) mac',
        )
        refl
