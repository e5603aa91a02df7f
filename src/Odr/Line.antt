-- ===== src/Odr/Line.antt =====
-- Hosts in a line, each on one link with the next: the client is at one end and the time server that
-- it asks is at the other. A link carries each frame to the host at its other end; the copies of a
-- frame that leave a host the way it came are not followed.
pub mod Relays
pub mod Pass
pub mod Across
pub mod Exchange
use network_programming.Base.{
  ◌>>=◌, ℕ, Bool, ◌||◌, Option, none, some, List, [], ◌∷◌, ◌==◌, if◌then◌else◌, Bytes, str_eq,
}
use network_programming.Odr.Types.{PeerInfo, ServerDetails, Frame, Out, frame, datagram}
use network_programming.Odr.Send.{b_mac}
use network_programming.Odr.Process.{Node, process_frame}
use network_programming.Odr.Loop.{boot, on_request}

-- A host between the two ends, with its interface on either side.
pub record Relay : Type 0 where
  pub left : ServerDetails
  pub right : ServerDetails
  pub node : Node

-- An interface hands up the frames that are for it, and the broadcasts.
abbrev pub accepts : ServerDetails → Frame → Bool
accepts i f = str_eq f.dest_mac i.mac || str_eq f.dest_mac b_mac

-- The frame that goes out of the interface with a number.
unfoldable pub sent_on : ℕ → List Out → Option Frame
sent_on k [] = none
sent_on k (frame f ∷ outs) = if f.if_index == k then some f else sent_on k outs
sent_on k (datagram path p ∷ outs) = sent_on k outs

module _ (now : ℕ) (answer : PeerInfo) where
  -- A frame arrives at an interface.
  unfoldable pub hear : ServerDetails → Frame → Node → Option (Node × List Out)
  hear i f s = if accepts i f then process_frame f now answer s else none

  -- A frame goes in at one interface of a host, and what the host makes of it out of another.
  unfoldable pub hand_on : ServerDetails → ServerDetails → Frame → Node → Option (Node × Frame)
  unfolding hear
  hand_on i o f s = hear i f s >>= λ r. sent_on o.index r.1 >>= λ g. some (r.0, g)

  unfoldable pub to_right : List Relay → Frame → Option (List Relay × Frame)
  to_right [] f = some ([], f)
  to_right (r ∷ rs) f = hand_on r.left r.right f r.node >>= λ s.
      to_right rs s.1 >>= λ t. some (record r { node = s.0 } ∷ t.0, t.1)

  unfoldable pub to_left : List Relay → Frame → Option (List Relay × Frame)
  to_left [] f = some ([], f)
  to_left (r ∷ rs) f = to_left rs f >>= λ t.
      hand_on r.right r.left t.1 r.node >>= λ s. some (record r { node = s.0 } ∷ t.0, s.1)

  -- A frame from host `a` to host `b`, and what `b` makes of it back to `a`.
  unfoldable pub there_and_back :
      ServerDetails
      → ServerDetails
      → List Relay
      → Node
      → Node
      → List Out
      → Option (List Relay × Node × Node × List Out)
  there_and_back a b rs s t outs = do
    f ← sent_on a.index outs
    r ← to_right rs f
    u ← hear b r.1 t
    g ← sent_on b.index u.1
    q ← to_left r.0 g
    v ← hear a q.1 s
    some (q.0, v.0, u.0, v.1)

  -- The request of a client of `a`: a route request that is answered with a route reply, then a
  -- payload that is answered with another one. The result is what `a` sends in the end.
  unfoldable pub time_exchange :
      ServerDetails → ServerDetails → List Relay → Bytes → Bytes → PeerInfo → Option (List Out)
  time_exchange a b rs host_a host_b p = do
    s ← on_request p (boot (a ∷ []) host_a)
    x ← there_and_back a b rs s.0 (boot (b ∷ []) host_b) s.1
    y ← there_and_back a b x.0 x.1 x.2 x.3
    some y.3
