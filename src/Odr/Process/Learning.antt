-- ===== src/Odr/Process/Learning.antt =====
-- What a frame does to the routing table of the node that receives it.
use network_programming.Base.{
  ℕ, Bool, true, false, not, ◌&&◌, some, List, [], ◌≡◌, ◌≢◌, refl, sym, ◌∙◌, arith, Bytes, str_eq,
  if◌then◌else◌, Bool-cases, Option-cases, inl, inr, ◌⊎◌,
}
use mathlib.Core.Option
use network_programming.Odr.Types.{
  PeerInfo, FrameHead, Frame, Out, Table, is_payload, DataType, rreq, rrep, payload_req,
  payload_resp,
}
use network_programming.Odr.Table.{update_routing_table}
use network_programming.Odr.Table.Route.{IsClean, route, learn, update-IsClean}
use network_programming.Odr.Table.Update.{route-update}
use network_programming.Odr.Table.Fresh.{is_news, should_update_rt-is_news}
use network_programming.Odr.Process.{
  Node, is_mine, learn_source, on_payload, dispatch, process_frame, serve_request, deliver_response,
  at_destination,
}

-- The node takes the frame as news of its source: it is an RREQ or RREP of another node, and better
-- than the route that is held.
abbrev pub takes : FrameHead → Node → Bool
takes header s =
    not (is_payload header.kind)
    && (is_news (route s.table header.src_ip) header && not (is_mine header.src_ip s.serv))

-- The handlers behind the dispatch leave the table alone.
pub deliver_response-table : (h : FrameHead) (s : Node) → (deliver_response h s).0.table ≡ s.table
unfolding deliver_response
deliver_response-table h s = ground arith

pub at_destination-table :
    (k : DataType) (h : FrameHead) (answer : PeerInfo) (s : Node)
    → (at_destination k h answer s).0.table ≡ s.table
unfolding at_destination serve_request
at_destination-table payload_req h answer s = refl
at_destination-table _ h answer s = deliver_response-table h s

pub on_payload-table :
    (h : FrameHead) (answer : PeerInfo) (s : Node) → (on_payload h answer s).0.table ≡ s.table
unfolding on_payload
on_payload-table h answer s = ground (arith, at_destination-table h.kind h answer s)

pub dispatch-table :
    (k : DataType) (h : FrameHead) (u : Bool) (answer : PeerInfo) (s : Node) {s' : Node}
    {outs : List Out}
    → dispatch k h u answer s ≡ some (s', outs)
    → s'.table ≡ s.table
unfolding dispatch
dispatch-table rreq h u answer s e = ground (arith)
dispatch-table rrep h u answer s e = ground arith
dispatch-table payload_req h u answer s e = ground (arith, on_payload-table h answer s)
dispatch-table payload_resp h u answer s e = ground (arith, on_payload-table h answer s)

-- What `learn_source` returns.
pub learn_source-takes :
    (h : FrameHead) (mac : Bytes) (now : ℕ) (s : Node)
    → learn_source h mac now s ≡ (
        if takes h s
        then Option.map (λ t. (t, true)) (update_routing_table s.table h mac now)
        else some (s.table, false))
unfolding learn_source
learn_source-takes h mac now s = rw (should_update_rt-is_news s.table h)

-- A frame that is handled has gone through these two steps.
pub record Handled (f : Frame) (now : ℕ) (answer : PeerInfo) (s s' : Node) (outs : List Out)
    : Type 0 where
  pub learned : Table
  pub update : Bool
  pub learns : learn_source f.header f.src_mac now s ≡ some (learned, update)
  pub dispatched :
      dispatch f.header.kind f.header update answer (record s { table = learned }) ≡ some (s', outs)

pub process_frame-Handled :
    (f : Frame) (now : ℕ) (answer : PeerInfo) (s : Node) {s' : Node} {outs : List Out}
    → process_frame f now answer s ≡ some (s', outs)
    → Handled f now answer s s' outs
unfolding process_frame
process_frame-Handled f now answer s h =
    elim (Option-cases (learn_source f.header f.src_mac now s)) [
      | inl n ↦ absurd (ground arith)
      | inr (a, e) ↦ record {
        learned = a.0;
        update = a.1;
        learns = e;
        dispatched = rw (e, process_frame) at h;
      }
    ]

-- The table that is learned: by an update if the frame is taken, else as it was.
pub learned_cases :
    (h : FrameHead) (mac : Bytes) (now : ℕ) (s : Node) {t : Table} {u : Bool}
    → learn_source h mac now s ≡ some (t, u)
    → (takes h s ≡ true) × (u ≡ true) × (update_routing_table s.table h mac now ≡ some t)
      ⊎ (takes h s ≡ false) × (u ≡ false) × (t ≡ s.table)
learned_cases h mac now s e =
    let q = sym (learn_source-takes h mac now s) ∙ e in
    elim (Bool-cases (takes h s)) [
      | inl y ↦ elim (Option-cases (update_routing_table s.table h mac now)) [
        | inl m ↦ absurd (ground arith)
        | inr (t', m) ↦ inl (y, ground arith, ground arith)
      ]
      | inr y ↦ inr (y, ground arith, ground arith)
    ]

-- Handling a frame changes the route to its source, if the frame is taken, to what `learn` gives,
-- and no route to another address but the empty one; a frame that is not taken changes none. It is
-- assumed that rows that are not filled hold no destination.
pub process_frame-route :
    (f : Frame) (now : ℕ) (answer : PeerInfo) (s : Node) (ip : Bytes) {s' : Node} {outs : List Out}
    → IsClean s.table
    → ip ≢ []
    → process_frame f now answer s ≡ some (s', outs)
    → route s'.table ip ≡ (
        if takes f.header s && str_eq f.header.src_ip ip
        then some (learn (route s.table f.header.src_ip) f.header f.src_mac)
        else route s.table ip)
process_frame-route f now answer s ip {s'} c ne h =
    let r = process_frame-Handled f now answer s h in
    let e =
      dispatch-table _ f.header r.update answer (record s { table = r.learned }) r.dispatched in
    elim (learned_cases f.header f.src_mac now s r.learns) [
      | inl (y, _, m) ↦ rw (e, route-update s.table f.header f.src_mac now ip c ne m, y)
      | inr (y, _, m) ↦ rw (e, m, y)
    ]

-- Handling a frame keeps the rows that are not filled free of destinations.
pub process_frame-IsClean :
    (f : Frame) (now : ℕ) (answer : PeerInfo) (s : Node) {s' : Node} {outs : List Out}
    → IsClean s.table
    → process_frame f now answer s ≡ some (s', outs)
    → IsClean s'.table
process_frame-IsClean f now answer s {s'} c h =
    let r = process_frame-Handled f now answer s h in
    let e =
      dispatch-table _ f.header r.update answer (record s { table = r.learned }) r.dispatched in
    elim (learned_cases f.header f.src_mac now s r.learns) [
      | inl (_, _, m) ↦ rw e (update-IsClean s.table f.header f.src_mac now c m)
      | inr (_, _, m) ↦ rw (e, m) c
    ]
