-- ===== src/Odr/Loop/Counter.antt =====
-- The broadcast id counts the requests of clients, and the interfaces never change.
use network_programming.Base.{ℕ, Bool, ◌+◌, some, List, [], ◌∷◌, ◌≡◌, refl, ◌∙◌, arith}
use network_programming.Odr.Types.{
  PeerInfo, ServerDetails, FrameHead, Out, DataType, rreq, rrep, payload_req, payload_resp,
}
use network_programming.Odr.Process.{
  Node, dispatch, on_payload, at_destination, serve_request, deliver_response,
}
use network_programming.Odr.Process.Learning.{process_frame-Handled}
use network_programming.Odr.Loop.{Event, packet, request, stale, ask_through, ask_all, step, run}
use network_programming.Odr.Loop.Cost.{asked_table, asking, on_request_cases}
use network_programming.Odr.Loop.Reach.{run_cases}

abbrev pub requests : List Event → ℕ
requests [] = 0
requests (packet f now a ∷ es) = requests es
requests (request p ∷ es) = requests es + 1
requests (stale ∷ es) = requests es

-- What frames and timeouts leave alone.
abbrev Same : Node → Node → Type 0
Same s s' =
    (s'.broadcast_id ≡ s.broadcast_id)
    × (s'.packet_counter ≡ s.packet_counter)
    × (s'.serv ≡ s.serv)
    × (s'.hostname ≡ s.hostname)

on_payload-Same : (h : FrameHead) (a : PeerInfo) (s : Node) → Same s (on_payload h a s).0
unfolding on_payload at_destination serve_request deliver_response
on_payload-Same h a s = ground arith

dispatch-Same :
    (k : DataType) (h : FrameHead) (u : Bool) (a : PeerInfo) (s : Node) {s' : Node}
    {outs : List Out}
    → dispatch k h u a s ≡ some (s', outs)
    → Same s s'
unfolding dispatch
dispatch-Same rreq h u a s e = ground arith
dispatch-Same rrep h u a s e = ground arith
dispatch-Same payload_req h u a s e = ground (arith, on_payload-Same h a s)
dispatch-Same payload_resp h u a s e = ground (arith, on_payload-Same h a s)

ask_all-Same : (rest : List ServerDetails) (p : PeerInfo) (s : Node) → Same s (ask_all rest p s).0
unfolding ask_all ask_through
ask_all-Same [] p s = (refl, refl, refl, refl)
ask_all-Same (iface ∷ rest) p s = ask_all-Same rest p (record s { table = asked_table p s })

step_counts :
    (e : Event) (s : Node) {s' : Node} {outs : List Out}
    → step e s ≡ some (s', outs)
    → (s'.broadcast_id ≡ s.broadcast_id + requests (e ∷ []))
      × (s'.packet_counter ≡ s.packet_counter + requests (e ∷ []))
      × (s'.serv ≡ s.serv)
unfolding step
step_counts (packet f now a) s h =
    let r = process_frame-Handled f now a s h in
    ground (
      arith,
      dispatch-Same f.header.kind f.header r.update a (record s { table = r.learned }) r.dispatched,
    )
step_counts (request p) s h =
    let (buf, _, q) = on_request_cases p s h in
    ground (arith, ask_all-Same s.serv p (asking buf s), q)
step_counts stale s h = ground arith

requests-cons : (e : Event) (es : List Event) → requests (e ∷ es) ≡ requests (e ∷ []) + requests es
requests-cons (packet f now a) es = omega arith
requests-cons (request p) es = omega arith
requests-cons stale es = omega arith

-- After any run of events that is handled to its end the broadcast id has grown by the number of
-- requests of clients in it, and the node has the interfaces that it started with.
run-broadcast_id :
    (es : List Event) (s : Node) {s' : Node} {outs : List Out}
    → run es s ≡ some (s', outs)
    → (s'.broadcast_id ≡ s.broadcast_id + requests es) × (s'.serv ≡ s.serv)
unfolding run
run-broadcast_id [] s h = ground arith
run-broadcast_id (e ∷ es) s h =
    let (s', out, more, p, q, _) = run_cases e es s h in
    let c = step_counts e s p in
    let d = run-broadcast_id es s' q in (omega (arith, c.0, d.0, requests-cons e es), d.1 ∙ c.2)
