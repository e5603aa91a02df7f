-- ===== src/Odr/Loop/Reach.antt =====
-- What holds of a node after any run of the event loop.
use network_programming.Base.{
  ℕ, Bool, some, List, [], ◌∷◌, ◌++◌, length, get_elem?, ◌⊎◌, find_index, ◌≡◌, refl, subst, sym,
  ◌∙◌, ap, arith, Bytes, Option-cases, inl, inr, length-set, length-replicate,
}
use mathlib.Core.Option.{some-injective}
use network_programming.Odr.Types.{
  rreq, rrep, payload_resp, PeerInfo, ServerDetails, ServerBuf, Frame, FrameHead, Out, Table,
  DataType, payload_req, routing_table_size, buffer_size, zero_row, zero_buf,
}
use network_programming.Odr.Table.{init_routing_table, update_routing_table}
use network_programming.Odr.Table.Route.{IsClean, init-IsClean, update_cases}
use network_programming.Odr.Table.Once.{IsOnce, init-IsOnce, update-IsOnce}
use network_programming.Odr.Buffer.{push_data_to_buf, init_buffer, awaits, vacate, is_vacant}
use network_programming.Odr.Process.{
  Node, process_frame, dispatch, on_payload, at_destination, serve_request, deliver_response,
}
use network_programming.Odr.Process.Learning.{
  process_frame-IsClean, process_frame-Handled, learned_cases, dispatch-table,
}
use network_programming.Odr.Loop.{
  Event, packet, request, stale, boot, ask_through, ask_all, step, run,
}
use network_programming.Odr.Loop.Cost.{asked_table, asking, on_request_cases}

-- What holds between two events.
pub record IsValid (s : Node) : Type 0 where
  pub rows : length s.table ≡ routing_table_size
  pub entries : length s.buffer ≡ buffer_size
  pub clean : IsClean s.table
  pub once : IsOnce s.table

pub boot-IsValid : (serv : List ServerDetails) (hostname : Bytes) → IsValid (boot serv hostname)
unfolding boot init_routing_table init_buffer
boot-IsValid serv hostname = record {
  rows = length-replicate routing_table_size zero_row;
  entries = length-replicate buffer_size zero_buf;
  clean = init_clean;
  once = init-IsOnce;
}
  where
    init_clean : IsClean init_routing_table
    init_clean = init-IsClean

update-rows :
    (t : Table) (h : FrameHead) (mac : Bytes) (now : ℕ) {u : Table}
    → update_routing_table t h mac now ≡ some u
    → length u ≡ length t
update-rows t h mac now e = elim (update_cases t h mac now e) [
  | inl f ↦ rw f.result (length-set t f.index _)
  | inr f ↦ rw f.result (length-set t f.index _)
]

deliver_response-entries :
    (h : FrameHead) (s : Node) → length (deliver_response h s).0.buffer ≡ length s.buffer
unfolding deliver_response
deliver_response-entries h s = elim (Option-cases (find_index (awaits h.src_ip) s.buffer)) [
  | inl n ↦ ground arith
  | inr (i, n) ↦ elim (Option-cases (get_elem? s.buffer i)) [
    | inl m ↦ ground arith
    | inr (b, m) ↦ ground (arith, length-set s.buffer i (vacate b))
  ]
]

on_payload-entries :
    (h : FrameHead) (a : PeerInfo) (s : Node) → length (on_payload h a s).0.buffer ≡ length s.buffer
unfolding on_payload at_destination serve_request
on_payload-entries h a s = ground (arith, deliver_response-entries h s)

dispatch-entries :
    (k : DataType) (h : FrameHead) (u : Bool) (a : PeerInfo) (s : Node) {s' : Node}
    {outs : List Out}
    → dispatch k h u a s ≡ some (s', outs)
    → length s'.buffer ≡ length s.buffer
unfolding dispatch
dispatch-entries rreq h u a s e = ground arith
dispatch-entries rrep h u a s e = ground arith
dispatch-entries payload_req h u a s e = ground (arith, on_payload-entries h a s)
dispatch-entries payload_resp h u a s e = ground (arith, on_payload-entries h a s)

process_frame-IsValid :
    (f : Frame) (now : ℕ) (a : PeerInfo) (s : Node) {s' : Node} {outs : List Out}
    → IsValid s
    → process_frame f now a s ≡ some (s', outs)
    → IsValid s'
process_frame-IsValid f now a s v h =
    let r = process_frame-Handled f now a s h in
    let t = dispatch-table _ f.header r.update a (record s { table = r.learned }) r.dispatched in
    let b = dispatch-entries _ f.header r.update a (record s { table = r.learned }) r.dispatched in
    record {
      rows = rw t (elim (learned_cases f.header f.src_mac now s r.learns) [
        | inl (_, _, m) ↦ update-rows s.table f.header f.src_mac now m ∙ v.rows
        | inr (_, _, m) ↦ rw m v.rows
      ]);
      entries = b ∙ v.entries;
      clean = process_frame-IsClean f now a s v.clean h;
      once = rw t (elim (learned_cases f.header f.src_mac now s r.learns) [
        | inl (_, _, m) ↦ update-IsOnce s.table f.header f.src_mac now v.once m
        | inr (_, _, m) ↦ rw m v.once
      ]);
    }

ask_all-table :
    (rest : List ServerDetails) (p : PeerInfo) (s : Node)
    → ((ask_all rest p s).0.table ≡ s.table) ⊎ ((ask_all rest p s).0.table ≡ init_routing_table)
unfolding ask_all ask_through
ask_all-table [] p s = inl refl
ask_all-table (iface ∷ rest) p s =
    ground (arith, ask_all-table rest p (record s { table = asked_table p s }))

ask_all-buffer :
    (rest : List ServerDetails) (p : PeerInfo) (s : Node) → (ask_all rest p s).0.buffer ≡ s.buffer
unfolding ask_all ask_through
ask_all-buffer [] p s = refl
ask_all-buffer (iface ∷ rest) p s = ask_all-buffer rest p (record s { table = asked_table p s })

push-entries :
    (bs : List ServerBuf) (p : PeerInfo) {cs : List ServerBuf}
    → push_data_to_buf bs p ≡ some cs
    → length cs ≡ length bs
unfolding push_data_to_buf
push-entries bs p h = elim (Option-cases (find_index is_vacant bs)) [
  | inl n ↦ absurd (ground arith)
  | inr (i, n) ↦ ground (arith, length-set bs i (record { peer_info = p; count = 1 }))
]

length-init : length init_routing_table ≡ routing_table_size
unfolding init_routing_table
length-init = length-replicate routing_table_size zero_row

table-IsValid :
    (s s' : Node)
    → IsValid s
    → (s'.table ≡ s.table) ⊎ (s'.table ≡ init_routing_table)
    → length s'.buffer ≡ length s.buffer
    → IsValid s'
table-IsValid s s' v (inl e) b = record {
  rows = rw e v.rows;
  entries = b ∙ v.entries;
  clean = rw e v.clean;
  once = rw e v.once;
}
table-IsValid s s' v (inr e) b = record {
  rows = ap length e ∙ length-init;
  entries = b ∙ v.entries;
  clean = rw e init-IsClean;
  once = rw e init-IsOnce;
}

-- Every event that is handled keeps the node valid.
pub step-IsValid :
    (e : Event) (s : Node) {s' : Node} {outs : List Out}
    → IsValid s
    → step e s ≡ some (s', outs)
    → IsValid s'
unfolding step
step-IsValid (packet f now a) s v h = process_frame-IsValid f now a s v h
step-IsValid (request p) s {s'} v h =
    let (buf, b, q) = on_request_cases p s h in
    table-IsValid s s' v
      (subst (λ (r : Node × List Out). (r.0.table ≡ s.table) ⊎ (r.0.table ≡ init_routing_table)) q
        (ask_all-table s.serv p (asking buf s)))
      (ap (λ (r : Node × List Out). length r.0.buffer) (sym q)
        ∙ ap length (ask_all-buffer s.serv p (asking buf s))
        ∙ push-entries s.buffer p b)
step-IsValid stale s {s'} v h = table-IsValid s s' v (inr (ground arith)) (ground arith)

-- The parts of a run that is handled.
pub run_cases :
    (e : Event) (es : List Event) (s : Node) {s'' : Node} {outs : List Out}
    → run (e ∷ es) s ≡ some (s'', outs)
    → (s' : Node) × (out : List Out) × (more : List Out) × (step e s ≡ some (s', out))
      × (run es s' ≡ some (s'', more))
      × (outs ≡ out ++ more)
unfolding run
run_cases e es s h = elim (Option-cases (step e s)) [
  | inl n ↦ absurd (ground arith)
  | inr ((s', out), n) ↦ elim (Option-cases (run es s')) [
    | inl m ↦ absurd (ground arith)
    | inr ((s'', more), m) ↦ (s', out, more, n, ground arith, ground arith)
  ]
]

events-IsValid :
    (es : List Event) (s : Node) {s' : Node} {outs : List Out}
    → IsValid s
    → run es s ≡ some (s', outs)
    → IsValid s'
unfolding run
events-IsValid [] s v h =
    subst IsValid (ap (λ (r : Node × List Out). r.0) (some-injective (s, []) _ h)) v
events-IsValid (e ∷ es) s v h =
    let (s', out, more, p, q, _) = run_cases e es s h in
    events-IsValid es s' (step-IsValid e s v p) q

-- After every run of events that a booted node handles to its end, however it was booted, the routing
-- table has its 100 rows and the buffer its 100 entries, and no row that is not filled has a
-- destination, and no two filled rows have the same destination.
pub run-IsValid :
    (serv : List ServerDetails) (hostname : Bytes) (es : List Event) {s' : Node} {outs : List Out}
    → run es (boot serv hostname) ≡ some (s', outs)
    → IsValid s'
run-IsValid serv hostname es = events-IsValid es (boot serv hostname) (boot-IsValid serv hostname)
