-- ===== src/Odr/Process/Replies.antt =====
-- When the handler of a frame stays inside the routing table: route requests do, route replies do
-- not.
use network_programming.Base.{
  ℕ, ◌+◌, Bool, true, false, none, some, List, [], ◌∷◌, find_index, ◌≡◌, refl, arith, Bytes,
  Option-cases, inl, inr, is_some, get_elem?-find_index, find-none,
}
use network_programming.Odr.Types.{PeerInfo, ServerDetails, FrameHead, Frame, Table, rreq, rrep}
use network_programming.Odr.Table.{leads_to, get_row_entry, row_at}
use network_programming.Odr.Table.Route.{route, view?}
use network_programming.Odr.Table.Update.{route-update_self}
use network_programming.Odr.Send.{send_along, send_rrep}
use network_programming.Odr.Process.{
  Node, is_mine, learn_source, on_rreq, on_rrep, dispatch, process_frame,
}
use network_programming.Odr.Process.Learning.{learned_cases}

row_at-route : (t : Table) (ip : Bytes) → view? (row_at t (get_row_entry t ip)) ≡ route t ip
row_at-route t ip = elim (Option-cases (find_index (leads_to ip) t)) [
  | inl n ↦ rw (n, find-none (leads_to ip) t n)
  | inr (i, e) ↦ rw (e, get_elem?-find_index (leads_to ip) t i e)
]

send_rrep-is_some :
    (t : Table) (serv : List ServerDetails) (b hops : ℕ) (dest src : Bytes)
    → is_some (route t dest) ≡ true
    → is_some (send_rrep t serv b hops dest src) ≡ true
unfolding send_rrep send_along
send_rrep-is_some t [] b hops dest src h = refl
send_rrep-is_some t (s ∷ serv) b hops dest src h = ground (arith, row_at-route t dest)

send_rrep-none :
    (t : Table) (s : ServerDetails) (serv : List ServerDetails) (b hops : ℕ) (dest src : Bytes)
    → route t dest ≡ none
    → send_rrep t (s ∷ serv) b hops dest src ≡ none
unfolding send_rrep send_along
send_rrep-none t s serv b hops dest src h = ground (arith, row_at-route t dest)

-- After a node has learned from an RREQ of another node it has a route back to its source.
route_back :
    (h : FrameHead) (mac : Bytes) (now : ℕ) (s : Node) {t : Table} {u : Bool}
    → h.kind ≡ rreq
    → is_mine h.src_ip s.serv ≡ false
    → learn_source h mac now s ≡ some (t, u)
    → is_some (route t h.src_ip) ≡ true
route_back h mac now s k m e = elim (learned_cases h mac now s e) [
  | inl (y, _, v) ↦ rw (route-update_self s.table h mac now v)
  | inr (y, _, v) ↦ ground arith
]

on_rreq-is_some :
    (h : FrameHead) (u : Bool) (s : Node)
    → is_some (route s.table h.src_ip) ≡ true
    → is_some (on_rreq h u s) ≡ true
unfolding on_rreq
on_rreq-is_some h u s e =
    ground (arith, send_rrep-is_some s.table s.serv h.bc_id 1 h.src_ip h.dest_ip)

-- An RREQ of another node never makes the handler leave the routing table, if learning from it does
-- not: it is handled.
rreq_handled :
    (f : Frame) (now : ℕ) (answer : PeerInfo) (s : Node)
    → f.header.kind ≡ rreq
    → is_mine f.header.src_ip s.serv ≡ false
    → is_some (learn_source f.header f.src_mac now s) ≡ true
    → is_some (process_frame f now answer s) ≡ true
unfolding process_frame dispatch
rreq_handled f now answer s k m l = elim (Option-cases (learn_source f.header f.src_mac now s)) [
  | inl n ↦ ground arith
  | inr (a, e) ↦ ground (
    arith,
    route_back f.header f.src_mac now s k m e,
    on_rreq-is_some f.header a.1 (record s { table = a.0 }),
  )
]

-- An RREP for another node, to which there is no route after learning, reads row -1 of the table,
-- on every node that has an interface.
pub rrep_without_route :
    (f : Frame) (now : ℕ) (answer : PeerInfo) (s : Node) (i : ServerDetails)
    (rest : List ServerDetails) (t : Table) (u : Bool)
    → s.serv ≡ i ∷ rest
    → f.header.kind ≡ rrep
    → is_mine f.header.dest_ip s.serv ≡ false
    → learn_source f.header f.src_mac now s ≡ some (t, u)
    → route t f.header.dest_ip ≡ none
    → process_frame f now answer s ≡ none
unfolding process_frame dispatch on_rrep
rrep_without_route f now answer s i rest t u v k m l r = ground (
  arith,
  send_rrep-none t i rest f.header.bc_id (f.header.hop_count + 1) f.header.dest_ip f.header.src_ip
      r,
)
