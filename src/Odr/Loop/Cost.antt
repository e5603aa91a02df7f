-- ===== src/Odr/Loop/Cost.antt =====
-- What one request of a client costs.
use network_programming.Base.{
  ℕ, suc, ◌+◌, ◌*◌, Option, none, some, List, [], ◌∷◌, length, ◌≡◌, refl, sym, ◌∙◌, ap, arith,
  Bytes, if◌then◌else◌, Bool-cases, Option-cases, inl, inr, ◌==◌, length-append, text,
}
use mathlib.Core.Option.{some-injective}
use network_programming.Odr.Types.{
  PeerInfo, ServerDetails, ServerBuf, FrameHead, Out, Table, Row, DataType, payload_req,
}
use network_programming.Odr.Table.{init_routing_table, row_at, get_row_entry}
use network_programming.Odr.Buffer.{push_data_to_buf}
use network_programming.Odr.Send.{send_all, send_rreq, flood, send_payload, populate_frame_header}
use network_programming.Odr.Process.{Node}
use network_programming.Odr.Loop.{ask_through, ask_all, on_request}

length-send_all :
    (mac : Bytes) (h : FrameHead) (serv : List ServerDetails)
    → length (send_all mac h serv) ≡ length serv
unfolding send_all
length-send_all mac h [] = refl
length-send_all mac h (s ∷ serv) = ap suc (length-send_all mac h serv)

length-flood :
    (serv rest : List ServerDetails) (b : ℕ) (dest : Bytes) (flag : ℕ)
    → length (flood serv rest b dest flag) ≡ length rest * length serv
unfolding flood send_rreq
length-flood serv [] b dest flag = omega arith
length-flood serv (s ∷ rest) b dest flag =
    rw
      (
        length-append (send_rreq serv b 1 s.ip dest flag) (flood serv rest b dest flag),
        length-send_all,
        length-flood serv rest b dest flag,
      )
      (grind arith)

-- Frames for one interface of the loop in `main`.
abbrev pub cost : Option Row → ℕ → ℕ
cost none n = n * n
cost (some r) n = n

length-send_payload :
    (t : Table) (serv : List ServerDetails) (b : ℕ) (src dest : Bytes) (k : DataType) (msg : Bytes)
    (flag : ℕ)
    → length (send_payload t serv b src dest k msg flag)
      ≡ cost (row_at t (get_row_entry t dest)) (length serv)
unfolding send_payload
length-send_payload t serv b src dest k msg flag =
    elim (Option-cases (row_at t (get_row_entry t dest))) [
      | inl n ↦ ground (arith, length-flood serv serv b dest flag)
      | inr (r, n) ↦ ground (
        arith,
        length-send_all r.next_hop_mac
            (record (populate_frame_header src dest r.hop_count b k flag) { msg = msg }) serv,
      )
    ]

-- The table that the loop in `main` uses for a request.
abbrev pub asked_table : PeerInfo → Node → Table
asked_table p s = if p.flag == 1 then init_routing_table else s.table

ask_all-cost :
    (rest : List ServerDetails) (p : PeerInfo) (s : Node)
    → length (ask_all rest p s).1
      ≡ length rest
        * cost
            (row_at (asked_table p s) (get_row_entry (asked_table p s) p.dest_ip))
            (length s.serv)
unfolding ask_all ask_through
ask_all-cost [] p s = omega arith
ask_all-cost (iface ∷ rest) p s =
    let t = asked_table p s in
    let c = cost (row_at t (get_row_entry t p.dest_ip)) (length s.serv) in
    rw
      (
        length-append,
        length-send_payload t s.serv s.broadcast_id iface.ip p.dest_ip payload_req (text " ")
            p.flag,
        ask_all-cost rest p (record s { table = t }),
      )
      (elim (Bool-cases (p.flag == 1)) [ inl e ↦ rw e (grind arith) | inr e ↦ rw e (grind arith) ])

-- The node that the loop in `main` starts from, for a request that was pushed.
abbrev pub asking : List ServerBuf → Node → Node
asking buf s = record s {
  broadcast_id = s.broadcast_id + 1;
  packet_counter = s.packet_counter + 1;
  buffer = buf;
}

pub on_request_cases :
    (p : PeerInfo) (s : Node) {r : Node × List Out}
    → on_request p s ≡ some r
    → (buf : List ServerBuf) × (push_data_to_buf s.buffer p ≡ some buf)
      × (ask_all s.serv p (asking buf s) ≡ r)
unfolding on_request
on_request_cases p s h = elim (Option-cases (push_data_to_buf s.buffer p)) [
  | inl n ↦ absurd (ground arith)
  | inr (buf, n) ↦ (buf, n, some-injective _ _ (rw (n, on_request) at h))
]

-- A request of a client costs as many frames as the square of the number of interfaces if the table
-- that is used has a row for the destination, and the cube of it if not: the loop in `main` calls
-- `send_payload` for each interface, and that sends by every interface.
pub on_request-cost :
    (p : PeerInfo) (s : Node) {s' : Node} {outs : List Out}
    → on_request p s ≡ some (s', outs)
    → length outs
      ≡ length s.serv
        * cost
            (row_at (asked_table p s) (get_row_entry (asked_table p s) p.dest_ip))
            (length s.serv)
on_request-cost p s h =
    let (buf, _, q) = on_request_cases p s h in
    ap (λ (r : Node × List Out). length r.1) (sym q) ∙ ask_all-cost s.serv p (asking buf s)
