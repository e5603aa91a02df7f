-- ===== src/Odr/Process/Flood.antt =====
-- Route requests on the packet socket: which frames make a node send them, how many, and that one
-- request does not go round for ever.
use network_programming.Base.{
  ℕ, ◌+◌, Bool, true, false, not, ◌&&◌, Option, none, some, List, [], ◌∷◌, ◌++◌, length, ◌≡◌, refl,
  sym, subst, ◌∙◌, ap, arith, Bytes, if◌then◌else◌, Bool-cases, Option-cases, inl, inr, ◌⊎◌,
  is_some,
}
use mathlib.Core.Option
use mathlib.Core.Option.{some-injective}
use network_programming.Odr.Types.{
  PeerInfo, ServerDetails, FrameHead, Frame, Out, frame, datagram, Table, Row, DataType, rreq, rrep,
  payload_req, payload_resp,
}
use network_programming.Odr.Table.{get_row_entry, should_update_rt, update_routing_table}
use network_programming.Odr.Table.Fresh.{should_update_rt-is_news, should_update_rt-twice}
use network_programming.Odr.Send.{
  send_packet, send_all, send_rreq, send_along, send_rrep, populate_frame_header,
}
use network_programming.Odr.Process.{Node, is_mine, on_rreq, dispatch, process_frame}
use network_programming.Odr.Process.Learning.{takes, process_frame-Handled, learned_cases}

abbrev pub is_rreq : DataType → Bool
is_rreq rreq = true
is_rreq rrep = false
is_rreq payload_req = false
is_rreq payload_resp = false

-- How many of the frames sent are route requests.
abbrev pub count_rreq : List Out → ℕ
count_rreq [] = 0
count_rreq (frame f ∷ outs) = if is_rreq f.header.kind then count_rreq outs + 1 else count_rreq outs
count_rreq (datagram path p ∷ outs) = count_rreq outs

pub count_rreq-append : (xs ys : List Out) → count_rreq (xs ++ ys) ≡ count_rreq xs + count_rreq ys
count_rreq-append [] ys = omega arith
count_rreq-append (frame f ∷ xs) ys = ground (arith, count_rreq-append xs ys)
count_rreq-append (datagram path p ∷ xs) ys = count_rreq-append xs ys

count_rreq-send_all :
    (mac : Bytes) (h : FrameHead) (serv : List ServerDetails)
    → count_rreq (send_all mac h serv) ≡ (if is_rreq h.kind then length serv else 0)
unfolding send_all send_packet
count_rreq-send_all mac h [] = ground arith
count_rreq-send_all mac h (s ∷ serv) = ground (arith, count_rreq-send_all mac h serv)

pub count_rreq-send_rreq :
    (serv : List ServerDetails) (b hops : ℕ) (src dest : Bytes) (flag : ℕ)
    → count_rreq (send_rreq serv b hops src dest flag) ≡ length serv
unfolding send_rreq populate_frame_header
count_rreq-send_rreq serv b hops src dest flag = count_rreq-send_all _ _ serv

-- The frames of `send_along` all go to one address.
send_along-send_all :
    (r : Option Row) (h : FrameHead) (sv : List ServerDetails) {outs : List Out}
    → send_along r h sv ≡ some outs
    → (mac : Bytes) × (outs ≡ send_all mac h sv)
unfolding send_along send_all
send_along-send_all none h [] e = ([], ground arith)
send_along-send_all none h (s ∷ sv) e = absurd (ground arith)
send_along-send_all (some r) h [] e = ([], ground arith)
send_along-send_all (some r) h (s ∷ sv) e = (r.next_hop_mac, ground arith)

-- Route replies are no route requests.
pub count_rreq-send_rrep :
    (t : Table) (serv : List ServerDetails) (b hops : ℕ) (dest src : Bytes) {outs : List Out}
    → send_rrep t serv b hops dest src ≡ some outs
    → count_rreq outs ≡ 0
unfolding send_rrep populate_frame_header
count_rreq-send_rrep t serv b hops dest src e =
    let (mac, q) = send_along-send_all _ _ serv e in rw q (count_rreq-send_all mac _ serv)

-- Whether an RREQ makes the node send it on, `update` telling whether the table took it.
abbrev pub refloods : FrameHead → Bool → Node → Bool
refloods h update s =
    not (is_mine h.dest_ip s.serv) && (not (is_some (get_row_entry s.table h.dest_ip)) && update)

-- The two parts of what the handler of an RREQ sends.
abbrev forwards : FrameHead → Bool → Node → List Out
forwards h u s =
    if refloods h u s
    then send_rreq s.serv h.bc_id (h.hop_count + 1) h.src_ip h.dest_ip h.force_flag
    else []

abbrev replies : FrameHead → Node → Option (List Out)
replies h s =
    if is_mine h.dest_ip s.serv
    then send_rrep s.table s.serv h.bc_id 1 h.src_ip h.dest_ip
    else if is_some (get_row_entry s.table h.dest_ip)
    then send_rrep s.table s.serv h.bc_id 1 h.src_ip h.dest_ip
    else some []

count_rreq-forwards :
    (h : FrameHead) (u : Bool) (s : Node)
    → count_rreq (forwards h u s) ≡ (if refloods h u s then length s.serv else 0)
count_rreq-forwards h u s =
    ground
      (arith, count_rreq-send_rreq s.serv h.bc_id (h.hop_count + 1) h.src_ip h.dest_ip h.force_flag)

count_rreq-replies :
    (h : FrameHead) (s : Node) {outs : List Out} → replies h s ≡ some outs → count_rreq outs ≡ 0
count_rreq-replies h s e = elim (Bool-cases (is_mine h.dest_ip s.serv)) [
  | inl m ↦ count_rreq-send_rrep s.table s.serv h.bc_id 1 h.src_ip h.dest_ip (rw m at e)
  | inr m ↦ elim (Bool-cases (is_some (get_row_entry s.table h.dest_ip))) [
    | inl k ↦ count_rreq-send_rrep s.table s.serv h.bc_id 1 h.src_ip h.dest_ip (rw (m, k) at e)
    | inr k ↦ ground arith
  ]
]

pub count_rreq-on_rreq :
    (h : FrameHead) (u : Bool) (s : Node) {outs : List Out}
    → on_rreq h u s ≡ some outs
    → count_rreq outs ≡ (if refloods h u s then length s.serv else 0)
unfolding on_rreq
count_rreq-on_rreq h u s {outs} e = elim (Option-cases (replies h s)) [
  | inl n ↦ absurd (ground arith)
  | inr (more, n) ↦
      let q : outs ≡ forwards h u s ++ more =
        sym (some-injective _ _ (ap (Option.map (λ xs. forwards h u s ++ xs)) (sym n) ∙ e)) in
      rw (q, count_rreq-append, count_rreq-forwards, count_rreq-replies h s n) (omega arith)
]

dispatch-rreq :
    (k : DataType) (h : FrameHead) (u : Bool) (answer : PeerInfo) (s : Node) {s' : Node}
    {outs : List Out}
    → k ≡ rreq
    → dispatch k h u answer s ≡ some (s', outs)
    → (s' ≡ s) × (on_rreq h u s ≡ some outs)
unfolding dispatch
dispatch-rreq k h u answer s q e = elim (Option-cases (on_rreq h u s)) [
  | inl n ↦ absurd (ground arith)
  | inr (outs, n) ↦ ground arith
]

-- A node that handles an RREQ sends route requests exactly if it takes the frame, is not its
-- destination and then has no row for the destination: one request for each interface.
count_rreq-process_frame :
    (f : Frame) (now : ℕ) (answer : PeerInfo) (s : Node) {s' : Node} {outs : List Out}
    → f.header.kind ≡ rreq
    → process_frame f now answer s ≡ some (s', outs)
    → count_rreq outs ≡ (if refloods f.header (takes f.header s) s' then length s.serv else 0)
count_rreq-process_frame f now answer s {s'} k h =
    let r = process_frame-Handled f now answer s h in
    let (e, o) =
      dispatch-rreq f.header.kind f.header r.update answer (record s { table = r.learned }) k
        r.dispatched in
    rw (e, count_rreq-on_rreq f.header r.update (record s { table = r.learned }) o)
      (elim (learned_cases f.header f.src_mac now s r.learns) [
        | inl (y, u, m) ↦ rw (y, u)
        | inr (y, u, m) ↦ rw (y, u)
      ])

-- How an RREQ leaves the table: updated if it was taken, or the same.
abbrev Learned : FrameHead → Bytes → ℕ → Node → Node → Type 0
Learned h mac now s s' =
    (takes h s ≡ true) × (update_routing_table s.table h mac now ≡ some s'.table)
    ⊎ (takes h s ≡ false) × (s'.table ≡ s.table)

rreq-Learned :
    (f : Frame) (now : ℕ) (answer : PeerInfo) (s : Node) {s' : Node} {outs : List Out}
    → f.header.kind ≡ rreq
    → process_frame f now answer s ≡ some (s', outs)
    → (s'.serv ≡ s.serv) × Learned f.header f.src_mac now s s'
rreq-Learned f now answer s {s'} k h =
    let r = process_frame-Handled f now answer s h in
    let (e, _) =
      dispatch-rreq f.header.kind f.header r.update answer (record s { table = r.learned }) k
        r.dispatched in
    rw e (
      refl,
      elim (learned_cases f.header f.src_mac now s r.learns) [
        | inl (y, u, m) ↦ inl (y, m)
        | inr (y, u, m) ↦ inr (y, m)
      ],
    )

takes_same :
    (h : FrameHead) (s s' : Node) → s'.serv ≡ s.serv → s'.table ≡ s.table → takes h s' ≡ takes h s
takes_same h s s' p q = rw (p, q)

not_taken_of_old :
    (h : FrameHead) (s : Node) → should_update_rt s.table h ≡ false → takes h s ≡ false
not_taken_of_old h s e = ground (arith, should_update_rt-is_news s.table h)

no_third :
    (h : FrameHead) (mac mac' : Bytes) (now now' : ℕ) (s s₁ s₂ : Node)
    → s₁.serv ≡ s.serv
    → s₂.serv ≡ s₁.serv
    → Learned h mac now s s₁
    → Learned h mac' now' s₁ s₂
    → takes h s₂ ≡ false
no_third h mac mac' now now' s s₁ s₂ v₁ v₂ c₁ (inr (n, e)) = takes_same h s₁ s₂ v₂ e ∙ n
no_third h mac mac' now now' s s₁ s₂ v₁ v₂ (inr (n, e)) (inl (y, u)) =
    absurd (cc (takes_same h s s₁ v₁ e))
no_third h mac mac' now now' s s₁ s₂ v₁ v₂ (inl (y, u)) (inl (y', u')) =
    not_taken_of_old h s₂
      (should_update_rt-twice s.table s₁.table s₂.table h mac mac' now now' u u')

-- One route request, received three times from any neighbours with no other event between: the
-- third time the node sends no route request, whatever its table was.
pub flood_stops :
    (f g e : Frame) (now now' now'' : ℕ) (a b c : PeerInfo) (s s₁ s₂ s₃ : Node)
    {outs₁ outs₂ outs₃ : List Out}
    → f.header.kind ≡ rreq
    → g.header ≡ f.header
    → e.header ≡ f.header
    → process_frame f now a s ≡ some (s₁, outs₁)
    → process_frame g now' b s₁ ≡ some (s₂, outs₂)
    → process_frame e now'' c s₂ ≡ some (s₃, outs₃)
    → count_rreq outs₃ ≡ 0
flood_stops f g e now now' now'' a b c s s₁ s₂ s₃ {outs₃} k p q h₁ h₂ h₃ =
    let (v₁, c₁) = rreq-Learned f now a s k h₁ in
    let (v₂, c₂) = rreq-Learned g now' b s₁ (rw p k) h₂ in
    let old =
      no_third f.header f.src_mac g.src_mac now now' s s₁ s₂ v₁ v₂ c₁
        (subst (λ h. Learned h g.src_mac now' s₁ s₂) p c₂) in
    rw (count_rreq-process_frame e now'' c s₂ (rw q k) h₃, q) (none_sent f.header s₂ s₃ old)
  where
    none_sent :
        (h : FrameHead) (s s' : Node)
        → takes h s ≡ false
        → (if refloods h (takes h s) s' then length s.serv else 0) ≡ 0
    none_sent h s s' old = ground arith
