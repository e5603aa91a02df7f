-- ===== src/Odr/Process/Waiting.antt =====
-- Requests that wait and the responses that answer them.
use network_programming.Base.{
  ℕ, ◌+◌, true, false, none, some, List, [], ◌∷◌, set, find, find_index, replace_first, ◌≡◌, refl,
  arith, Bytes, if◌then◌else◌, Option-cases, inl, inr, ◌⊎◌, is_some, str_eq_refl,
  get_elem?-find_index, set-find_index, find-some, find-replace_first_new,
}
use network_programming.Odr.Types.{PeerInfo, FrameHead, ServerBuf, Out}
use network_programming.Odr.Buffer.{is_vacant, push_data_to_buf, awaits, vacate}
use network_programming.Odr.Process.{Node, send_to_client, deliver_response}

-- How many entries wait for a response from `ip`.
abbrev pub waiting : Bytes → List ServerBuf → ℕ
waiting ip [] = 0
waiting ip (b ∷ bs) = if awaits ip b then waiting ip bs + 1 else waiting ip bs

waiting-replace_first :
    (ip : Bytes) (v : ServerBuf) (bs : List ServerBuf)
    → is_some (find_index (awaits ip) bs) ≡ true
    → awaits ip v ≡ false
    → waiting ip (replace_first (awaits ip) v bs) + 1 ≡ waiting ip bs
waiting-replace_first ip v [] h n = cc
waiting-replace_first ip v (b ∷ bs) h n = ground (arith, waiting-replace_first ip v bs)

waiting-none :
    (ip : Bytes) (bs : List ServerBuf) → find_index (awaits ip) bs ≡ none → waiting ip bs ≡ 0
waiting-none ip [] h = refl
waiting-none ip (b ∷ bs) h = ground (arith, waiting-none ip bs)

find-waiting : (ip : Bytes) (bs : List ServerBuf) → waiting ip bs ≡ 0 → find (awaits ip) bs ≡ none
find-waiting ip [] h = refl
find-waiting ip (b ∷ bs) h = ground (arith, find-waiting ip bs)

awaits-vacate : (ip : Bytes) (b : ServerBuf) → awaits ip (vacate b) ≡ false
awaits-vacate ip b = ground arith

-- One request that waits for the source of the response is answered.
pub record Answered (h : FrameHead) (s s' : Node) (outs : List Out) : Type 0 where
  pub client : ServerBuf
  pub found : find (awaits h.src_ip) s.buffer ≡ some client
  pub sent : outs ≡ send_to_client s.hostname h.msg client.peer_info ∷ []
  pub fewer : waiting h.src_ip s'.buffer + 1 ≡ waiting h.src_ip s.buffer
  pub same_table : s'.table ≡ s.table

-- A response answers one request that waits for its source: one datagram goes to that client, with
-- the message of the response, and one request less waits. Where none waits nothing is sent and
-- nothing changes.
deliver_response_lem :
    (h : FrameHead) (s : Node)
    → let (s', outs) = deliver_response h s in
      Answered h s s' outs ⊎ (waiting h.src_ip s.buffer ≡ 0) × (outs ≡ []) × (s' ≡ s)
unfolding deliver_response
deliver_response_lem h s = elim (Option-cases (find_index (awaits h.src_ip) s.buffer)) [
  | inl n ↦ inr (waiting-none h.src_ip s.buffer n, ground arith, ground arith)
  | inr (i, e) ↦
      let (b, f, _) = find-some (awaits h.src_ip) s.buffer i e in
      let g = get_elem?-find_index (awaits h.src_ip) s.buffer i e in
      inl (record {
        client = b;
        found = f;
        sent = ground arith;
        fewer = ground (
          arith,
          set-find_index (awaits h.src_ip) s.buffer i (vacate b) e,
          waiting-replace_first h.src_ip (vacate b) s.buffer,
          awaits-vacate h.src_ip b,
        );
        same_table = ground arith;
      })
]

awaits_self : (p : PeerInfo) → awaits p.dest_ip (record { peer_info = p; count = 1 }) ≡ true
awaits_self p = rw (str_eq_refl p.dest_ip)

-- A request that is pushed while no request for its destination waits is the one that the response
-- of that destination answers: the message goes to the socket that the request came from.
pub deliver-push :
    (p : PeerInfo) (h : FrameHead) (s : Node) {buf : List ServerBuf}
    → find (awaits p.dest_ip) s.buffer ≡ none
    → h.src_ip ≡ p.dest_ip
    → push_data_to_buf s.buffer p ≡ some buf
    → (deliver_response h (record s { buffer = buf })).1 ≡ send_to_client s.hostname h.msg p ∷ []
unfolding push_data_to_buf
deliver-push p h s {buf} n q e = elim (Option-cases (find_index is_vacant s.buffer)) [
  | inl m ↦ absurd (ground arith)
  | inr (i, f) ↦
      let v : ServerBuf = record { peer_info = p; count = 1 } in
      let stored : buf ≡ set s.buffer i v = ground arith in
      let found : find (awaits h.src_ip) buf ≡ some v =
        rw (q, stored, set-find_index is_vacant s.buffer i v f)
          (find-replace_first_new is_vacant (awaits p.dest_ip) v s.buffer (rw f) n
            (awaits_self p)) in
      elim (deliver_response_lem h (record s { buffer = buf })) [
        | inl a ↦ ground (arith, a.found, a.sent)
        | inr a ↦ absurd (ground (arith, found, find-waiting h.src_ip buf a.0))
      ]
]
