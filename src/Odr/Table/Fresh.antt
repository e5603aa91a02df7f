-- ===== src/Odr/Table/Fresh.antt =====
-- When the table takes news from a frame, when an update has room, and how often one frame is news.
use network_programming.Base.{
  ℕ, Bool, true, false, ◌||◌, Option, none, some, find_index, ltb, Bytes, ◌≡◌, inl, inr, arith,
  get_elem?-find_index, get_elem?-some, find-none, find-some, find_index-lt, Option-cases, is_some,
}
use network_programming.Odr.Types.{Table, FrameHead}
use network_programming.Odr.Table.{
  is_empty, leads_to, update_routing_table, improves, should_update_rt,
}
use network_programming.Odr.Table.Route.{Route, route, learn}
use network_programming.Odr.Table.Update.{route-update_self}

-- A frame is news of its source if there is no route, a newer broadcast or a shorter path.
abbrev pub is_news : Option Route → FrameHead → Bool
is_news none head = true
is_news (some r) head = ltb r.bid head.bc_id || ltb head.hop_count r.hops

-- The test of `should_update_rt` is that of `is_news` on the route that the table holds.
pub should_update_rt-is_news :
    (t : Table) (head : FrameHead) → should_update_rt t head ≡ is_news (route t head.src_ip) head
unfolding should_update_rt improves
should_update_rt-is_news t head = elim (Option-cases (find_index (leads_to head.src_ip) t)) [
  | inl n ↦ ground (arith, find-none (leads_to head.src_ip) t n)
  | inr (i, e) ↦
      let (x, f, _) = find-some (leads_to head.src_ip) t i e in
      ground (arith, get_elem?-find_index (leads_to head.src_ip) t i e)
]

-- An update stays inside the array exactly if the source has a row or some row is empty.
update-is_some :
    (t : Table) (head : FrameHead) (mac : Bytes) (now : ℕ)
    → is_some (update_routing_table t head mac now)
      ≡ (is_some (find_index (leads_to head.src_ip) t) || is_some (find_index is_empty t))
unfolding update_routing_table
update-is_some t head mac now = elim (Option-cases (find_index (leads_to head.src_ip) t)) [
  | inl n ↦ elim (Option-cases (find_index is_empty t)) [
    | inl m ↦ ground arith
    | inr (i, e) ↦ let (x, f) = get_elem?-some t i (find_index-lt is_empty t i e) in ground arith
  ]
  | inr (i, e) ↦
      let (x, f) = get_elem?-some t i (find_index-lt (leads_to head.src_ip) t i e) in ground arith
]

learn_twice :
    (o : Option Route) (head : FrameHead) (mac mac' : Bytes)
    → is_news (some (learn (some (learn o head mac)) head mac')) head ≡ false
learn_twice none head mac mac' = ground arith
learn_twice (some r) head mac mac' = ground arith

-- However a frame arrives, and whatever the table holds, the frame is news at most twice: after two
-- updates by one header the table does not take it again.
pub should_update_rt-twice :
    (t u v : Table) (head : FrameHead) (mac mac' : Bytes) (now now' : ℕ)
    → update_routing_table t head mac now ≡ some u
    → update_routing_table u head mac' now' ≡ some v
    → should_update_rt v head ≡ false
should_update_rt-twice t u v head mac mac' now now' h k =
    rw
      (
        should_update_rt-is_news,
        route-update_self u head mac' now' k,
        route-update_self t head mac now h,
      )
      (learn_twice (route t head.src_ip) head mac mac')

-- The first update for a source is enough.
should_update_rt-first :
    (t u : Table) (head : FrameHead) (mac : Bytes) (now : ℕ)
    → route t head.src_ip ≡ none
    → update_routing_table t head mac now ≡ some u
    → should_update_rt u head ≡ false
should_update_rt-first t u head mac now n h =
    rw (should_update_rt-is_news, route-update_self t head mac now h, n) (ground arith)
