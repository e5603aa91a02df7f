-- ===== src/Odr/Table.antt =====
-- The routing table of hw3/common.c. A write or a read outside the array is `none`.
pub mod Route
pub mod Update
pub mod Fresh
pub mod Once
use network_programming.Base.{
  ℕ, ◌+◌, Bool, true, false, ◌||◌, Option, none, some, List, length, get_elem?, set, replicate,
  find_index, ltb, ◌==◌, if◌then◌else◌, Bytes, str_eq,
}
use network_programming.Odr.Types.{Row, Table, FrameHead, zero_row, routing_table_size}

-- Every row is cleared: what the table held before does not matter.
unfoldable pub init_routing_table : Table
init_routing_table = replicate routing_table_size zero_row

-- The tests of the two search loops.
abbrev pub is_empty : Row → Bool
is_empty r = r.is_filled == 0

abbrev pub leads_to : Bytes → Row → Bool
leads_to ip r = str_eq r.dest_ip ip

-- `none` where the C code returns 100, one past the last row.
abbrev pub get_empty_row : Table → Option ℕ
get_empty_row t = find_index is_empty t

-- `none` where the C code returns -1. Rows that are not filled are compared too.
abbrev pub get_row_entry : Table → Bytes → Option ℕ
get_row_entry t ip = find_index (leads_to ip) t

-- `table->row[i]`
abbrev pub row_at : Table → Option ℕ → Option Row
row_at t none = none
row_at t (some i) = get_elem? t i

unfoldable pub delete_table_entry : Table → ℕ → Table
delete_table_entry t i = set t i zero_row

-- The tests behind the lookup.
unfoldable pub improves : Row → FrameHead → Bool
improves r head = ltb r.broadcast_id head.bc_id || ltb head.hop_count r.hop_count

unfoldable pub should_update_rt : Table → FrameHead → Bool
should_update_rt t head = elim (row_at t (get_row_entry t head.src_ip)) [
  | none ↦ true
  | some r ↦ improves r head
]

-- The row that the first branch of `update_routing_table` fills in, at time `now`.
unfoldable pub fill_row : Row → FrameHead → Bytes → ℕ → Row
fill_row r head next_hop_mac now = record r {
  is_filled = 1;
  dest_ip = head.src_ip;
  next_hop_mac = next_hop_mac;
  ts = now;
  broadcast_id = head.bc_id;
  rrep_sent = 0;
  hop_count = head.hop_count;
}

-- What the second branch makes of the row.
unfoldable pub refresh_row : Row → FrameHead → Row
refresh_row r head =
    if ltb r.broadcast_id head.bc_id
    then record r { broadcast_id = head.bc_id }
    else if ltb head.hop_count r.hop_count
    then record r { hop_count = head.hop_count }
    else r

-- A write to row 100 is out of range: `none`.
fill_at : Table → Option ℕ → FrameHead → Bytes → ℕ → Option Table
fill_at t none head mac now = none
fill_at t (some i) head mac now = elim (get_elem? t i) [
  | none ↦ none
  | some r ↦ some (set t i (fill_row r head mac now))
]

refresh_at : Table → ℕ → FrameHead → Option Table
refresh_at t i head = elim (get_elem? t i) [
  | none ↦ none
  | some r ↦ some (set t i (refresh_row r head))
]

unfoldable pub update_routing_table : Table → FrameHead → Bytes → ℕ → Option Table
unfolding fill_at refresh_at
update_routing_table t head mac now = elim (get_row_entry t head.src_ip) [
  | none ↦ fill_at t (get_empty_row t) head mac now
  | some i ↦ refresh_at t i head
]
