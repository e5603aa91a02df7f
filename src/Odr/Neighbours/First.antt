-- ===== src/Odr/Neighbours/First.antt =====
-- The first route that a host learns, and what it sends before and after.
use network_programming.Base.{
  ℕ, zero, suc, true, false, none, some, [], ◌∷◌, replicate, find_index, Bytes, str_eq, str_eq_refl,
  ◌≡◌, ◌≢◌, refl,
}
use network_programming.Odr.Types.{
  ServerDetails, FrameHead, DataType, rrep, rreq, Table, is_payload, zero_row,
}
use network_programming.Odr.Table.{
  leads_to, get_row_entry, fill_row, should_update_rt, update_routing_table, init_routing_table,
}
use network_programming.Odr.Send.{
  populate_frame_header, send_packet, send_all, send_rreq, send_rrep, send_along, send_payload,
  flood, b_mac,
}
use network_programming.Odr.Process.{Node, is_mine, source_ip_cmp, source_ip_cmp_from, learn_source}

-- The table after the first route was learned.
abbrev pub known : FrameHead → Bytes → ℕ → Table
known h mac now = fill_row zero_row h mac now ∷ replicate 99 zero_row

pub no_row : (ip : Bytes) (n : ℕ) → ip ≢ [] → find_index (leads_to ip) (replicate n zero_row) ≡ none
unfolding str_eq
no_row [] n ne = absurd (ne refl)
no_row (c ∷ cs) zero ne = refl
no_row (c ∷ cs) (suc n) ne = rw (no_row (c ∷ cs) n ne) refl

pub no_entry : (ip : Bytes) → ip ≢ [] → get_row_entry init_routing_table ip ≡ none
unfolding init_routing_table
no_entry ip ne = no_row ip 100 ne

pub learn_first :
    (h : FrameHead) (mac : Bytes) (now : ℕ)
    → h.src_ip ≢ []
    → update_routing_table init_routing_table h mac now ≡ some (known h mac now)
unfolding update_routing_table init_routing_table
learn_first h mac now ne = rw (update_routing_table, no_row h.src_ip 100 ne) refl

pub row_known :
    (h : FrameHead) (mac : Bytes) (now : ℕ) → get_row_entry (known h mac now) h.src_ip ≡ some 0
unfolding fill_row
row_known h mac now = rw (str_eq_refl h.src_ip) refl

pub is_mine_self : (i : ServerDetails) → is_mine i.ip (i ∷ []) ≡ true
unfolding source_ip_cmp source_ip_cmp_from
is_mine_self i = rw (str_eq_refl i.ip) refl

is_mine_other :
    (i : ServerDetails) (ip : Bytes) → str_eq i.ip ip ≡ false → is_mine ip (i ∷ []) ≡ false
unfolding source_ip_cmp source_ip_cmp_from
is_mine_other i ip ne = rw ne refl

-- A node whose table is empty, and which has one interface.
module _ (i : ServerDetails) (s : Node) (one : s.serv ≡ i ∷ []) where
  pub learns_first :
      (h : FrameHead) (mac : Bytes) (now : ℕ)
      → s.table ≡ init_routing_table
      → is_payload h.kind ≡ false
      → h.src_ip ≢ []
      → str_eq i.ip h.src_ip ≡ false
      → learn_source h mac now s ≡ some (known h mac now, true)
  unfolding learn_source should_update_rt
  learns_first h mac now e k ne d =
      rw
        (
          learn_source,
          e,
          one,
          k,
          should_update_rt,
          no_entry h.src_ip ne,
          is_mine_other i h.src_ip d,
          learn_first h mac now ne,
        )
        refl

-- With no route a payload asks for one; with a route it goes along it.
pub payload-flood :
    (i : ServerDetails) (bid : ℕ) (src dest : Bytes) (k : DataType) (msg : Bytes) (f : ℕ)
    → dest ≢ []
    → send_payload init_routing_table (i ∷ []) bid src dest k msg f
      ≡ send_packet b_mac i.mac i.index (populate_frame_header i.ip dest 1 bid rreq f) ∷ []
unfolding send_payload flood send_rreq send_all
payload-flood i bid src dest k msg f ne = rw (send_payload, no_entry dest ne) refl

pub payload-known :
    (i : ServerDetails) (h : FrameHead) (mac : Bytes) (now bid : ℕ) (src : Bytes) (k : DataType)
    (msg : Bytes) (f : ℕ)
    → send_payload (known h mac now) (i ∷ []) bid src h.src_ip k msg f
      ≡ send_packet mac i.mac i.index
          (record (populate_frame_header src h.src_ip h.hop_count bid k f) { msg = msg })
        ∷ []
unfolding send_payload send_all fill_row
payload-known i h mac now bid src k msg f = rw (send_payload, row_known h mac now) refl

pub rrep-known :
    (i : ServerDetails) (h : FrameHead) (mac : Bytes) (now bid hops : ℕ) (src : Bytes)
    → send_rrep (known h mac now) (i ∷ []) bid hops h.src_ip src
      ≡ some
          (send_packet mac i.mac i.index (populate_frame_header src h.src_ip hops bid rrep 0) ∷ [])
unfolding send_rrep send_along send_all fill_row
rrep-known i h mac now bid hops src = rw (send_rrep, row_known h mac now) refl
