-- ===== src/Odr/Line/Relays.antt =====
-- What a host between the two ends makes of the four frames of an exchange.
use network_programming.Base.{
  ℕ, true, false, none, some, [], ◌∷◌, replicate, ◌==◌, Bytes, str_eq, str_eq_refl, ◌≡◌, ◌≢◌, refl,
}
use network_programming.Odr.Types.{ServerDetails, FrameHead, Table, is_payload, zero_row}
use network_programming.Odr.Table.{
  get_row_entry, fill_row, should_update_rt, update_routing_table, init_routing_table,
}
use network_programming.Odr.Process.{Node, is_mine, source_ip_cmp, source_ip_cmp_from, learn_source}
use network_programming.Odr.Loop.{boot}
use network_programming.Odr.Neighbours.First.{known, no_row, no_entry, learn_first}

-- A host as it starts: its interfaces and its name.
pub record Hop : Type 0 where
  pub left : ServerDetails
  pub right : ServerDetails
  pub name : Bytes

abbrev pub fresh : Hop → Node
fresh r = boot (r.left ∷ (r.right ∷ [])) r.name

-- The table after two routes were learned.
abbrev pub known_both : FrameHead → Bytes → FrameHead → Bytes → ℕ → Table
known_both g mac h mac' now =
    fill_row zero_row g mac now ∷ (fill_row zero_row h mac' now ∷ replicate 98 zero_row)

-- The addresses of the two ends are none of a host between them, and its interfaces are two.
pub record IsBetween (src dest : Bytes) (r : Hop) : Type 0 where
  pub left_src : str_eq r.left.ip src ≡ false
  pub right_src : str_eq r.right.ip src ≡ false
  pub left_dest : str_eq r.left.ip dest ≡ false
  pub right_dest : str_eq r.right.ip dest ≡ false
  pub two : (r.left.index == r.right.index) ≡ false

pub not_mine :
    (l r : ServerDetails) (ip : Bytes)
    → str_eq l.ip ip ≡ false
    → str_eq r.ip ip ≡ false
    → is_mine ip (l ∷ (r ∷ [])) ≡ false
unfolding source_ip_cmp source_ip_cmp_from
not_mine l r ip p q = rw (p, q) refl

-- A host learns its first route, and then its second.
module _ (s : Node) (g : FrameHead) (mac : Bytes) (now : ℕ) where
  pub learns_one :
      s.table ≡ init_routing_table
      → is_payload g.kind ≡ false
      → g.src_ip ≢ []
      → is_mine g.src_ip s.serv ≡ false
      → learn_source g mac now s ≡ some (known g mac now, true)
  unfolding learn_source should_update_rt
  learns_one e k ne m =
      rw (learn_source, e, m, k, should_update_rt, no_entry g.src_ip ne, learn_first g mac now ne)
        refl

  pub other_row :
      (ip : Bytes)
      → ip ≢ []
      → str_eq g.src_ip ip ≡ false
      → get_row_entry (known g mac now) ip ≡ none
  unfolding fill_row
  other_row ip ne d = rw (d, no_row ip 99 ne) refl

  update_two :
      (h : FrameHead) (mac' : Bytes)
      → h.src_ip ≢ []
      → str_eq g.src_ip h.src_ip ≡ false
      → update_routing_table (known g mac now) h mac' now ≡ some (known_both g mac h mac' now)
  unfolding update_routing_table fill_row
  update_two h mac' ne d = rw (update_routing_table, d, no_row h.src_ip 99 ne) refl

  pub learns_two :
      (h : FrameHead) (mac' : Bytes)
      → s.table ≡ known g mac now
      → is_payload h.kind ≡ false
      → h.src_ip ≢ []
      → str_eq g.src_ip h.src_ip ≡ false
      → is_mine h.src_ip s.serv ≡ false
      → learn_source h mac' now s ≡ some (known_both g mac h mac' now, true)
  unfolding learn_source should_update_rt
  learns_two h mac' e k ne d m =
      rw (learn_source, e, m, k, should_update_rt, other_row h.src_ip ne d, update_two h mac' ne d)
        refl

  pub row_second :
      (h : FrameHead) (mac' : Bytes)
      → str_eq g.src_ip h.src_ip ≡ false
      → get_row_entry (known_both g mac h mac' now) h.src_ip ≡ some 1
  unfolding fill_row
  row_second h mac' d = rw (d, str_eq_refl h.src_ip) refl

  pub row_first :
      (h : FrameHead) (mac' : Bytes) → get_row_entry (known_both g mac h mac' now) g.src_ip ≡ some 0
  unfolding fill_row
  row_first h mac' = rw (str_eq_refl g.src_ip) refl
