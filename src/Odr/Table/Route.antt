-- ===== src/Odr/Table/Route.antt =====
-- What the routing table stands for: a finite map from a destination to a route.
-- `update_routing_table` changes that map at the source of the frame and nowhere else.
use network_programming.Base.{
  ℕ, Option, none, some, [], All, get_elem?, set, find, find_index, ltb, if◌then◌else◌, Bytes, ◌≡◌,
  refl, sym, ◌∙◌, inl, inr, ◌⊎◌, arith, Option-cases, All-set, All-get_elem?, All-replicate,
}
use network_programming.Odr.Types.{Row, Table, FrameHead, zero_row, routing_table_size}
use network_programming.Odr.Table.{
  is_empty, leads_to, fill_row, refresh_row, update_routing_table, init_routing_table,
}

-- A row that is not filled has no destination.
abbrev pub IsClear : Row → Type 0
IsClear r = r.is_filled ≡ 0 → r.dest_ip ≡ []

abbrev pub IsClean : Table → Type 0
IsClean t = All IsClear t

pub init-IsClean : IsClean init_routing_table
unfolding init_routing_table
init-IsClean = All-replicate IsClear routing_table_size zero_row (λ _. refl)

-- What a route is to the rest of the program.
pub record Route : Type 0 where
  pub next_hop : Bytes
  pub hops : ℕ
  pub bid : ℕ

abbrev pub view : Row → Route
view r = record { next_hop = r.next_hop_mac; hops = r.hop_count; bid = r.broadcast_id }

abbrev pub view? : Option Row → Option Route
view? none = none
view? (some r) = some (view r)

abbrev pub route : Table → Bytes → Option Route
route t ip = view? (find (leads_to ip) t)

-- What is known of the source of a frame after the frame, by what was known before.
abbrev pub learn : Option Route → FrameHead → Bytes → Route
learn none head mac = record { next_hop = mac; hops = head.hop_count; bid = head.bc_id }
learn (some r) head mac =
    if ltb r.bid head.bc_id
    then record r { bid = head.bc_id }
    else if ltb head.hop_count r.hops
    then record r { hops = head.hop_count }
    else r

pub refresh_row-view :
    (r : Row) (head : FrameHead) (mac : Bytes)
    → view (refresh_row r head) ≡ learn (some (view r)) head mac
unfolding refresh_row
refresh_row-view r head mac = ground arith

pub refresh_row-dest : (r : Row) (head : FrameHead) → (refresh_row r head).dest_ip ≡ r.dest_ip
unfolding refresh_row
refresh_row-dest r head = ground arith

pub refresh_row-filled : (r : Row) (head : FrameHead) → (refresh_row r head).is_filled ≡ r.is_filled
unfolding refresh_row
refresh_row-filled r head = ground arith

module _ (t : Table) (head : FrameHead) (mac : Bytes) (now : ℕ) where
  -- The first empty row is filled in.
  pub record Filled (u : Table) : Type 0 where
    pub row : Row
    pub index : ℕ
    pub absent : find_index (leads_to head.src_ip) t ≡ none
    pub free : find_index is_empty t ≡ some index
    pub here : get_elem? t index ≡ some row
    pub result : u ≡ set t index (fill_row row head mac now)

  -- The row of the source is refreshed.
  pub record Refreshed (u : Table) : Type 0 where
    pub row : Row
    pub index : ℕ
    pub present : find_index (leads_to head.src_ip) t ≡ some index
    pub here : get_elem? t index ≡ some row
    pub result : u ≡ set t index (refresh_row row head)

  pub update_cases :
      {u : Table} → update_routing_table t head mac now ≡ some u → Filled u ⊎ Refreshed u
  unfolding update_routing_table
  update_cases {u} h = elim (Option-cases (find_index (leads_to head.src_ip) t)) [
    | inl n ↦ elim (Option-cases (find_index is_empty t)) [
      | inl m ↦ absurd (ground arith)
      | inr (i, e) ↦ elim (Option-cases (get_elem? t i)) [
        | inl m ↦ absurd (ground arith)
        | inr (r, f) ↦
            inl
              (record { row = r; index = i; absent = n; free = e; here = f; result = ground arith })
      ]
    ]
    | inr (i, e) ↦ elim (Option-cases (get_elem? t i)) [
      | inl m ↦ absurd (ground arith)
      | inr (r, f) ↦
          inr (record { row = r; index = i; present = e; here = f; result = ground arith })
    ]
  ]

pub fill_row-dest :
    (r : Row) (head : FrameHead) (mac : Bytes) (now : ℕ)
    → (fill_row r head mac now).dest_ip ≡ head.src_ip
unfolding fill_row
fill_row-dest r head mac now = refl

fill_row-IsClear :
    (r : Row) (head : FrameHead) (mac : Bytes) (now : ℕ) → IsClear (fill_row r head mac now)
unfolding fill_row
fill_row-IsClear r head mac now h = absurd (omega arith)

pub fill_row-view :
    (r : Row) (head : FrameHead) (mac : Bytes) (now : ℕ)
    → view (fill_row r head mac now) ≡ learn none head mac
unfolding fill_row
fill_row-view r head mac now = refl

refresh_row-IsClear : (r : Row) (head : FrameHead) → IsClear r → IsClear (refresh_row r head)
refresh_row-IsClear r head c h = refresh_row-dest r head ∙ c (sym (refresh_row-filled r head) ∙ h)

-- An update keeps the rows that are not filled free of destinations.
pub update-IsClean :
    (t : Table) (head : FrameHead) (mac : Bytes) (now : ℕ) {u : Table}
    → IsClean t
    → update_routing_table t head mac now ≡ some u
    → IsClean u
update-IsClean t head mac now c h = elim (update_cases t head mac now h) [
  | inl f ↦ rw f.result (All-set IsClear t f.index _ c (fill_row-IsClear f.row head mac now))
  | inr f ↦ rw f.result (
      All-set IsClear t f.index _ c
        (refresh_row-IsClear f.row head (All-get_elem? IsClear t f.index c f.here)))
]
