-- ===== src/Odr/Table/Once.antt =====
-- No destination has two rows.
use network_programming.Base.{
  ℕ, zero, suc, none, some, [], ◌∷◌, find_index, get_elem?, set, false, Bool-cases, ◌≡◌, ◌≢◌, refl,
  sym, ◌∙◌, ap, inl, inr, arith, Bool, All-replicate, All-get_elem?, get_elem?-set_self,
  get_elem?-set_ne, lt-length_of_get_elem?, length-set, str_eq_refl, str_eq, Bytes, true,
}
use native.Mathlib.Decide.{ℕ_discrete}
use mathlib.Core.Option.{some-injective}
use network_programming.Odr.Types.{Row, Table, FrameHead, zero_row, routing_table_size}
use network_programming.Odr.Table.{leads_to, update_routing_table, init_routing_table}
use network_programming.Odr.Table.Route.{
  update_cases, fill_row-dest, refresh_row-dest, refresh_row-filled,
}

-- Two rows that are filled have different destinations.
abbrev pub IsOnce : Table → Type 0
IsOnce t =
    (i j : ℕ) (r q : Row)
    → get_elem? t i ≡ some r
    → get_elem? t j ≡ some q
    → r.is_filled ≢ 0
    → q.is_filled ≢ 0
    → r.dest_ip ≡ q.dest_ip
    → i ≡ j

pub init-IsOnce : IsOnce init_routing_table
unfolding init_routing_table
init-IsOnce i j r q e f m n d = absurd (
    m (
      All-get_elem? (λ (x : Row). x.is_filled ≡ 0) init_routing_table i
        (All-replicate (λ (x : Row). x.is_filled ≡ 0) routing_table_size zero_row refl) e))

-- What a row is after a write.
set_row : (t : Table) (k : ℕ) (v r : Row) → get_elem? (set t k v) k ≡ some r → r ≡ v
set_row t k v r e =
    let l = lt-length_of_get_elem? (set t k v) k e in
    some-injective r v (sym e ∙ get_elem?-set_self t k v (omega (arith, length-set t k v, l)))

set-IsOnce :
    (t : Table) (k : ℕ) (v : Row)
    → IsOnce t
    → (v.is_filled ≢ 0
        → (j : ℕ) (q : Row) → k ≢ j
        → get_elem? t j ≡ some q
        → q.is_filled ≢ 0
        → q.dest_ip ≢ v.dest_ip)
    → IsOnce (set t k v)
set-IsOnce t k v o new i j r q e f m n d = elim (ℕ_discrete k i) [
  | yes a ↦ elim (ℕ_discrete k j) [
    | yes b ↦ sym a ∙ b
    | no b ↦
        let here : r ≡ v = set_row t k v r (ap (λ (n : ℕ). get_elem? (set t k v) n) a ∙ e) in
        absurd (
          new (λ z. m (ap (λ (x : Row). x.is_filled) here ∙ z)) j q b
            (sym (get_elem?-set_ne t k j v b) ∙ f) n (sym d ∙ ap (λ (x : Row). x.dest_ip) here))
  ]
  | no a ↦ elim (ℕ_discrete k j) [
    | yes b ↦
        let here : q ≡ v = set_row t k v q (ap (λ (n : ℕ). get_elem? (set t k v) n) b ∙ f) in
        absurd (
          new (λ z. n (ap (λ (x : Row). x.is_filled) here ∙ z)) i r a
            (sym (get_elem?-set_ne t k i v a) ∙ e) m (d ∙ ap (λ (x : Row). x.dest_ip) here))
    | no b ↦
        o i j r q (sym (get_elem?-set_ne t k i v a) ∙ e) (sym (get_elem?-set_ne t k j v b) ∙ f) m n
          d
  ]
]

find_index-none :
    (p : Row → Bool) (t : Table) (j : ℕ) {q : Row}
    → find_index p t ≡ none
    → get_elem? t j ≡ some q
    → p q ≡ false
find_index-none p [] j h e = absurd (ground arith)
find_index-none p (x ∷ t) zero h e = elim (Bool-cases (p x)) [
  | inl y ↦ absurd (ground arith)
  | inr y ↦ rw (some-injective x _ e) at y
]
find_index-none p (x ∷ t) (suc j) h e = elim (Bool-cases (p x)) [
  | inl y ↦ absurd (ground arith)
  | inr y ↦ find_index-none p t j (ground arith) e
]

-- An update fills a row only for a source that has none, and changes no destination.
pub update-IsOnce :
    (t : Table) (head : FrameHead) (mac : Bytes) (now : ℕ) {u : Table}
    → IsOnce t
    → update_routing_table t head mac now ≡ some u
    → IsOnce u
update-IsOnce t head mac now o h = elim (update_cases t head mac now h) [
  | inl f ↦ rw f.result (
      set-IsOnce t f.index _ o (λ z j q ne e n d.
        let no = find_index-none (leads_to head.src_ip) t j f.absent e in
        let same : q.dest_ip ≡ head.src_ip = d ∙ fill_row-dest f.row head mac now in
        let yes_it : leads_to head.src_ip q ≡ true =
          ap (λ (b : Bytes). str_eq b head.src_ip) same ∙ str_eq_refl head.src_ip in
        cc))
  | inr f ↦ rw f.result (
      set-IsOnce t f.index _ o (λ z j q ne e n d. ne (
        o f.index j f.row q f.here e (λ y. z (refresh_row-filled f.row head ∙ y)) n
          (sym (d ∙ refresh_row-dest f.row head)))))
]
