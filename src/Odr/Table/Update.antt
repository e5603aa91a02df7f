-- ===== src/Odr/Table/Update.antt =====
-- `update_routing_table` as an update of the map from destinations to routes.
use network_programming.Base.{
  ℕ, true, false, some, [], All, find, if◌then◌else◌, Bytes, str_eq, ◌≡◌, ◌≢◌, sym, ◌∙◌, ap, inl,
  inr, arith, get_elem?-find_index, set-find_index, find-none, find-some, find-replace_first_skip,
  find-replace_first_new, find-replace_first_self, Bool-cases, str_eq_refl, eq_of_str_eq, All-intro,
  All-mono,
}
use mathlib.Core.Option.{some-injective}
use network_programming.Odr.Types.{Row, Table, FrameHead}
use network_programming.Odr.Table.{is_empty, leads_to, fill_row, refresh_row, update_routing_table}
use network_programming.Odr.Table.Route.{
  IsClear, IsClean, route, learn, Filled, Refreshed, update_cases, fill_row-dest, fill_row-view,
  refresh_row-view, refresh_row-dest,
}

-- Rows that another address leads to are no rows of `ip`.
skip_dest :
    (t : Table) (src ip : Bytes)
    → str_eq src ip ≡ false
    → All (λ x. leads_to src x ≡ true → leads_to ip x ≡ false) t
skip_dest t src ip ne = All-intro _ t (λ x e. rw (eq_of_str_eq x.dest_ip src e) ne)

skip_empty :
    (t : Table) (ip : Bytes)
    → ip ≢ []
    → IsClean t
    → All (λ x. is_empty x ≡ true → leads_to ip x ≡ false) t
skip_empty t ip ne c =
    All-mono IsClear _ t (λ x k e. ground (arith, k (ground arith), eq_of_str_eq x.dest_ip ip, ne))
      c

module _ (t : Table) (head : FrameHead) (mac : Bytes) (now : ℕ) where
  route-Filled_self :
      {u : Table}
      → Filled t head mac now u
      → route u head.src_ip ≡ some (learn (route t head.src_ip) head mac)
  route-Filled_self f =
      let v = fill_row f.row head mac now in
      rw
        (
          f.result,
          set-find_index is_empty t f.index v f.free,
          find-replace_first_new is_empty (leads_to head.src_ip) v t (rw f.free)
              (find-none _ t f.absent) (rw fill_row-dest (str_eq_refl head.src_ip)),
          find-none (leads_to head.src_ip) t f.absent,
        )
        (ap some (fill_row-view f.row head mac now))

  route-Filled_other :
      (ip : Bytes) {u : Table}
      → IsClean t
      → ip ≢ []
      → str_eq head.src_ip ip ≡ false
      → Filled t head mac now u
      → route u ip ≡ route t ip
  route-Filled_other ip c ne d f =
      let v = fill_row f.row head mac now in
      rw (
        f.result,
        set-find_index is_empty t f.index v f.free,
        find-replace_first_skip is_empty (leads_to ip) v t (skip_empty t ip ne c)
            (rw fill_row-dest d),
      )

  find-Refreshed :
      {u : Table} → (f : Refreshed t head mac now u) → find (leads_to head.src_ip) t ≡ some f.row
  find-Refreshed f = sym (get_elem?-find_index _ t f.index f.present) ∙ f.here

  Refreshed-dest :
      {u : Table}
      → (f : Refreshed t head mac now u) → (refresh_row f.row head).dest_ip ≡ head.src_ip
  Refreshed-dest f =
      let (x, e, q) = find-some (leads_to head.src_ip) t f.index f.present in
      refresh_row-dest f.row head
      ∙ ap (λ (r : Row). r.dest_ip) (some-injective f.row x (sym (find-Refreshed f) ∙ e))
      ∙ eq_of_str_eq x.dest_ip head.src_ip q

  route-Refreshed_self :
      {u : Table}
      → Refreshed t head mac now u
      → route u head.src_ip ≡ some (learn (route t head.src_ip) head mac)
  route-Refreshed_self f =
      let v = refresh_row f.row head in
      rw
        (
          f.result,
          set-find_index (leads_to head.src_ip) t f.index v f.present,
          find-replace_first_self (leads_to head.src_ip) v t (rw f.present)
              (rw (Refreshed-dest f) (str_eq_refl head.src_ip)),
          find-Refreshed f,
        )
        (ap some (refresh_row-view f.row head mac))

  route-Refreshed_other :
      (ip : Bytes) {u : Table}
      → str_eq head.src_ip ip ≡ false
      → Refreshed t head mac now u
      → route u ip ≡ route t ip
  route-Refreshed_other ip d f =
      let v = refresh_row f.row head in
      rw (
        f.result,
        set-find_index (leads_to head.src_ip) t f.index v f.present,
        find-replace_first_skip (leads_to head.src_ip) (leads_to ip) v t
            (skip_dest t head.src_ip ip d) (rw (Refreshed-dest f) d),
      )

  -- An update that succeeds makes the route to the frame's source the one that `learn` gives, and
  -- leaves the route to every other address that is not the empty string as it was, if the rows
  -- that are not filled hold no destination.
  pub route-update :
      (ip : Bytes) {u : Table}
      → IsClean t
      → ip ≢ []
      → update_routing_table t head mac now ≡ some u
      → route u ip ≡ (
          if str_eq head.src_ip ip then some (learn (route t head.src_ip) head mac) else route t ip)
  route-update ip c ne h = elim (Bool-cases (str_eq head.src_ip ip)) [
    | inl e ↦
        rw (e, ← eq_of_str_eq head.src_ip ip e)
          (elim (update_cases t head mac now h) [
            | inl f ↦ route-Filled_self f
            | inr f ↦ route-Refreshed_self f
          ])
    | inr e ↦ rw e (elim (update_cases t head mac now h) [
      | inl f ↦ route-Filled_other ip c ne e f
      | inr f ↦ route-Refreshed_other ip e f
    ])
  ]

  pub route-update_self :
      {u : Table}
      → update_routing_table t head mac now ≡ some u
      → route u head.src_ip ≡ some (learn (route t head.src_ip) head mac)
  route-update_self h = elim (update_cases t head mac now h) [
    | inl f ↦ route-Filled_self f
    | inr f ↦ route-Refreshed_self f
  ]
