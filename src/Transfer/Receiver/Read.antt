-- ===== src/Transfer/Receiver/Read.antt =====
-- A pass of the reader: what is printed goes on where the last pass ended.
use network_programming.Base.{
  ℕ, ◌+◌, ◌-◌, ◌≤◌, ◌<◌, min, true, false, some, get_elem?, drop, Bytes, ◌≡◌, ◌≢◌, refl, sym, subst,
  ◌∙◌, ap, ◌%◌, arith, get_elem?-some, lt-length_of_get_elem?,
}
use native.Mathlib.Decide.{dec_lt, ℕ_discrete}
use network_programming.Transfer.Receiver.{
  Slot, Window, Receiver, min_seq_num, int_max, drain_from, read_buffer,
}
use network_programming.Transfer.Receiver.Scan.{
  Holds, stream, min_finds, drain-stream, drain_from-get_elem?, length-drain_from, drain_from-drop,
  get_elem?-drop, length-drop,
}
use network_programming.Transfer.Receiver.Order.{number, InOrder, mod_aligned, next_aligned}

-- What a pass over a window leads to.
abbrev pub Passed : ℕ → (ℕ → Bytes) → ℕ → Receiver → Type 0
Passed w word lo s =
    (c : ℕ) × ((read_buffer s.window).1 ≡ stream word lo c)
    × (c ≡ min (s.expected - lo) (w - lo % w))
    × InOrder w word (lo + c) (record s { window = (read_buffer s.window).0 })

module _ (w : ℕ) (word : ℕ → Bytes) (lo : ℕ) (s : Receiver) (o : InOrder w word lo s) where
  -- The index of the slot for the lowest number.
  pub lo_index : lo % w ≡ o.r
  lo_index = ap (λ (m : ℕ). m % w) o.low ∙ mod_aligned o.base w o.r o.aligned o.inside

  -- With no number pending no slot is filled.
  none_filled :
      o.n ≡ 0 → (i : ℕ) (x : Slot) → get_elem? s.window i ≡ some x → i < w → x.is_filled ≡ false
  none_filled z i x e l = (o.slots i x e).vacant (ground arith)

  -- The slot at index `r` holds the lowest number.
  min_at_r : 0 < o.n → min_seq_num s.window ≡ o.r
  unfolding min_seq_num
  min_at_r p =
      let (x, e) = get_elem?-some s.window o.r (omega (arith, o.size, o.inside)) in
      let (f, g, _) = (o.slots o.r x e).full (ground arith) in
      min_finds s.window 0 int_max 0 o.r x e f (bound x g) (λ j y k h ne. above x g j y k h ne)
      ∙ omega arith
    where
      bound : (x : Slot) → x.seq ≡ number w o.base o.r o.r → x.seq < int_max
      bound x g = ground (arith, o.bounded, o.next)

      above :
          (x : Slot)
          → x.seq ≡ number w o.base o.r o.r
          → (j : ℕ) (y : Slot) → get_elem? s.window j ≡ some y
          → y.is_filled ≡ true
          → j ≢ o.r
          → x.seq < y.seq
      above x g j y k h ne = elim (dec_lt (number w o.base o.r j) (o.base + o.r + o.n)) [
        | yes p ↦ let (_, q, _) = (o.slots j y k).full p in ground arith
        | no p ↦ let v = (o.slots j y k).vacant (omega arith) in absurd (ground arith)
      ]

  printed : (drain_from o.r s.window).1 ≡ stream word (o.base + o.r) (min o.n (w - o.r))
  printed =
      drain_from-drop o.r s.window
      ∙ drain-stream word (o.base + o.r + o.n) (drop o.r s.window) (o.base + o.r)
          (min o.n (w - o.r)) (omega (arith, length-drop o.r s.window, o.size))
          (λ j x e.
            subst (λ (k : ℕ). Holds word (o.base + o.r + o.n) k x) (at j)
              (o.slots (o.r + j) x (sym (get_elem?-drop o.r s.window j) ∙ e)))
    where
      at : (j : ℕ) → number w o.base o.r (o.r + j) ≡ o.base + o.r + j
      at j = ground arith

-- The slots that a pass leaves, for a new lowest number.
kept :
    (word : ℕ → Bytes) (hi k k' m i : ℕ) (win : Window) (y : Slot)
    → ((x : Slot) → get_elem? win i ≡ some x → Holds word hi k x)
    → (i < m → k' ≡ k)
    → (m ≤ i → hi ≤ k')
    → get_elem? (drain_from m win).0 i ≡ some y
    → Holds word hi k' y
kept word hi k k' m i win y h same past e =
    let (x, g, old, gone) = drain_from-get_elem? m win i y e in
    elim (dec_lt i m) [
      | yes p ↦ rw (old p, same p) (h x g)
      | no p ↦ record {
        full = λ l. absurd (omega (arith, past (omega arith)));
        vacant = λ _. gone (omega arith);
      }
    ]

module _ (w : ℕ) (word : ℕ → Bytes) (lo : ℕ) (s : Receiver) (o : InOrder w word lo s) where
  -- A pass that starts at index `r`.
  Passed-from : min_seq_num s.window ≡ o.r → Passed w word lo s
  unfolding read_buffer
  Passed-from m = (
    min o.n (w - o.r),
    rw (m, o.low) (printed w word lo s o),
    omega (arith, o.next, o.low, lo_index w word lo s o),
    rw m (elim (dec_lt (o.r + o.n) w) [
      | yes p ↦ record {
        base = o.base;
        r = o.r + o.n;
        n = 0;
        size = length-drain_from o.r s.window ∙ o.size;
        aligned = o.aligned;
        inside = p;
        pending = omega arith;
        low = omega (arith, o.low);
        next = omega (arith, o.next);
        bounded = o.bounded;
        slots = λ i y e.
            subst (λ (h : ℕ). Holds word h (number w o.base (o.r + o.n) i) y) (omega arith)
              (kept word (o.base + o.r + o.n) (number w o.base o.r i)
                (number w o.base (o.r + o.n) i) o.r i s.window y (o.slots i) (ground arith)
                (ground (arith, o.pending)) e);
      }
      | no p ↦ record {
        base = o.base + w;
        r = 0;
        n = o.n - (w - o.r);
        size = length-drain_from o.r s.window ∙ o.size;
        aligned = next_aligned o.base w o.aligned;
        inside = omega (arith, o.inside);
        pending = omega (arith, o.pending);
        low = omega (arith, o.low, o.inside);
        next = omega (arith, o.next, o.inside);
        bounded = o.bounded;
        slots = λ i y e.
            subst (λ (h : ℕ). Holds word h (number w (o.base + w) 0 i) y) (omega (arith, o.inside))
              (kept word (o.base + o.r + o.n) (number w o.base o.r i) (number w (o.base + w) 0 i)
                o.r i s.window y (o.slots i) (ground arith) (ground (arith, o.pending)) e);
      }
    ]),
  )

  -- A pass over a window with nothing in it, wherever it starts.
  Passed-empty : o.n ≡ 0 → Passed w word lo s
  unfolding read_buffer
  Passed-empty z =
      let m = min_seq_num s.window in
      (
        0,
        drain_from-drop m s.window
            ∙ drain-stream word 0 (drop m s.window) 0 0 (omega arith) (λ j x e. record {
              full = λ l. absurd (omega arith);
              vacant = λ _.
                  none_filled w word lo s o z (m + j) x (sym (get_elem?-drop m s.window j) ∙ e) (
                    omega (
                      arith,
                      lt-length_of_get_elem? s.window (m + j)
                          (sym (get_elem?-drop m s.window j) ∙ e),
                      o.size,
                    ));
            }),
        omega (arith, o.next, o.low, z),
        record {
          base = o.base;
          r = o.r;
          n = 0;
          size = length-drain_from m s.window ∙ o.size;
          aligned = o.aligned;
          inside = o.inside;
          pending = omega arith;
          low = omega (arith, o.low);
          next = omega (arith, o.next, z);
          bounded = o.bounded;
          slots = λ i y e.
              subst (λ (h : ℕ). Holds word h (number w o.base o.r i) y) (omega (arith, z))
                (kept word (o.base + o.r + o.n) (number w o.base o.r i) (number w o.base o.r i) m i
                  s.window y (o.slots i) (λ _. refl) (ground (arith, z, o.inside)) e);
        },
      )

-- A pass of the reader over a window in order prints the next numbers with their words, in order and
-- with none left out, as far as they lie before the end of the array, and leaves the window in order
-- behind them.
pub read_buffer-InOrder :
    (w : ℕ) (word : ℕ → Bytes) (lo : ℕ) (s : Receiver) → InOrder w word lo s → Passed w word lo s
read_buffer-InOrder w word lo s o = elim (ℕ_discrete o.n 0) [
  | yes z ↦ Passed-empty w word lo s o z
  | no p ↦ Passed-from w word lo s o (min_at_r w word lo s o (omega arith))
]
