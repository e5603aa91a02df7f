-- ===== src/Transfer/Receiver/Pending.antt =====
-- What waits in the window: how much room it leaves, and how it gets printed.
use network_programming.Base.{
  ℕ, suc, ◌+◌, ◌-◌, ◌%◌, ◌≤◌, ◌<◌, min, Bool, not, ◌&&◌, some, [], ◌∷◌, ◌++◌, length, get_elem?,
  ltb, leb, Bytes, ◌≡◌, refl, ◌∙◌, ap, lt-length_of_get_elem?, arith,
}
use native.Mathlib.Decide.{dec_lt}
use network_programming.Transfer.Receiver.{
  Slot, Window, Receiver, get_window_size, read_buffer, last_pass,
}
use network_programming.Transfer.Receiver.Scan.{stream}
use network_programming.Transfer.Receiver.Order.{number, InOrder, next_aligned}
use network_programming.Transfer.Receiver.Read.{lo_index, read_buffer-InOrder}
use network_programming.Transfer.Receiver.Deliver.{stream-append}

-- Whether index `i` lies from `p` on and before `q`.
abbrev within : ℕ → ℕ → ℕ → Bool
within p q i = leb p i && ltb i q

within-suc : (p q i : ℕ) → within p q (suc i) ≡ within (p - 1) (q - 1) i
within-suc p q i = ground arith

filled_range :
    (win : Window) (p q : ℕ)
    → p ≤ q
    → q ≤ length win
    → ((i : ℕ) (x : Slot) → get_elem? win i ≡ some x → x.is_filled ≡ within p q i)
    → get_window_size win + (q - p) ≡ length win
unfolding get_window_size
filled_range [] p q l m h = omega arith
filled_range (x ∷ xs) p q l m h =
    let rest =
      filled_range xs (p - 1) (q - 1) (omega arith) (omega arith)
        (λ i y e. h (suc i) y e ∙ within-suc p q i) in
    ground (arith, rest, h 0 x refl)

vacant_range :
    (win : Window) (p q : ℕ)
    → p ≤ q
    → q ≤ length win
    → ((i : ℕ) (x : Slot) → get_elem? win i ≡ some x → x.is_filled ≡ not (within p q i))
    → get_window_size win ≡ q - p
unfolding get_window_size
vacant_range [] p q l m h = omega arith
vacant_range (x ∷ xs) p q l m h =
    let rest =
      vacant_range xs (p - 1) (q - 1) (omega arith) (omega arith)
        (λ i y e. h (suc i) y e ∙ ap not (within-suc p q i)) in
    ground (arith, rest, h 0 x refl)

module _ (w : ℕ) (word : ℕ → Bytes) (lo : ℕ) (s : Receiver) (o : InOrder w word lo s) where
  is_pending :
      (i : ℕ) (x : Slot)
      → get_elem? s.window i ≡ some x
      → x.is_filled ≡ ltb (number w o.base o.r i) (o.base + o.r + o.n)
  is_pending i x e = elim (dec_lt (number w o.base o.r i) (o.base + o.r + o.n)) [
    | yes p ↦ let (f, _, _) = (o.slots i x e).full p in ground arith
    | no p ↦ let v = (o.slots i x e).vacant (omega arith) in ground arith
  ]

  inside_array : (i : ℕ) (x : Slot) → get_elem? s.window i ≡ some x → i < w
  inside_array i x e = omega (arith, lt-length_of_get_elem? s.window i e, o.size)

  -- The window that an acknowledgement offers is exactly the room that is left: the slots, less the
  -- numbers that are accepted and not printed yet. The window of the client is in order.
  pub get_window_size-pending : get_window_size s.window + (s.expected - lo) ≡ w
  get_window_size-pending = elim (dec_lt w (o.r + o.n)) [
    | yes p ↦ omega (
      arith,
      vacant_range s.window (o.r + o.n - w) o.r (omega (arith, o.pending))
          (omega (arith, o.inside, o.size))
          (λ i x e. is_pending i x e ∙ ground (arith, inside_array i x e)),
      o.low,
      o.next,
      o.pending,
    )
    | no p ↦ omega (
      arith,
      filled_range s.window o.r (o.r + o.n) (omega arith) (omega (arith, o.size))
          (λ i x e. is_pending i x e ∙ ground (arith, inside_array i x e)),
      o.low,
      o.next,
      o.size,
    )
  ]

  -- The pass with which `main` ends prints the numbers that are pending in a window in order only as far
  -- as they lie before the end of the array: those that have gone round to its start are lost.
  pub last_pass-printed : (last_pass s).1 ≡ stream word lo (min (s.expected - lo) (w - lo % w))
  unfolding last_pass
  last_pass-printed = let (c, e, q, _) = read_buffer-InOrder w word lo s o in rw q at e

-- How many numbers the first two passes print.
passes_add :
    (w lo n c d : ℕ)
    → 0 < w
    → n ≤ w
    → c ≡ min n (w - lo % w)
    → d ≡ min (n - c) (w - (lo + c) % w)
    → (lo + (w - lo % w)) % w ≡ 0
    → c + d ≡ n
passes_add w lo n c d p l e f back = elim (dec_lt n (w - lo % w)) [
  | yes q ↦ omega arith
  | no q ↦
      let i : c ≡ w - lo % w = omega arith in
      let g : (lo + c) % w ≡ 0 = rw i back in omega (arith, g)
]

-- Two passes of the reader print every number that is pending in a window in order, with its words
-- and in order, and leave every slot free.
pub two_passes :
    (w : ℕ) (word : ℕ → Bytes) (lo : ℕ) (s : Receiver)
    → InOrder w word lo s
    → let first = read_buffer s.window in
      let second = read_buffer first.0 in
      (first.1 ++ second.1 ≡ stream word lo (s.expected - lo)) × (get_window_size second.0 ≡ w)
two_passes w word lo s o =
    let (c, e, q, o₁) = read_buffer-InOrder w word lo s o in
    let go_round : (lo + (w - lo % w)) % w ≡ 0 =
      ap (λ (n : ℕ). n % w) (omega (arith, lo_index w word lo s o, o.low, o.inside))
      ∙ next_aligned o.base w o.aligned in
    let s₁ = record s { window = (read_buffer s.window).0 } in
    let (d, f, q₁, o₂) = read_buffer-InOrder w word (lo + c) s₁ o₁ in
    let s₂ = record s { window = (read_buffer s₁.window).0 } in
    let all : c + d ≡ s.expected - lo =
      passes_add w lo (s.expected - lo) c d (omega (arith, o.inside))
        (omega (arith, o.low, o.next, o.pending)) q
        (q₁ ∙ ap (λ (n : ℕ). min n (w - (lo + c) % w)) (omega arith)) go_round in
    (
      rw (e, f) (stream-append word lo c d ∙ ap (stream word lo) all),
      omega (arith, get_window_size-pending w word (lo + c + d) s₂ o₂, all),
    )
