-- ===== src/Transfer/Receiver/Order.antt =====
-- The window of the client holds consecutive datagrams, and what is printed is in order.
use network_programming.Base.{
  ℕ, zero, suc, ◌+◌, ◌-◌, ◌%◌, ◌≤◌, ◌<◌, true, false, not, ◌&&◌, some, length, set, get_elem?, ltb,
  ◌==◌, if◌then◌else◌, Bytes, ◌≡◌, ◌≢◌, refl, sym, subst, ◌∙◌, ap, arith, Bool-cases, Option-cases,
  inl, inr, ◌⊎◌, get_elem?-set_self, get_elem?-set_ne, lt-length_of_get_elem?,
}
use native.Mathlib.Nat.{mod-add-mod, mod-eq_of_lt, add-mod_right, zero-add, add_assoc}
use native.Mathlib.Decide.{dec_lt, ℕ_discrete}
use network_programming.Transfer.Receiver.{
  Slot, Window, Receiver, holds_seq, ispresent, int_max, push_at, push_data_to_buffer,
  update_expected_from,
}
use network_programming.Transfer.Receiver.Scan.{Holds, ispresent-false}

-- The number that the slot at index `i` stands for in a window of `w` slots, when the lowest number
-- not printed is `base + r`.
abbrev pub number : ℕ → ℕ → ℕ → ℕ → ℕ
number w base r i = if ltb i r then base + w + i else base + i

-- The window of `w` slots holds the numbers from `lo` up to the one that is expected, each with its
-- words in the slot at its remainder, and no other.
pub record InOrder (w : ℕ) (word : ℕ → Bytes) (lo : ℕ) (s : Receiver) : Type 0 where
  pub base : ℕ
  pub r : ℕ
  pub n : ℕ
  pub size : length s.window ≡ w
  pub aligned : base % w ≡ 0
  pub inside : r < w
  pub pending : n ≤ w
  pub low : lo ≡ base + r
  pub next : s.expected ≡ base + r + n
  pub bounded : s.expected ≤ int_max
  pub slots :
      (i : ℕ) (x : Slot)
      → get_elem? s.window i ≡ some x
      → Holds word (base + r + n) (number w base r i) x

pub mod_aligned : (base w j : ℕ) → base % w ≡ 0 → j < w → (base + j) % w ≡ j
mod_aligned base w j a h = sym (mod-add-mod base w j) ∙ rw (a, zero-add) (mod-eq_of_lt h)

pub next_aligned : (base w : ℕ) → base % w ≡ 0 → (base + w) % w ≡ 0
next_aligned base w a = add-mod_right base w ∙ a

-- The index of the slot for the number that is expected.
pub slot_index :
    (w base r n : ℕ)
    → base % w ≡ 0
    → r < w
    → n < w
    → let i = (base + r + n) % w in (i < w) × (number w base r i ≡ base + r + n)
slot_index w base r n a h k = elim (dec_lt (r + n) w) [
  | yes p ↦
      let e : (base + r + n) % w ≡ r + n =
        ap (λ (m : ℕ). m % w) (add_assoc base r n) ∙ mod_aligned base w (r + n) a p in
      rw e (p, ground arith)
  | no p ↦
      let e : (base + r + n) % w ≡ r + n - w =
        ap (λ (m : ℕ). m % w) (shift p)
        ∙ mod_aligned (base + w) w (r + n - w) (next_aligned base w a) (omega arith) in
      rw e (omega arith, ground arith)
]
  where
    shift : ¬ (r + n < w) → base + r + n ≡ base + w + (r + n - w)
    shift p = omega arith

-- Two slots stand for two numbers.
pub number-injective :
    (w base r i j : ℕ) → i < w → j < w → number w base r i ≡ number w base r j → i ≡ j
number-injective w base r i j p q e = ground arith

-- In a full window the slot at the remainder of the expected number is filled.
full_index : (w base r : ℕ) → base % w ≡ 0 → r < w → (base + r + w) % w ≡ r
full_index w base r a h =
    ap (λ (m : ℕ). m % w) (omega arith) ∙ mod_aligned (base + w) w r (next_aligned base w a) h

-- A slot that holds no number of its own still holds none when one more is let in.
Holds-suc :
    (word : ℕ → Bytes) (hi k : ℕ) (x : Slot) → k ≢ hi → Holds word hi k x → Holds word (hi + 1) k x
Holds-suc word hi k x ne h = record {
  full = λ l. h.full (omega arith);
  vacant = λ l. h.vacant (omega arith);
}

-- The number that is expected is not present in the window.
pub ispresent-expected :
    (w : ℕ) (word : ℕ → Bytes) (base r n : ℕ) (win : Window)
    → ((i : ℕ) (x : Slot)
        → get_elem? win i ≡ some x
        → Holds word (base + r + n) (number w base r i) x)
    → ispresent (base + r + n) win ≡ false
ispresent-expected w word base r n win h =
    ispresent-false (base + r + n) win (λ i x e. absent i x (h i x e))
  where
    absent :
        (i : ℕ) (x : Slot)
        → Holds word (base + r + n) (number w base r i) x
        → holds_seq (base + r + n) x ≡ false
    absent i x k = elim (dec_lt (number w base r i) (base + r + n)) [
      | yes p ↦ let (f, g, _) = k.full p in ground arith
      | no p ↦ let v = k.vacant (omega arith) in ground arith
    ]

pub update_expected_stay :
    (fuel : ℕ) (win : Window) (e : ℕ)
    → ispresent e win ≡ false
    → update_expected_from (suc fuel) win e ≡ some e
unfolding update_expected_from
update_expected_stay fuel win e h = rw h

pub update_expected_once :
    (fuel : ℕ) (win : Window) (e : ℕ)
    → ispresent e win ≡ true
    → ispresent (e + 1) win ≡ false
    → 1 ≤ fuel
    → update_expected_from (suc fuel) win e ≡ some (e + 1)
unfolding update_expected_from
update_expected_once zero win e h k p = absurd (omega arith)
update_expected_once (suc fuel) win e h k p = rw (h, k)

-- What a call of `push_data_to_buffer` did: nothing, or it stored the expected datagram.
pub push_cases :
    (win : Window) (buf : Bytes) (seq expected : ℕ)
    → (push_data_to_buffer win buf seq expected ≡ win)
      ⊎ ((x : Slot) × (get_elem? win (seq % length win) ≡ some x)
          × (x.is_filled ≡ false)
          × (seq ≡ expected)
          × (push_data_to_buffer win buf seq expected
              ≡ set win (seq % length win) (record { content = buf; is_filled = true; seq = seq })))
unfolding push_data_to_buffer push_at
push_cases win buf seq expected = elim (Option-cases (get_elem? win (seq % length win))) [
  | inl n ↦ inl (ground arith)
  | inr (x, e) ↦ elim (Bool-cases (not x.is_filled && (seq == expected))) [
    | inl y ↦ inr (x, e, ground arith, ground arith, ground arith)
    | inr y ↦ inl (ground arith)
  ]
]

-- A slot that is free for the expected number shows that the window is not full.
pub not_full :
    (w base r n : ℕ) (word : ℕ → Bytes) (win : Window) (x : Slot)
    → base % w ≡ 0
    → r < w
    → n ≤ w
    → ((i : ℕ) (y : Slot)
        → get_elem? win i ≡ some y
        → Holds word (base + r + n) (number w base r i) y)
    → get_elem? win ((base + r + n) % w) ≡ some x
    → x.is_filled ≡ false
    → n < w
not_full w base r n word win x a h k slots e f = elim (dec_lt n w) [
  | yes p ↦ p
  | no p ↦
      let q : n ≡ w = omega arith in
      let at_r : (base + r + n) % w ≡ r =
        ap (λ (m : ℕ). (base + r + m) % w) q ∙ full_index w base r a h in
      let s = slots r x (subst (λ (i : ℕ). get_elem? win i ≡ some x) at_r e) in
      let (g, _, _) = s.full (ground arith) in absurd (ground arith)
]

abbrev pub filled_slot : (ℕ → Bytes) → ℕ → Slot
filled_slot word k = record { content = word k; is_filled = true; seq = k }

-- The window after the expected number is stored in its slot holds one number more.
pub set_slots :
    (w base r n : ℕ) (word : ℕ → Bytes) (win : Window)
    → length win ≡ w
    → base % w ≡ 0
    → r < w
    → n < w
    → ((i : ℕ) (y : Slot)
        → get_elem? win i ≡ some y
        → Holds word (base + r + n) (number w base r i) y)
    → (i : ℕ) (y : Slot)
    → get_elem? (set win ((base + r + n) % w) (filled_slot word (base + r + n))) i ≡ some y
    → Holds word (base + r + n + 1) (number w base r i) y
set_slots w base r n word win z a h k slots i y e =
    let at = (base + r + n) % w in
    let (lt, num) = slot_index w base r n a h k in
    elim (ℕ_discrete at i) [
      | yes p ↦
          let new : y ≡ filled_slot word (base + r + n) =
            ground (arith, get_elem?-set_self win at (filled_slot word (base + r + n)), p) in
          let here : number w base r i ≡ base + r + n =
            subst (λ (j : ℕ). number w base r j ≡ base + r + n) p num in
          rw (new, here)
            (record { full = λ _. (refl, refl, refl); vacant = λ l. absurd (omega arith) })
      | no p ↦
          let old = sym (get_elem?-set_ne win at i (filled_slot word (base + r + n)) p) ∙ e in
          Holds-suc word (base + r + n) (number w base r i) y
            (λ q. p (
              number-injective w base r at i lt
                (subst (λ (m : ℕ). i < m) z (lt-length_of_get_elem? win i old)) (num ∙ sym q)))
            (slots i y old)
    ]
