-- ===== src/Transfer/Receiver/Scan.antt =====
-- The loops of the client over its window, pointwise.
use network_programming.Base.{
  ℕ, zero, suc, ◌+◌, ◌-◌, ◌≤◌, ◌<◌, min, Bool, true, false, ◌&&◌, some, List, [], ◌∷◌, length,
  get_elem?, ltb, if◌then◌else◌, Bytes, ◌≡◌, ◌≢◌, refl, ◌∙◌, ap, subst, arith, drop, Bool-cases,
  inl, inr,
}
use native.Mathlib.Nat.{zero-add, suc-add}
use network_programming.Transfer.Receiver.{
  Slot, Window, Line, holds_seq, ispresent, min_seq_num_from, drain, drain_from,
}

-- A number that no slot holds is not present.
pub ispresent-false :
    (n : ℕ) (w : Window)
    → ((i : ℕ) (x : Slot) → get_elem? w i ≡ some x → holds_seq n x ≡ false)
    → ispresent n w ≡ false
unfolding ispresent
ispresent-false n [] h = refl
ispresent-false n (x ∷ xs) h = rw (h 0 x refl) (ispresent-false n xs (λ i y e. h (suc i) y e))

pub ispresent-true :
    (n : ℕ) (w : Window) (i : ℕ) (x : Slot)
    → get_elem? w i ≡ some x
    → holds_seq n x ≡ true
    → ispresent n w ≡ true
unfolding ispresent
ispresent-true n [] i x e h = absurd (ground arith)
ispresent-true n (y ∷ xs) zero x e h = ground arith
ispresent-true n (y ∷ xs) (suc i) x e h = ground (arith, ispresent-true n xs i x e h)

-- The search keeps an index that no later slot improves on.
pub min_keeps :
    (w : Window) (i v m : ℕ)
    → ((j : ℕ) (y : Slot) → get_elem? w j ≡ some y → y.is_filled ≡ true → v < y.seq)
    → min_seq_num_from w i v m ≡ m
unfolding min_seq_num_from
min_keeps [] i v m h = refl
min_keeps (x ∷ xs) i v m h =
    ground (arith, h 0 x, min_keeps xs (i + 1) v m (λ j y e. h (suc j) y e))

-- The search finds a filled slot whose number is below that of every other filled slot.
pub min_finds :
    (w : Window) (i mv mi m : ℕ) (x : Slot)
    → get_elem? w m ≡ some x
    → x.is_filled ≡ true
    → x.seq < mv
    → ((j : ℕ) (y : Slot) → get_elem? w j ≡ some y → y.is_filled ≡ true → j ≢ m → x.seq < y.seq)
    → min_seq_num_from w i mv mi ≡ i + m
unfolding min_seq_num_from
min_finds [] i mv mi m x e f l h = absurd (ground arith)
min_finds (y ∷ ys) i mv mi zero x e f l h =
    ground (arith, min_keeps ys (i + 1) x.seq i (λ j z k g. h (suc j) z k g (omega arith)))
min_finds (y ∷ ys) i mv mi (suc m) x e f l h =
    let better = y.is_filled && ltb (min mv y.seq) mv in
    min_finds ys (i + 1) (if better then min mv y.seq else mv) (if better then i else mi) m x e f
      (below refl) (λ j z k g ne. h (suc j) z k g (omega arith))
    ∙ omega arith
  where
    below :
        {b : Bool}
        → b ≡ (y.is_filled && ltb (min mv y.seq) mv)
        → x.seq < (if b then min mv y.seq else mv)
    below {b} q = elim (Bool-cases y.is_filled) [
      | inl g ↦ ground (arith, h 0 y refl g (omega arith))
      | inr g ↦ ground arith
    ]

-- The lines numbered from `k` on, `c` of them.
abbrev pub stream : (ℕ → Bytes) → ℕ → ℕ → List Line
stream word k zero = []
stream word k (suc c) = (k, word k) ∷ stream word (k + 1) c

-- A slot that is to hold number `k` exactly if `k` is below `hi`.
pub record Holds (word : ℕ → Bytes) (hi k : ℕ) (x : Slot) : Type 0 where
  pub full : k < hi → (x.is_filled ≡ true) × (x.seq ≡ k) × (x.content ≡ word k)
  pub vacant : hi ≤ k → x.is_filled ≡ false

-- Draining slots that hold consecutive numbers prints them in order.
pub drain-stream :
    (word : ℕ → Bytes) (hi : ℕ) (w : Window) (k c : ℕ)
    → c ≡ min (hi - k) (length w)
    → ((j : ℕ) (x : Slot) → get_elem? w j ≡ some x → Holds word hi (k + j) x)
    → (drain w).1 ≡ stream word k c
unfolding drain
drain-stream word hi [] k zero q h = refl
drain-stream word hi [] k (suc c) q h = absurd (omega arith)
drain-stream word hi (x ∷ xs) k zero q h =
    let v = (h 0 x refl).vacant (omega arith) in
    rw v (
      drain-stream word hi xs (k + 1) zero (omega arith)
        (λ j y e. subst (λ n. Holds word hi n y) (omega arith) (h (suc j) y e)))
drain-stream word hi (x ∷ xs) k (suc c) q h =
    let first : Holds word hi k x = subst (λ n. Holds word hi n x) (omega arith) (h 0 x refl) in
    let (f, g, d) = first.full (omega arith) in
    ground (
      arith,
      drain-stream word hi xs (k + 1) c (omega arith)
          (λ j y e. subst (λ n. Holds word hi n y) (omega arith) (h (suc j) y e)),
    )

drain-get_elem? :
    (w : Window) (i : ℕ) (y : Slot)
    → get_elem? (drain w).0 i ≡ some y
    → (x : Slot) × (get_elem? w i ≡ some x) × (y.is_filled ≡ false)
unfolding drain
drain-get_elem? [] i y h = absurd (ground arith)
drain-get_elem? (x ∷ xs) zero y h = (x, refl, ground arith)
drain-get_elem? (x ∷ xs) (suc i) y h = drain-get_elem? xs i y (ground arith)

-- Every slot is as it was, but from index `m` on it is not filled.
pub drain_from-get_elem? :
    (m : ℕ) (w : Window) (i : ℕ) (y : Slot)
    → get_elem? (drain_from m w).0 i ≡ some y
    → (x : Slot) × (get_elem? w i ≡ some x) × (i < m → y ≡ x) × (m ≤ i → y.is_filled ≡ false)
unfolding drain_from
drain_from-get_elem? zero w i y h =
    let (x, e, f) = drain-get_elem? w i y h in (x, e, (λ l. absurd (omega arith)), λ _. f)
drain_from-get_elem? (suc m) [] i y h = absurd (ground arith)
drain_from-get_elem? (suc m) (z ∷ zs) zero y h =
    (z, refl, (λ _. ground arith), λ l. absurd (omega arith))
drain_from-get_elem? (suc m) (z ∷ zs) (suc i) y h =
    let (x, e, f, g) = drain_from-get_elem? m zs i y h in
    (x, e, (λ l. f (omega arith)), λ l. g (omega arith))

length-drain : (w : Window) → length (drain w).0 ≡ length w
unfolding drain
length-drain [] = refl
length-drain (x ∷ xs) = ground (arith, length-drain xs)

pub length-drain_from : (m : ℕ) (w : Window) → length (drain_from m w).0 ≡ length w
unfolding drain_from
length-drain_from zero w = length-drain w
length-drain_from (suc m) [] = refl
length-drain_from (suc m) (x ∷ xs) = ap suc (length-drain_from m xs)

-- What is printed is what draining the slots from index `m` on prints.
pub drain_from-drop : (m : ℕ) (w : Window) → (drain_from m w).1 ≡ (drain (drop m w)).1
unfolding drain_from drain
drain_from-drop zero w = refl
drain_from-drop (suc m) [] = refl
drain_from-drop (suc m) (x ∷ xs) = drain_from-drop m xs

pub get_elem?-drop : (m : ℕ) (w : Window) (j : ℕ) → get_elem? (drop m w) j ≡ get_elem? w (m + j)
get_elem?-drop zero w j = rw zero-add
get_elem?-drop (suc m) [] j = refl
get_elem?-drop (suc m) (x ∷ xs) j = rw suc-add (get_elem?-drop m xs j)

pub length-drop : (m : ℕ) (w : Window) → length (drop m w) ≡ length w - m
length-drop zero w = omega arith
length-drop (suc m) [] = omega arith
length-drop (suc m) (x ∷ xs) = omega (arith, length-drop m xs)
