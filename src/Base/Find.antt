-- ===== src/Base/Find.antt =====
-- The search loop `for (i = 0; i < n; i++) if (p(a[i])) ...`: the first index that passes, and
-- what a write at that index does to later searches.
use Prim.Native.Nat.{ℕ, zero, suc, ◌<◌}
use mathlib.Core.Path.{◌≡◌, refl, ap}
use mathlib.Core.Logic.{inl, inr}
use mathlib.Core.Bool.{Bool, true, false}
use mathlib.Core.Option.{Option, none, some}
use mathlib.Core.List.{List, [], ◌∷◌}
use native.Mathlib.Omega.{arith}
use network_programming.Base.Tests.{if◌then◌else◌, Bool-cases, is_some}
use network_programming.Base.Lists.{length, get_elem?, set, All}

abbrev pub suc? : Option ℕ → Option ℕ
suc? none = none
suc? (some i) = some (suc i)

pub suc?-some : (o : Option ℕ) (i : ℕ) → suc? o ≡ some i → (j : ℕ) × (o ≡ some j) × (i ≡ suc j)
suc?-some none i h = absurd (ground arith)
suc?-some (some j) i h = (j, refl, ground arith)

module _ {ℓ} {A : Type ℓ} where
  abbrev pub find_index : (A → Bool) → List A → Option ℕ
  find_index p [] = none
  find_index p (x ∷ xs) = if p x then some 0 else suc? (find_index p xs)

  -- The element at that index.
  abbrev pub find : (A → Bool) → List A → Option A
  find p [] = none
  find p (x ∷ xs) = if p x then some x else find p xs

  -- A write at that index.
  abbrev pub replace_first : (A → Bool) → A → List A → List A
  replace_first p v [] = []
  replace_first p v (x ∷ xs) = if p x then v ∷ xs else x ∷ replace_first p v xs

  pub get_elem?-find_index :
      (p : A → Bool) (xs : List A) (i : ℕ) → find_index p xs ≡ some i → get_elem? xs i ≡ find p xs
  get_elem?-find_index p [] i h = refl
  get_elem?-find_index p (x ∷ xs) i h = elim (Bool-cases (p x)) [
    | inl e ↦ here e i (rw e at h)
    | inr e ↦
        let (j, f, g) = suc?-some (find_index p xs) i (rw e at h) in
        rw (g, e) (get_elem?-find_index p xs j f)
  ]
    where
      here : p x ≡ true → (k : ℕ) → some 0 ≡ some k → get_elem? (x ∷ xs) k ≡ find p (x ∷ xs)
      here e zero h = rw e
      here e (suc k) h = ground arith

  pub set-find_index :
      (p : A → Bool) (xs : List A) (i : ℕ) (v : A)
      → find_index p xs ≡ some i
      → set xs i v ≡ replace_first p v xs
  set-find_index p [] i v h = refl
  set-find_index p (x ∷ xs) i v h = elim (Bool-cases (p x)) [
    | inl e ↦ here e i (rw e at h)
    | inr e ↦
        let (j, f, g) = suc?-some (find_index p xs) i (rw e at h) in
        rw (g, e) (ap (λ ys. x ∷ ys) (set-find_index p xs j v f))
  ]
    where
      here : p x ≡ true → (k : ℕ) → some 0 ≡ some k → set (x ∷ xs) k v ≡ replace_first p v (x ∷ xs)
      here e zero h = rw e
      here e (suc k) h = ground arith

  pub find-none : (p : A → Bool) (xs : List A) → find_index p xs ≡ none → find p xs ≡ none
  find-none p [] h = refl
  find-none p (x ∷ xs) h = ground (arith, find-none p xs)

  pub find-some :
      (p : A → Bool) (xs : List A) (i : ℕ)
      → find_index p xs ≡ some i
      → (x : A) × (find p xs ≡ some x) × (p x ≡ true)
  find-some p [] i h = absurd (ground arith)
  find-some p (x ∷ xs) i h = elim (Bool-cases (p x)) [
    | inl e ↦ (x, rw e, e)
    | inr e ↦
        let (j, f, _) = suc?-some (find_index p xs) i (rw e at h) in
        let (y, g, q) = find-some p xs j f in (y, rw e g, q)
  ]

  pub find_index-lt :
      (p : A → Bool) (xs : List A) (i : ℕ) → find_index p xs ≡ some i → i < length xs
  find_index-lt p [] i h = absurd (ground arith)
  find_index-lt p (x ∷ xs) i h = elim (Bool-cases (p x)) [
    | inl e ↦ ground arith
    | inr e ↦
        let (j, f, g) = suc?-some (find_index p xs) i (rw e at h) in
        omega (arith, find_index-lt p xs j f)
  ]

  -- A search that passes over both the old element and the new one sees no change.
  pub find-replace_first_skip :
      (p q : A → Bool) (v : A) (xs : List A)
      → All (λ x. p x ≡ true → q x ≡ false) xs
      → q v ≡ false
      → find q (replace_first p v xs) ≡ find q xs
  find-replace_first_skip p q v [] d h = refl
  find-replace_first_skip p q v (x ∷ xs) d h =
      ground (arith, d.0, find-replace_first_skip p q v xs d.1 h)

  -- A search that fails before the write finds the new element, if that passes.
  pub find-replace_first_new :
      (p q : A → Bool) (v : A) (xs : List A)
      → is_some (find_index p xs) ≡ true
      → find q xs ≡ none
      → q v ≡ true
      → find q (replace_first p v xs) ≡ some v
  find-replace_first_new p q v [] i n h = cc
  find-replace_first_new p q v (x ∷ xs) i n h = elim (Bool-cases (q x)) [
    | inl e ↦ ground arith
    | inr e ↦ ground (arith, find-replace_first_new p q v xs)
  ]

  pub find-replace_first_self :
      (p : A → Bool) (v : A) (xs : List A)
      → is_some (find_index p xs) ≡ true
      → p v ≡ true
      → find p (replace_first p v xs) ≡ some v
  find-replace_first_self p v [] i h = cc
  find-replace_first_self p v (x ∷ xs) i h = ground (arith, find-replace_first_self p v xs)

  pub length-replace_first :
      (p : A → Bool) (v : A) (xs : List A) → length (replace_first p v xs) ≡ length xs
  length-replace_first p v [] = refl
  length-replace_first p v (x ∷ xs) = ground (arith, length-replace_first p v xs)

-- The results of a `do` block, which a missing one ends.
infixl 5 ◌>>=◌
abbrev pub ◌>>=◌ : {A B : Type 0} → Option A → (A → Option B) → Option B
none >>= f = none
some a >>= f = f a
