-- ===== src/Base/Decimal.antt =====
-- `sprintf("%d")` of a natural number, and `atoi` on a text that starts with digits (leading
-- blanks and a sign, which no caller here writes, are not read).
use Prim.Native.Nat.{ℕ, zero, suc, ◌+◌, ◌-◌, ◌*◌, ◌/◌, ◌%◌, ◌<◌}
use mathlib.Core.Path.{◌≡◌, ap, ◌∙◌}
use mathlib.Core.Logic.{inl, inr}
use mathlib.Core.Bool.{Bool, true, ◌&&◌}
use mathlib.Core.List.{[], ◌∷◌}
use native.Mathlib.Omega.{arith}
use network_programming.Base.Tests.{ltb, leb, Bool-cases, if◌then◌else◌}
use network_programming.Base.Lists.{All}
use network_programming.Base.Text.{Bytes}

-- The digits of `n` in front of `acc`.
decimal_from : ℕ → ℕ → Bytes → Bytes
decimal_from zero n acc = acc
decimal_from (suc fuel) n acc =
    let rest = decimal_from fuel (n / 10) ((48 + n % 10) ∷ acc) in
    if ltb n 10 then (48 + n) ∷ acc else rest

unfoldable pub decimal : ℕ → Bytes
unfolding decimal_from
decimal n = decimal_from (suc n) n []

abbrev pub is_digit : ℕ → Bool
is_digit c = leb 48 c && leb c 57

atoi_from : ℕ → Bytes → ℕ
atoi_from n [] = n
atoi_from n (c ∷ cs) = let rest = atoi_from (n * 10 + (c - 48)) cs in if is_digit c then rest else n

unfoldable pub atoi : Bytes → ℕ
unfolding atoi_from
atoi s = atoi_from 0 s

is_digit-digit : (d : ℕ) → d < 10 → is_digit (48 + d) ≡ true
is_digit-digit d h = ground arith

atoi_from-digit :
    (n d : ℕ) (acc : Bytes) → d < 10 → atoi_from n ((48 + d) ∷ acc) ≡ atoi_from (n * 10 + d) acc
unfolding atoi_from
atoi_from-digit n d acc h = rw (is_digit-digit d h) (ap (λ (k : ℕ). atoi_from k acc) (omega arith))

atoi_from-decimal_from :
    (fuel n : ℕ) (acc : Bytes) → n < fuel → atoi_from 0 (decimal_from fuel n acc) ≡ atoi_from n acc
unfolding decimal_from
atoi_from-decimal_from zero n acc h = absurd (omega arith)
atoi_from-decimal_from (suc fuel) n acc h = elim (Bool-cases (ltb n 10)) [
  | inl e ↦
      rw e (atoi_from-digit 0 n acc (ground arith) ∙ ap (λ (k : ℕ). atoi_from k acc) (omega arith))
  | inr e ↦ rw e (
      atoi_from-decimal_from fuel (n / 10) ((48 + n % 10) ∷ acc) (ground arith)
      ∙ atoi_from-digit (n / 10) (n % 10) acc (omega arith)
      ∙ ap (λ (k : ℕ). atoi_from k acc) (omega arith))
]

pub atoi-decimal : (n : ℕ) → atoi (decimal n) ≡ n
unfolding atoi decimal
atoi-decimal n = atoi_from-decimal_from (suc n) n [] (omega arith)

-- Every byte that is printed is a digit.
decimal_from-is_digit :
    (fuel n : ℕ) (acc : Bytes)
    → All (λ c. is_digit c ≡ true) acc
    → All (λ c. is_digit c ≡ true) (decimal_from fuel n acc)
unfolding decimal_from
decimal_from-is_digit zero n acc h = h
decimal_from-is_digit (suc fuel) n acc h = elim (Bool-cases (ltb n 10)) [
  | inl e ↦ rw e (is_digit-digit n (ground arith), h)
  | inr e ↦ rw e (
      decimal_from-is_digit fuel (n / 10) ((48 + n % 10) ∷ acc)
        (is_digit-digit (n % 10) (omega arith), h))
]

pub decimal-is_digit : (n : ℕ) → All (λ c. is_digit c ≡ true) (decimal n)
unfolding decimal
decimal-is_digit n = decimal_from-is_digit (suc n) n [] tt
