-- ===== src/Transfer/Locality.antt =====
-- Which interface of a host an address is local to (`check_addr_local` of hw2/common.c).
use Prim.Native.Nat.{bit_and}
use mathlib.Core.Option.{some-injective}
use network_programming.Base.{
  ℕ, zero, suc, ◌+◌, ◌≤◌, ◌<◌, Bool, true, false, some, List, [], ◌∷◌, get_elem?, ltb, ◌==◌,
  if◌then◌else◌, Bytes, text, str_eq, ◌≡◌, refl, sym, ◌∙◌, ap, subst, inl, inr, ◌⊎◌, arith,
  Bool-cases,
}

-- `iAddr`
pub record IAddr : Type 0 where
  pub ip_addr : Bytes
  pub mask : Bytes

abbrev pub localhost : Bytes
localhost = text "127.0.0.1"

-- The parameter is what `Inet_pton` leaves in `s_addr`, as a number of the host.
module _ (s_addr : Bytes → ℕ) where
  -- Under the mask of the interface, the address is that of the interface.
  abbrev pub is_near : Bytes → IAddr → Bool
  is_near address a =
      bit_and (s_addr address) (s_addr a.mask) == bit_and (s_addr a.ip_addr) (s_addr a.mask)

  -- What one round of the loop makes of `local` and `maxMask`.
  unfoldable pub consider : Bytes → IAddr → ℕ → ℕ × ℕ → ℕ × ℕ
  consider address a i best =
      if is_near address a
      then if ltb best.1 (s_addr a.mask)
        then (i, s_addr a.mask)
        else if best.0 == 0
        then (i, best.1)
        else best
      else best

  unfoldable pub scan : Bytes → List IAddr → ℕ → ℕ × ℕ → ℕ × ℕ
  scan address [] i best = best
  scan address (a ∷ addr) i best = scan address addr (i + 1) (consider address a i best)

  unfoldable pub check_addr_local : Bytes → List IAddr → ℕ
  check_addr_local address addr =
      if str_eq address localhost then 1 else (scan address addr 0 (0, 0)).0

  scan_grows :
      (address : Bytes) (addr : List IAddr) (i : ℕ) (best : ℕ × ℕ)
      → best.1 ≤ (scan address addr i best).1
  unfolding scan consider
  scan_grows address [] i best = omega arith
  scan_grows address (a ∷ addr) i best =
      ground (arith, scan_grows address addr (i + 1) (consider address a i best))

  consider_above :
      (address : Bytes) (a : IAddr) (i : ℕ) (best : ℕ × ℕ)
      → is_near address a ≡ true
      → s_addr a.mask ≤ (consider address a i best).1
  unfolding consider
  consider_above address a i best n = ground arith

  -- Every interface that is near has a mask that is not above the one found.
  scan_above :
      (address : Bytes) (addr : List IAddr) (i : ℕ) (best : ℕ × ℕ) (j : ℕ) (a : IAddr)
      → get_elem? addr j ≡ some a
      → is_near address a ≡ true
      → s_addr a.mask ≤ (scan address addr i best).1
  unfolding scan consider
  scan_above address [] i best j a e n = cc
  scan_above address (b ∷ addr) i best zero a e n =
      let q = some-injective b a e in
      let near = ap (λ (x : IAddr). is_near address x) q ∙ n in
      let mask = ap (λ (x : IAddr). s_addr x.mask) q in
      omega (
        arith,
        mask,
        consider_above address b i best near,
        scan_grows address addr (i + 1) (consider address b i best),
      )
  scan_above address (b ∷ addr) i best (suc j) a e n =
      scan_above address addr (i + 1) (consider address b i best) j a e n

  -- The first interface is not near.
  abbrev pub IsFirstFar : Bytes → List IAddr → Type 0
  IsFirstFar address all = (a : IAddr) → get_elem? all 0 ≡ some a → is_near address a ≡ false

  -- The index is that of an interface that is near and has the mask found.
  abbrev IsFound : Bytes → List IAddr → ℕ × ℕ → Type 0
  IsFound address all best =
      (best.1 ≡ 0)
      ⊎ (a : IAddr) × (0 < best.0)
        × (get_elem? all best.0 ≡ some a)
        × (is_near address a ≡ true)
        × (s_addr a.mask ≡ best.1)

  consider-IsFound :
      (address : Bytes) (all : List IAddr) (a : IAddr) (i : ℕ) (best : ℕ × ℕ)
      → IsFirstFar address all
      → get_elem? all i ≡ some a
      → IsFound address all best
      → IsFound address all (consider address a i best)
  unfolding consider
  consider-IsFound address all a i best far e f = elim (Bool-cases (is_near address a)) [
    | inr n ↦
        let q : best ≡ consider address a i best = ground arith in subst (IsFound address all) q f
    | inl n ↦ elim (Bool-cases (ltb best.1 (s_addr a.mask))) [
      | inl l ↦
          let q : (i, s_addr a.mask) ≡ consider address a i best = ground arith in
          subst (IsFound address all) q (inr (a, behind_first i e n, e, n, refl))
      | inr l ↦ elim f [
        | inl z ↦ inl (ground arith)
        | inr (b, p, g, h, m) ↦
            let q : best ≡ consider address a i best = ground arith in
            subst (IsFound address all) q (inr (b, p, g, h, m))
      ]
    ]
  ]
    where
      behind_first : (i : ℕ) → get_elem? all i ≡ some a → is_near address a ≡ true → 0 < i
      behind_first zero e n = absurd (ground (arith, far a e))
      behind_first (suc i) e n = omega arith

  scan-IsFound :
      (address : Bytes) (all addr : List IAddr) (i : ℕ) (best : ℕ × ℕ)
      → IsFirstFar address all
      → ((k : ℕ) → get_elem? addr k ≡ get_elem? all (i + k))
      → IsFound address all best
      → IsFound address all (scan address addr i best)
  unfolding scan
  scan-IsFound address all [] i best far h f = f
  scan-IsFound address all (a ∷ addr) i best far h f =
      scan-IsFound address all addr (i + 1) (consider address a i best) far
        (λ k. h (suc k) ∙ ap (λ n. get_elem? all n) (omega arith))
        (consider-IsFound address all a i best far
          (ap (λ n. get_elem? all n) (omega arith) ∙ sym (h 0)) f)

  -- Where the first interface is not near: if an address other than that of the host itself is near
  -- an interface with a mask that is not zero, the index that is found is that of an interface that
  -- is near too, and its mask is not below that mask.
  pub check_addr_local-longest :
      (address : Bytes) (addr : List IAddr) (j : ℕ) (a : IAddr)
      → str_eq address localhost ≡ false
      → IsFirstFar address addr
      → get_elem? addr j ≡ some a
      → is_near address a ≡ true
      → 0 < s_addr a.mask
      → (b : IAddr) × (get_elem? addr (check_addr_local address addr) ≡ some b)
        × (is_near address b ≡ true)
        × (s_addr a.mask ≤ s_addr b.mask)
  unfolding check_addr_local
  check_addr_local-longest address addr j a d far e n p =
      let m = scan_above address addr 0 (0, 0) j a e n in
      elim (scan-IsFound address addr addr 0 (0, 0) far
        (λ k. ap (λ i. get_elem? addr i) (omega arith)) (inl refl)) [
          | inl z ↦ absurd (omega (arith, m, z, p))
          | inr (b, _, f, g, q) ↦ rw d (b, f, g, omega (arith, m, q))
        ]
