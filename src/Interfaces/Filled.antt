-- ===== src/Interfaces/Filled.antt =====
-- What the loop over the interfaces leaves in the array.
use network_programming.Base.{
  ℕ, suc, ◌+◌, Bool, true, false, Option, none, some, List, [], ◌∷◌, ◌++◌, map, length, get_elem?,
  set, drop, leb, if◌then◌else◌, Bytes, ◌≡◌, refl, sym, ◌∙◌, inl, inr, arith, Bool-cases,
  length-append, append_snoc, get_elem?-append_at, set-append_at,
}
use network_programming.Interfaces.{HwaInfo, is_listed, populate_from}

module _ {ℓ} {S : Type ℓ} (is_skipped : Bytes → Bool) (details : HwaInfo → S) where
  -- The interfaces that are listed, in their order.
  abbrev pub listed : List HwaInfo → List HwaInfo
  listed [] = []
  listed (h ∷ hs) = if is_listed is_skipped details h then h ∷ listed hs else listed hs

  -- The array after the first places, and the count; `none` when there is no place for all.
  abbrev pub filled : List S → List S → List HwaInfo → Option (ℕ × List S)
  filled done rest hs =
      if leb (length hs) (length rest)
      then some (length done + length hs, done ++ (map details hs ++ drop (length hs) rest))
      else none

  get_elem?-end : (xs : List S) → get_elem? (xs ++ []) (length xs) ≡ none
  get_elem?-end [] = refl
  get_elem?-end (x ∷ xs) = get_elem?-end xs

  filled-none : (done rest : List S) → filled done rest [] ≡ some (length done, done ++ rest)
  filled-none done rest = ground arith

  filled-next :
      (done rest : List S) (y : S) (h : HwaInfo) (hs : List HwaInfo)
      → filled (done ++ (details h ∷ [])) rest hs ≡ filled done (y ∷ rest) (h ∷ hs)
  filled-next done rest y h hs = elim (Bool-cases (leb (length hs) (length rest))) [
    | inl e ↦
        let f : leb (suc (length hs)) (suc (length rest)) ≡ true = ground arith in
        let n : length (done ++ (details h ∷ [])) + length hs ≡ length done + suc (length hs) =
          omega (arith, length-append done (details h ∷ [])) in
        rw (e, f, n, append_snoc done (details h) (map details hs ++ drop (length hs) rest)) refl
    | inr e ↦
        let f : leb (suc (length hs)) (suc (length rest)) ≡ false = ground arith in rw (e, f) refl
  ]

  -- An interface that is listed takes the next place, if there is one.
  place_next :
      (h : HwaInfo) (hs : List HwaInfo) (done rest : List S)
      → ((xs : List S)
          → populate_from is_skipped details hs
              (length (done ++ (details h ∷ [])))
              ((done ++ (details h ∷ [])) ++ xs)
            ≡ filled (done ++ (details h ∷ [])) xs (listed hs))
      → elim (get_elem? (done ++ rest) (length done)) [
        | none ↦ none
        | some old ↦
            populate_from is_skipped details hs
              (length done + 1)
              (set (done ++ rest) (length done) (details h))
      ]
        ≡ filled done rest (h ∷ listed hs)
  place_next h hs done [] ih =
      let f : leb (suc (length (listed hs))) 0 ≡ false = ground arith in
      rw (get_elem?-end done, f) refl
  place_next h hs done (y ∷ rest) ih =
      let n : length (done ++ (details h ∷ [])) ≡ length done + 1 =
        length-append done (details h ∷ []) in
      rw (get_elem?-append_at done y rest, set-append_at done y rest (details h), sym n)
        (ih rest ∙ filled-next done rest y h (listed hs))

  pub populate_from-filled :
      (hs : List HwaInfo) (done rest : List S)
      → populate_from is_skipped details hs (length done) (done ++ rest)
        ≡ filled done rest (listed hs)
  unfolding populate_from
  populate_from-filled [] done rest = sym (filled-none done rest)
  populate_from-filled (h ∷ hs) done rest = elim (Bool-cases (is_listed is_skipped details h)) [
    | inl e ↦
        rw e
          (place_next h hs done rest (λ xs. populate_from-filled hs (done ++ (details h ∷ [])) xs))
    | inr e ↦ rw e (populate_from-filled hs done rest)
  ]
