-- ===== src/Arp/Cache/Lookup.antt =====
-- What the cache stands for: a finite map from an address to the entry that holds it. The loops of
-- arp.c stop at the first entry that is not filled, so the map is that of the filled entries in
-- front; the invariant is that none is filled behind one that is not.
use network_programming.Base.{
  ℕ, true, false, Option, none, some, List, [], ◌∷◌, All, find, find_index, replace_first, ◌==◌,
  if◌then◌else◌, Bytes, str_eq, str_eq_refl, eq_of_str_eq, is_some, ◌≡◌, refl, arith, Bool-cases,
  Option-cases, inl, inr, ◌⊎◌, get_elem?-find_index, set-find_index, find-none, find-some,
  find_index-lt,
}
use network_programming.Arp.Types.{ServerDetails, Entry, no_fd}
use network_programming.Arp.Cache.{stops_at, entry_of, insert_into_cache, answer_entry, send_reply}

-- An entry that was never written.
abbrev pub IsVacant : Entry → Type 0
IsVacant e = ((e.filled == 1) ≡ false) × (e.ip ≡ [])

-- No entry is filled behind one that is not.
abbrev pub IsPacked : List Entry → Type 0
IsPacked [] = Unit
IsPacked (e ∷ es) = ((e.filled == 1) ≡ true) × IsPacked es ⊎ IsVacant e × All IsVacant es

pub IsPacked-vacant : (es : List Entry) → All IsVacant es → IsPacked es
IsPacked-vacant [] h = tt
IsPacked-vacant (e ∷ es) h = inr h

abbrev pub held : Option Entry → Option Entry
held none = none
held (some e) = if e.filled == 1 then some e else none

abbrev pub lookup : Bytes → List Entry → Option Entry
lookup ip cache = held (find (stops_at ip) cache)

lookup-vacant : (ip : Bytes) (es : List Entry) → All IsVacant es → lookup ip es ≡ none
lookup-vacant ip [] h = refl
lookup-vacant ip (e ∷ es) h = ground (arith, h.0)

-- A write at the place where the search for `k` stops.
pub lookup-replace_first :
    (k ip : Bytes) (v : Entry) (es : List Entry)
    → IsPacked es
    → v.ip ≡ k
    → (v.filled == 1) ≡ true
    → is_some (find_index (stops_at k) es) ≡ true
    → lookup ip (replace_first (stops_at k) v es) ≡ (if str_eq k ip then some v else lookup ip es)
lookup-replace_first k ip v [] p q f s = cc
lookup-replace_first k ip v (e ∷ es) (inr (u, us)) q f s = ground (arith, lookup-vacant ip es us)
lookup-replace_first k ip v (e ∷ es) (inl (u, us)) q f s = ground (
  arith,
  lookup-replace_first k ip v es us q f,
  eq_of_str_eq e.ip k,
  eq_of_str_eq e.ip ip,
  eq_of_str_eq k ip,
  str_eq_refl k,
)

pub IsPacked-replace_first :
    (k : Bytes) (v : Entry) (es : List Entry)
    → IsPacked es
    → (v.filled == 1) ≡ true
    → IsPacked (replace_first (stops_at k) v es)
IsPacked-replace_first k v [] p f = tt
IsPacked-replace_first k v (e ∷ es) (inr (u, us)) f =
    let stop : stops_at k e ≡ true = ground arith in rw stop (inl (f, IsPacked-vacant es us))
IsPacked-replace_first k v (e ∷ es) (inl (u, us)) f = elim (Bool-cases (stops_at k e)) [
  | inl stop ↦ rw stop (inl (f, us))
  | inr go ↦ rw go (inl (u, IsPacked-replace_first k v es us f))
]

-- An insertion that finds room: the entry is written where the search stops.
pub insert_cases :
    (cache : List Entry) (svd : ServerDetails) (fd : ℕ) {c : List Entry}
    → insert_into_cache cache svd fd ≡ some c
    → (is_some (find_index (stops_at svd.ip) cache) ≡ true)
      × (c ≡ replace_first (stops_at svd.ip) (entry_of svd fd) cache)
unfolding insert_into_cache
insert_cases cache svd fd {c} h = elim (Option-cases (find_index (stops_at svd.ip) cache)) [
  | inl n ↦ absurd (ground arith)
  | inr (i, e) ↦ (
    rw e,
    ground (
      arith,
      set-find_index (stops_at svd.ip) cache i (entry_of svd fd) e,
      find_index-lt (stops_at svd.ip) cache i e,
    ),
  )
]

-- The insertion fails, by a write behind the last entry, exactly if the search does not stop.
pub insert-is_some :
    (cache : List Entry) (svd : ServerDetails) (fd : ℕ)
    → is_some (insert_into_cache cache svd fd) ≡ is_some (find_index (stops_at svd.ip) cache)
unfolding insert_into_cache
insert-is_some cache svd fd = elim (Option-cases (find_index (stops_at svd.ip) cache)) [
  | inl n ↦ ground arith
  | inr (i, e) ↦ ground (arith, find_index-lt (stops_at svd.ip) cache i e)
]

-- An insertion makes the entry of its address the new one, and leaves every other address alone, in
-- a cache that is packed.
pub lookup-insert :
    (cache : List Entry) (svd : ServerDetails) (fd : ℕ) (ip : Bytes) {c : List Entry}
    → IsPacked cache
    → insert_into_cache cache svd fd ≡ some c
    → lookup ip c ≡ (if str_eq svd.ip ip then some (entry_of svd fd) else lookup ip cache)
lookup-insert cache svd fd ip p h =
    let (s, e) = insert_cases cache svd fd h in
    rw e (lookup-replace_first svd.ip ip (entry_of svd fd) cache p refl refl s)

-- A reply of `send_reply`, by the entry that the map holds.
pub send_reply-lookup :
    (cache : List Entry) (ip : Bytes) (fd : Option ℕ)
    → send_reply cache ip fd ≡ elim (lookup ip cache) [
      | none ↦ none
      | some e ↦
          some (replace_first (stops_at ip) (record e { fd = no_fd }) cache, answer_entry e fd)
    ]
unfolding send_reply
send_reply-lookup cache ip fd = elim (Option-cases (find_index (stops_at ip) cache)) [
  | inl n ↦ ground (arith, find-none (stops_at ip) cache n)
  | inr (i, e) ↦
      let (x, f, _) = find-some (stops_at ip) cache i e in
      ground (
        arith,
        get_elem?-find_index (stops_at ip) cache i e,
        set-find_index (stops_at ip) cache i (record x { fd = no_fd }) e,
      )
]
