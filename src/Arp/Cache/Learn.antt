-- ===== src/Arp/Cache/Learn.antt =====
-- What a response does to the entries of the cache.
use network_programming.Base.{
  ℕ, zero, suc, Option, none, some, List, [], ◌∷◌, set, get_elem?, All, find_index, if◌then◌else◌,
  Bytes, str_eq, str_eq_refl, eq_of_str_eq, ◌≡◌, ◌≢◌, refl, arith, Bool-cases, Option-cases, inl,
  inr,
}
use network_programming.Arp.Types.{Entry, ArpReqReply}
use network_programming.Arp.Cache.{has_ip, learned, update_response_in_cache}
use network_programming.Arp.Cache.Lookup.{IsVacant, IsPacked, lookup}

-- The list that the update leaves.
abbrev pub learn_list : ArpReqReply → List Entry → List Entry
learn_list p [] = []
learn_list p (e ∷ es) = if has_ip p.sender_ip e then learned p e ∷ es else e ∷ learn_list p es

abbrev pub learned? : ArpReqReply → Option Entry → Option Entry
learned? p none = none
learned? p (some e) = some (learned p e)

update-learn_list :
    (p : ArpReqReply) (es : List Entry) (i : ℕ)
    → find_index (has_ip p.sender_ip) es ≡ some i
    → (e : Entry) × (get_elem? es i ≡ some e) × (set es i (learned p e) ≡ learn_list p es)
update-learn_list p [] i h = absurd (ground arith)
update-learn_list p (e ∷ es) zero h = (e, refl, ground arith)
update-learn_list p (e ∷ es) (suc i) h =
    let (x, g, q) = update-learn_list p es i (ground arith) in (x, g, ground arith)

learn_list-none :
    (p : ArpReqReply) (es : List Entry)
    → find_index (has_ip p.sender_ip) es ≡ none
    → learn_list p es ≡ es
learn_list-none p [] h = refl
learn_list-none p (e ∷ es) h = ground (arith, learn_list-none p es)

pub update_response-learn_list :
    (p : ArpReqReply) (es : List Entry) → (update_response_in_cache es p).0 ≡ learn_list p es
unfolding update_response_in_cache
update_response-learn_list p es = elim (Option-cases (find_index (has_ip p.sender_ip) es)) [
  | inl n ↦ ground (arith, learn_list-none p es n)
  | inr (i, e) ↦ let (x, g, q) = update-learn_list p es i e in ground arith
]

learn_list-vacant :
    (p : ArpReqReply) (es : List Entry) → p.sender_ip ≢ [] → All IsVacant es → learn_list p es ≡ es
learn_list-vacant p [] n h = refl
learn_list-vacant p (e ∷ es) n h =
    ground (arith, h.0, eq_of_str_eq e.ip p.sender_ip, learn_list-vacant p es n h.1)

-- In a packed cache a response changes the entry of its sender, which takes the sender's Ethernet
-- address and interface 2, and nothing else. No entry is added.
pub lookup-learn :
    (p : ArpReqReply) (ip : Bytes) (es : List Entry)
    → p.sender_ip ≢ []
    → IsPacked es
    → lookup ip (learn_list p es)
      ≡ (if str_eq p.sender_ip ip then learned? p (lookup ip es) else lookup ip es)
lookup-learn p ip [] n h = ground arith
lookup-learn p ip (e ∷ es) n (inr (u, us)) =
    rw (learn_list-vacant p (e ∷ es) n (u, us)) (ground (arith, u))
lookup-learn p ip (e ∷ es) n (inl (u, us)) = ground (
  arith,
  lookup-learn p ip es n us,
  eq_of_str_eq e.ip ip,
  eq_of_str_eq e.ip p.sender_ip,
  eq_of_str_eq p.sender_ip ip,
  str_eq_refl ip,
)

pub IsPacked-learn :
    (p : ArpReqReply) (es : List Entry)
    → p.sender_ip ≢ []
    → IsPacked es
    → IsPacked (learn_list p es)
IsPacked-learn p [] n h = tt
IsPacked-learn p (e ∷ es) n (inr (u, us)) =
    rw (learn_list-vacant p (e ∷ es) n (u, us)) (inr (u, us))
IsPacked-learn p (e ∷ es) n (inl (u, us)) = elim (Bool-cases (has_ip p.sender_ip e)) [
  | inl y ↦ rw y (inl (refl, us))
  | inr y ↦ rw y (inl (u, IsPacked-learn p es n us))
]
