-- ===== src/Arp/Loop/Reach.antt =====
-- The cache that the process starts with is packed, and every event keeps it so.
use network_programming.Base.{
  ℕ, true, Option, none, some, List, [], ◌∷◌, All, Bytes, str_eq, ◌==◌, ◌≡◌, ◌≢◌, refl, subst,
  arith, Bool-cases, Option-cases, inl, inr, ◌⊎◌, All-replicate, replicate, find, replace_first,
}
use mathlib.Core.Option.{some-injective}
use network_programming.Arp.Types.{
  ServerDetails, Entry, ArpReqReply, Out, Arp, zero_details, zero_entry, no_fd, num_cache_entries,
}
use network_programming.Arp.Cache.{
  entry_of, stops_at, insert_into_cache, send_reply, update_response_in_cache,
}
use network_programming.Arp.Cache.Lookup.{
  IsPacked, IsVacant, IsPacked-vacant, held, lookup, insert_cases, IsPacked-replace_first,
  send_reply-lookup,
}
use network_programming.Arp.Cache.Learn.{update_response-learn_list, IsPacked-learn}
use network_programming.Arp.Process.{
  identification, handle_client, send_req, handle_response, handle_request, process_frame,
  boot_cache, take_source, unbooted,
}
use network_programming.Arp.Loop.{Event, packet, client, boot, step, run}

IsPacked-insert :
    (cache : List Entry) (svd : ServerDetails) (fd : ℕ) {c : List Entry}
    → IsPacked cache
    → insert_into_cache cache svd fd ≡ some c
    → IsPacked c
IsPacked-insert cache svd fd k h =
    rw (insert_cases cache svd fd h).1
      (IsPacked-replace_first svd.ip (entry_of svd fd) cache k refl)

held-filled : (o : Option Entry) {e : Entry} → held o ≡ some e → (e.filled == 1) ≡ true
held-filled none h = absurd (ground arith)
held-filled (some x) h = ground arith

IsPacked-send_reply :
    (cache : List Entry) (ip : Bytes) (fd : Option ℕ) {c : List Entry} {outs : List Out}
    → IsPacked cache
    → send_reply cache ip fd ≡ some (c, outs)
    → IsPacked c
IsPacked-send_reply cache ip fd {c} k h = elim (Option-cases (lookup ip cache)) [
  | inl n ↦ absurd (ground (arith, send_reply-lookup cache ip fd))
  | inr (e, n) ↦
      let v = record e { fd = no_fd } in
      let q : c ≡ replace_first (stops_at ip) v cache =
        ground (arith, send_reply-lookup cache ip fd) in
      rw q (IsPacked-replace_first ip v cache k (held-filled (find (stops_at ip) cache) n))
]

take_source-cache : (svd : ServerDetails) (s : Arp) → (take_source svd s).cache ≡ s.cache
unfolding take_source
take_source-cache svd s = ground arith

boot_cache_cases :
    (svd : ServerDetails) (rest : List ServerDetails) (s : Arp) {s' : Arp}
    → boot_cache (svd ∷ rest) s ≡ some s'
    → (s ≡ s')
      ⊎ ((cache : List Entry) × (insert_into_cache s.cache svd no_fd ≡ some cache)
          × (boot_cache rest (record (take_source svd s) { cache = cache }) ≡ some s'))
unfolding boot_cache
boot_cache_cases svd rest s {s'} h = by_ip svd.ip refl
  where
    by_ip :
        (ip : Bytes)
        → svd.ip ≡ ip
        → (s ≡ s')
          ⊎ ((cache : List Entry) × (insert_into_cache s.cache svd no_fd ≡ some cache)
              × (boot_cache rest (record (take_source svd s) { cache = cache }) ≡ some s'))
    by_ip [] e = inl (ground arith)
    by_ip (c ∷ cs) e = elim (Option-cases (insert_into_cache s.cache svd no_fd)) [
      | inl n ↦ absurd (ground arith)
      | inr (cache, n) ↦ inr (cache, n, ground arith)
    ]

boot_cache-IsPacked :
    (sv : List ServerDetails) (s : Arp) {s' : Arp}
    → IsPacked s.cache
    → boot_cache sv s ≡ some s'
    → IsPacked s'.cache
unfolding boot_cache
boot_cache-IsPacked [] s k h = subst (λ (x : Arp). IsPacked x.cache) (some-injective s _ h) k
boot_cache-IsPacked (svd ∷ rest) s k h = elim (boot_cache_cases svd rest s h) [
  | inl e ↦ subst (λ (x : Arp). IsPacked x.cache) e k
  | inr (cache, n, r) ↦
      boot_cache-IsPacked rest (record (take_source svd s) { cache = cache })
        (IsPacked-insert s.cache svd no_fd k n) r
]

-- The sender of a packet that is processed has an address.
abbrev pub IsNamed : Event → Type 0
IsNamed (packet p) = p.sender_ip ≢ []
IsNamed (client connfd buf) = Unit

update_response-IsPacked :
    (p : ArpReqReply) (cache : List Entry)
    → p.sender_ip ≢ []
    → IsPacked cache
    → IsPacked (update_response_in_cache cache p).0
update_response-IsPacked p cache n k =
    rw (update_response-learn_list p cache) (IsPacked-learn p cache n k)

handle_response-IsPacked :
    (p : ArpReqReply) (s : Arp)
    → p.sender_ip ≢ []
    → IsPacked s.cache
    → IsPacked (handle_response p s).0.cache
unfolding handle_response
handle_response-IsPacked p s n k =
    let c = (update_response_in_cache s.cache p).0 in
    let k' = update_response-IsPacked p s.cache n k in
    elim (Option-cases (send_reply c p.sender_ip none)) [
      | inl m ↦ rw (m, handle_response) k'
      | inr (r, m) ↦ rw (m, handle_response) (IsPacked-send_reply c p.sender_ip none k' m)
    ]

handle_request-IsPacked :
    (p : ArpReqReply) (s : Arp) {s' : Arp} {outs : List Out}
    → p.sender_ip ≢ []
    → IsPacked s.cache
    → handle_request p s ≡ some (s', outs)
    → IsPacked s'.cache
unfolding handle_request
handle_request-IsPacked p s {s'} n k h =
    let d = record zero_details { ip = p.sender_ip; mac = p.sender_eth } in
    elim (Bool-cases (str_eq s.src_ip p.target_ip)) [
      | inr e ↦ subst IsPacked (ground arith) (update_response-IsPacked p s.cache n k)
      | inl e ↦ elim (Option-cases (insert_into_cache s.cache d no_fd)) [
        | inl m ↦ absurd (ground arith)
        | inr (c, m) ↦ subst IsPacked (ground arith) (IsPacked-insert s.cache d no_fd k m)
      ]
    ]

handle_client-IsPacked :
    (fd : ℕ) (buf : Bytes) (s : Arp) {s' : Arp} {outs : List Out}
    → IsPacked s.cache
    → handle_client fd buf s ≡ some (s', outs)
    → IsPacked s'.cache
unfolding handle_client send_req
handle_client-IsPacked fd buf s {s'} k h =
    let d = record zero_details { ip = buf } in
    elim (Option-cases (send_reply s.cache buf (some fd))) [
      | inr ((c, outs), m) ↦
          subst IsPacked (ground arith) (IsPacked-send_reply s.cache buf (some fd) k m)
      | inl e ↦ elim (Option-cases (insert_into_cache s.cache d fd)) [
        | inl m ↦ absurd (ground arith)
        | inr (c, m) ↦ subst IsPacked (ground arith) (IsPacked-insert s.cache d fd k m)
      ]
    ]

process_frame-IsPacked :
    (p : ArpReqReply) (s : Arp) {s' : Arp} {outs : List Out}
    → p.sender_ip ≢ []
    → IsPacked s.cache
    → process_frame p s ≡ some (s', outs)
    → IsPacked s'.cache
unfolding process_frame
process_frame-IsPacked p s {s'} {outs} n k h =
    elim (Bool-cases (str_eq p.identification identification)) [
      | inr e ↦ subst (λ (x : Arp). IsPacked x.cache) {x = s} {y = s'} (ground arith) k
      | inl e ↦ elim (Bool-cases (p.op == 1)) [
        | inl o ↦ handle_request-IsPacked p s {s' = s'} {outs = outs} n k (ground arith)
        | inr o ↦ elim (Bool-cases (p.op == 2)) [
          | inl q ↦
              subst (λ (x : Arp). IsPacked x.cache) {x = (handle_response p s).0} {y = s'}
                (ground arith) (handle_response-IsPacked p s n k)
          | inr q ↦ subst (λ (x : Arp). IsPacked x.cache) {x = s} {y = s'} (ground arith) k
        ]
      ]
    ]

pub step-IsPacked :
    (e : Event) (s : Arp) {s' : Arp} {outs : List Out}
    → IsNamed e
    → IsPacked s.cache
    → step e s ≡ some (s', outs)
    → IsPacked s'.cache
unfolding step
step-IsPacked (packet p) s n k h = process_frame-IsPacked p s n k h
step-IsPacked (client fd buf) s n k h = handle_client-IsPacked fd buf s k h

run_from-IsPacked :
    (es : List Event) (s : Arp) {s' : Arp} {outs : List Out}
    → All IsNamed es
    → IsPacked s.cache
    → run es s ≡ some (s', outs)
    → IsPacked s'.cache
unfolding run
run_from-IsPacked [] s n k h =
    subst (λ (r : Arp × List Out). IsPacked r.0.cache) (some-injective (s, []) _ h) k
run_from-IsPacked (e ∷ es) s {s' = last} n k h = elim (Option-cases (step e s)) [
  | inl m ↦ absurd (ground arith)
  | inr ((s', out), m) ↦ elim (Option-cases (run es s')) [
    | inl q ↦ absurd (ground arith)
    | inr ((s'', more), q) ↦
        subst (λ (x : Arp). IsPacked x.cache) {x = s''} {y = last} (ground arith)
          (run_from-IsPacked es s' n.1 (step-IsPacked e s n.0 k m) q)
  ]
]

-- From boot on, through any clients and any packets whose senders have an address, no entry of the
-- cache is filled behind one that is not, and those that are not filled have no address.
pub run-IsPacked :
    (sv : List ServerDetails) (proto : ℕ) (es : List Event) (s s' : Arp) {outs : List Out}
    → All IsNamed es
    → boot sv proto ≡ some s
    → run es s ≡ some (s', outs)
    → IsPacked s'.cache
unfolding boot
run-IsPacked sv proto es s s' n b h =
    run_from-IsPacked es s n
      (boot_cache-IsPacked sv (unbooted proto)
        (IsPacked-vacant (replicate num_cache_entries zero_entry)
          (All-replicate IsVacant num_cache_entries zero_entry (refl, refl)))
        b)
      h
