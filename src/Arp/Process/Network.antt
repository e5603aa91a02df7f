-- ===== src/Arp/Process/Network.antt =====
-- Two hosts on one network: the resolution of an address from the client that asks to the client
-- that is answered.
use network_programming.Base.{
  ℕ, ◌<◌, none, some, List, [], ◌∷◌, ◌++◌, str_eq, str_eq_refl, ◌≡◌, ◌≢◌, refl, sym, ◌∙◌, ap,
}
use mathlib.Core.Option.{some-injective}
use network_programming.Arp.Types.{HwAddr, Out, reply, close, Arp, zero_details, no_fd}
use network_programming.Arp.Cache.{entry_of}
use network_programming.Arp.Cache.Lookup.{IsPacked, lookup}
use network_programming.Arp.Process.{
  b_mac, prepare_arp_req_reply, send_packet, handle_client, answer_packet, process_frame,
}
use network_programming.Arp.Process.Resolve.{
  request_for, handle_client-unknown, handle_request-lookup, ask-answer, process_frame-request,
  process_frame-response,
}

-- A client of host `a` asks for the address of host `b`, which `a` does not hold. The request that
-- `a` broadcasts makes `b` send one frame, to the Ethernet address of `a`; that frame makes `a` tell
-- the client the Ethernet address of `b` and close its connection; and `b` then holds the address
-- of `a`.
pub resolution :
    (fd : ℕ) (a b a' b' a'' : Arp) {asked answered told : List Out}
    → IsPacked a.cache
    → IsPacked b.cache
    → lookup b.src_ip a.cache ≡ none
    → 0 < fd
    → b.src_ip ≢ []
    → handle_client fd b.src_ip a ≡ some (a', asked)
    → process_frame (request_for b.src_ip a) b ≡ some (b', answered)
    → process_frame (answer_packet (request_for b.src_ip a) b) a' ≡ some (a'', told)
    → (asked ≡ send_packet b_mac a.src_mac a.src_ifindex (request_for b.src_ip a) ∷ [])
      × (answered
          ≡ send_packet a.src_mac b.src_mac b.src_ifindex (answer_packet (request_for b.src_ip a) b)
            ∷ [])
      × ((h : HwAddr) × (told ≡ reply fd h ∷ close fd ∷ [])
          × (h.sll_addr ≡ b.src_mac ++ (0 ∷ 0 ∷ [])))
      × (lookup a.src_ip b'.cache
          ≡ some (entry_of (record zero_details { ip = a.src_ip; mac = a.src_mac }) no_fd))
unfolding prepare_arp_req_reply answer_packet str_eq
resolution fd a b a' b' a'' ka kb n pos ne h₁ h₂ h₃ =
    let req = request_for b.src_ip a in
    let ans = answer_packet req b in
    let e₂ = sym (process_frame-request req b refl refl) ∙ h₂ in
    let e₃ = sym (process_frame-response ans a' refl refl) ∙ h₃ in
    let (l, _, o, _) = handle_request-lookup req b kb (str_eq_refl b.src_ip) e₂ in
    let (hw, t, m, _) = ask-answer fd b.src_ip ans a ka n pos ne refl h₁ in
    (
      (handle_client-unknown fd b.src_ip a n h₁).2,
      o,
      (hw, ap (λ (r : Arp × List Out). r.1) (sym (some-injective _ _ e₃)) ∙ t, m),
      l,
    )
