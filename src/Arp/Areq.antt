-- ===== src/Arp/Areq.antt =====
-- The client's end of a request for an address (`areq` of hw4/common.c).
use network_programming.Base.{
  ℕ, ◌<◌, none, some, List, [], ◌∷◌, ◌++◌, ◌==◌, if◌then◌else◌, Bytes, replicate, ◌≡◌, ◌≢◌, arith,
}
use network_programming.Arp.Types.{HwAddr, ArpReqReply, Out, frame, reply, close, Arp}
use network_programming.Arp.Cache.Lookup.{IsPacked, lookup}
use network_programming.Arp.Process.{handle_client, handle_response}
use network_programming.Arp.Process.Resolve.{ask-answer, second_client_misled}

abbrev pub zero_hwaddr : HwAddr
zero_hwaddr = record { sll_ifindex = 0; sll_hatype = 0; sll_halen = 0; sll_addr = replicate 8 0 }

-- What the socket brings within the second that `Select` waits: a message, the end of the connection,
-- which `Select` reports too, or nothing.
pub data Heard : Type 0 where
  message : HwAddr → Heard
  closed : Heard
  silence : Heard

-- The address, and the result. At the end of the connection `Read` leaves the zeros in `recvline`.
unfoldable pub areq : Heard → HwAddr × ℕ
areq (message h) = (h, 0)
areq closed = (zero_hwaddr, 0)
areq silence = (zero_hwaddr, 1)

-- What the client on `fd` hears of what the process does.
unfoldable pub heard : ℕ → List Out → Heard
heard fd [] = silence
heard fd (frame f ∷ outs) = heard fd outs
heard fd (reply d h ∷ outs) = if d == fd then message h else heard fd outs
heard fd (close d ∷ outs) = if d == fd then closed else heard fd outs

-- A client asks for an address that is not held, and the next event is a response of that address:
-- the call of the client succeeds with the Ethernet address of the sender.
pub areq-answer :
    (fd : ℕ) (ip : Bytes) (p : ArpReqReply) (s : Arp) {s' : Arp} {outs : List Out}
    → IsPacked s.cache
    → lookup ip s.cache ≡ none
    → 0 < fd
    → ip ≢ []
    → p.sender_ip ≡ ip
    → handle_client fd ip s ≡ some (s', outs)
    → (a : HwAddr) × (areq (heard fd (handle_response p s').1) ≡ (a, 0))
      × (a.sll_addr ≡ p.sender_eth ++ (0 ∷ 0 ∷ []))
unfolding areq heard
areq-answer fd ip p s {s'} k n pos ne q h =
    let (a, e, f, _) = ask-answer fd ip p s k n pos ne q h in (a, ground (arith, e), f)

-- While a client waits for an address, a second one asks for it: the calls of both clients succeed
-- with an address of zeros.
pub areq_misled :
    (fd other : ℕ) (ip : Bytes) (s : Arp) {s' : Arp} {outs : List Out}
    → IsPacked s.cache
    → lookup ip s.cache ≡ none
    → 0 < fd
    → other ≢ fd
    → handle_client fd ip s ≡ some (s', outs)
    → (s'' : Arp) × (outs' : List Out) × (h : HwAddr) × (handle_client other ip s'
        ≡ some (s'', outs'))
      × (areq (heard fd outs') ≡ (zero_hwaddr, 0))
      × (areq (heard other outs') ≡ (h, 0))
      × (h.sll_addr ≡ replicate 8 0)
unfolding areq heard
areq_misled fd other ip s k n pos d h =
    let (s'', a, e, f, _) = second_client_misled fd other ip s k n pos h in
    (s'', reply other a ∷ close fd ∷ [], a, e, ground arith, ground arith, f)
