-- ===== src/Arp/Boot.antt =====
-- The start of hw4/arp.c: the interface of the host (`populate_server_details` of hw4/common.c).
use network_programming.Base.{
  ℕ, Bool, not, Option, none, some, List, [], ◌∷◌, replicate, if◌then◌else◌, Bytes, text, str_eq,
  ◌≡◌, ◌≢◌, refl, ap, arith,
}
use network_programming.Interfaces.{HwaInfo, ip_string, populate_from}
use network_programming.Interfaces.Filled.{listed, populate_from-filled}
use network_programming.Arp.Types.{ServerDetails, Arp, zero_details, zero_entry, no_fd}
use network_programming.Arp.Cache.{entry_of, insert_into_cache, update_cache_entry}
use network_programming.Arp.Cache.Lookup.{lookup}
use network_programming.Arp.Process.{boot_cache, take_source}
use network_programming.Arp.Loop.{boot}

abbrev pub is_skipped : Bytes → Bool
is_skipped name = not (str_eq name (text "eth0"))

abbrev pub details : HwaInfo → ServerDetails
details h = record { ip = ip_string h.ip_addr; mac = h.if_haddr; index = h.if_index }

unfoldable pub populate_server_details :
    List HwaInfo → List ServerDetails → Option (ℕ × List ServerDetails)
populate_server_details hs serv = populate_from is_skipped details hs 0 serv

-- `boot` with its array of 20 places; it does not look at the count.
unfoldable pub start : List HwaInfo → ℕ → Option Arp
start hs proto = elim (populate_server_details hs (replicate 20 zero_details)) [
  | none ↦ none
  | some (n, sv) ↦ boot sv proto
]

-- What a host knows after its start.
abbrev pub Knows : Arp → HwaInfo → Bytes → Type 0
Knows s h ip =
    (s.src_ip ≡ ip)
    × (s.src_mac ≡ h.if_haddr)
    × (s.src_ifindex ≡ some h.if_index)
    × ((other : Bytes)
        → lookup other s.cache
          ≡ (if str_eq ip other then some (entry_of (details h) no_fd) else none))

boot-Knows :
    (h : HwaInfo) (c : ℕ) (cs : Bytes) (proto : ℕ)
    → h.ip_addr ≡ some (c ∷ cs)
    → (s : Arp) × (boot (details h ∷ replicate 19 zero_details) proto ≡ some s) × Knows s h (c ∷ cs)
unfolding boot boot_cache insert_into_cache take_source update_cache_entry
boot-Knows h c cs proto e = (
  record {
    src_mac = h.if_haddr;
    src_ip = ip_string h.ip_addr;
    src_ifindex = some h.if_index;
    cache = entry_of (details h) no_fd ∷ replicate 39 zero_entry;
    proto = proto;
  },
  rw (boot, boot_cache, e) (rw e refl),
  (ap ip_string e, refl, refl, λ other. rw e (ground arith)),
)

-- A host whose only `eth0` with a hardware address has the IP address `ip` starts with the addresses of
-- that interface as its own, and with a cache that maps `ip` to them and nothing else.
start-Knows :
    (hs : List HwaInfo) (h : HwaInfo) (ip : Bytes) (proto : ℕ)
    → listed is_skipped details hs ≡ h ∷ []
    → h.ip_addr ≡ some ip
    → ip ≢ []
    → (s : Arp) × (start hs proto ≡ some s) × Knows s h ip
unfolding start populate_server_details
start-Knows hs h [] proto l e n = absurd (n refl)
start-Knows hs h (c ∷ cs) proto l e n =
    let f = populate_from-filled is_skipped details hs [] (replicate 20 zero_details) in
    rw (start, populate_server_details, f, l) (boot-Knows h c cs proto e)
