-- ===== src/Tests/Locality.antt =====
-- A host with its loopback and two networks. An address of four bytes is the number with these digits
-- in base 256, the first byte the lowest.
use network_programming.Base.{
  ℕ, ◌+◌, ◌*◌, ◌≤◌, true, false, some, List, [], ◌∷◌, get_elem?, Bytes, ◌≡◌, refl, arith, text,
  str_eq, map, if◌then◌else◌, Option, none, ◌==◌, ◌||◌,
}
use network_programming.Transfer.Addresses.{
  fill_addr_contents, locate, given, shown, get_addr_count, count_from, locate_lem,
}
use network_programming.Transfer.Locality.{
  IAddr, is_near, IsFirstFar, check_addr_local, check_addr_local-longest,
}

-- Addresses are already bytes here.
abbrev number : Bytes → ℕ
number [] = 0
number (b ∷ bs) = b + 256 * number bs

abbrev interfaces : List IAddr
interfaces =
    record { ip_addr = 127 ∷ 0 ∷ 0 ∷ 1 ∷ []; mask = 255 ∷ 0 ∷ 0 ∷ 0 ∷ [] }
    ∷ record { ip_addr = 130 ∷ 245 ∷ 156 ∷ 20 ∷ []; mask = 255 ∷ 255 ∷ 255 ∷ 0 ∷ [] }
    ∷ record { ip_addr = 130 ∷ 245 ∷ 1 ∷ 44 ∷ []; mask = 255 ∷ 255 ∷ 0 ∷ 0 ∷ [] }
    ∷ []

abbrev peer : Bytes
peer = 130 ∷ 245 ∷ 156 ∷ 21 ∷ []

abbrev wider : IAddr
wider = record { ip_addr = 130 ∷ 245 ∷ 1 ∷ 44 ∷ []; mask = 255 ∷ 255 ∷ 0 ∷ 0 ∷ [] }

finds : check_addr_local number peer interfaces ≡ 1
unfolding check_addr_local network_programming.Transfer.Locality.scan
    network_programming.Transfer.Locality.consider str_eq
finds = refl

loopback_far : IsFirstFar number peer interfaces
loopback_far a e = cc

not_here : str_eq peer (text "127.0.0.1") ≡ false
unfolding str_eq
not_here = refl

check_addr_local-longest_example :
    (b : IAddr) × (get_elem? interfaces (check_addr_local number peer interfaces) ≡ some b)
    × (is_near number peer b ≡ true)
    × (number wider.mask ≤ number b.mask)
check_addr_local-longest_example =
    check_addr_local-longest number peer interfaces 2 wider not_here loopback_far refl refl
      (omega arith)

-- The loopback and one network, with addresses that are printed as they are, and a client and a
-- server on the same host.
abbrev listed : List (Bytes × Bytes)
listed =
    (127 ∷ 0 ∷ 0 ∷ 1 ∷ [], 255 ∷ 0 ∷ 0 ∷ 0 ∷ [])
    ∷ ((130 ∷ 245 ∷ 156 ∷ 20 ∷ [], 255 ∷ 255 ∷ 255 ∷ 0 ∷ []) ∷ [])

abbrev own : Bytes
own = 130 ∷ 245 ∷ 156 ∷ 20 ∷ []

abbrev blank : List IAddr
blank = record { ip_addr = []; mask = [] } ∷ (record { ip_addr = []; mask = [] } ∷ [])

abbrev printed : Bytes → Bytes
printed b = b

-- The two addresses of the host have a name.
abbrev name_of : ℕ → Option Bytes
name_of n = if (n == number peer) || (n == number own) then some (text "vm1") else none

locate_lem_example :
    (fill_addr_contents printed (map (given printed) listed) blank
      ≡ some (map (shown printed) listed))
    × (locate printed number name_of peer (map (given printed) listed) blank
        ≡ some (text "127.0.0.1", 1))
unfolding get_addr_count count_from str_eq
locate_lem_example = locate_lem printed number name_of peer listed blank refl
