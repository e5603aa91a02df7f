-- ===== src/Interfaces.antt =====
-- The interfaces of a host: the loop of `populate_server_details`, which hw3/common.c and
-- hw4/common.c share but for the names that they skip. `Get_hw_addrs` is not part of either; the list
-- that it returns is an argument.
pub mod Filled
use network_programming.Base.{
  ℕ, zero, suc, ◌+◌, Bool, true, false, not, ◌&&◌, ◌||◌, Option, none, some, List, [], ◌∷◌,
  get_elem?, set, ◌==◌, if◌then◌else◌, Bytes,
}

-- `struct hwa_info` of hw_addrs.h: the address is printed by `Sock_ntop_host`, and is NULL for `none`.
pub record HwaInfo : Type 0 where
  pub if_name : Bytes
  pub if_haddr : Bytes
  pub if_index : ℕ
  pub ip_addr : Option Bytes

-- `prflag`: a byte of the hardware address that is not zero.
unfoldable pub has_haddr : Bytes → Bool
has_haddr [] = false
has_haddr (b ∷ bs) = not (b == 0) || has_haddr bs

-- `ip_addr`, the string.
abbrev pub ip_string : Option Bytes → Bytes
ip_string none = []
ip_string (some ip) = ip

module _ {ℓ} {S : Type ℓ} (is_skipped : Bytes → Bool) (details : HwaInfo → S) where
  abbrev pub is_listed : HwaInfo → Bool
  is_listed h = not (is_skipped h.if_name) && has_haddr h.if_haddr

  -- The loop, with the array and the count of its filled places; `none` is a place past the array.
  unfoldable pub populate_from : List HwaInfo → ℕ → List S → Option (ℕ × List S)
  populate_from [] count serv = some (count, serv)
  populate_from (h ∷ hs) count serv =
      let skip = populate_from hs count serv in
      let keep = populate_from hs (count + 1) (set serv count (details h)) in
      if is_listed h then elim (get_elem? serv count) [ none ↦ none | some old ↦ keep ] else skip
