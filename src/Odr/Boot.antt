-- ===== src/Odr/Boot.antt =====
-- The start of hw3/odr.c: the interfaces that it uses (`populate_server_details` of hw3/common.c).
use network_programming.Base.{
  ℕ, Bool, ◌||◌, Option, none, some, List, [], map, length, take, replicate, leb, if◌then◌else◌,
  Bytes, text, str_eq, ◌≡◌, refl, ap, inl, inr, arith, Bool-cases, length-map, take-append,
}
use network_programming.Interfaces.{HwaInfo, ip_string, populate_from}
use network_programming.Interfaces.Filled.{listed, populate_from-filled}
use network_programming.Odr.Types.{ServerDetails}
use network_programming.Odr.Process.{Node}
use network_programming.Odr.Loop.{boot}

abbrev pub is_skipped : Bytes → Bool
is_skipped name = str_eq name (text "lo") || str_eq name (text "eth0")

abbrev pub details : HwaInfo → ServerDetails
details h = record { ip = ip_string h.ip_addr; mac = h.if_haddr; index = h.if_index }

unfoldable pub populate_server_details :
    List HwaInfo → List ServerDetails → Option (ℕ × List ServerDetails)
populate_server_details hs serv = populate_from is_skipped details hs 0 serv

-- `serv` has two places; the loops go over the first `number_of_interfaces` of them.
abbrev pub zero_details : ServerDetails
zero_details = record { ip = []; mac = replicate 6 0; index = 0 }

unfoldable pub start : List HwaInfo → Bytes → Option Node
start hs hostname = elim (populate_server_details hs (replicate 2 zero_details)) [
  | none ↦ none
  | some (number_of_interfaces, serv) ↦ some (boot (take number_of_interfaces serv) hostname)
]

-- The process starts with exactly the interfaces that have a hardware address and are neither `lo` nor
-- `eth0`, in their order, if there are at most two of them; with more, `populate_server_details` writes
-- past the end of the array.
pub start_lem :
    (hs : List HwaInfo) (hostname : Bytes)
    → start hs hostname ≡ (
        if leb (length (listed is_skipped details hs)) 2
        then some (boot (map details (listed is_skipped details hs)) hostname)
        else none)
unfolding start populate_server_details
start_lem hs hostname =
    let l = listed is_skipped details hs in
    let e = populate_from-filled is_skipped details hs [] (replicate 2 zero_details) in
    elim (Bool-cases (leb (length l) 2)) [
      | inl f ↦
          rw (start, populate_server_details, e, f)
            (ap (λ (xs : List ServerDetails). some (boot xs hostname))
              (take-append (map details l) _ _ (omega (arith, length-map details l))))
      | inr f ↦ rw (start, populate_server_details, e, f) refl
    ]
