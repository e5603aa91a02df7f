-- ===== src/Tests/Boot.antt =====
-- Hosts with the interfaces lo, eth0 and two others.
use network_programming.Base.{ℕ, none, some, List, [], ◌∷◌, Bytes, text, str_eq, ◌≡◌, refl}
use network_programming.Interfaces.{HwaInfo, has_haddr, populate_from}
use network_programming.Odr.Loop.{boot}
use network_programming.Odr.Boot.{start, start_lem, details, populate_server_details}

abbrev interface : Bytes → ℕ → HwaInfo
interface name n = record {
  if_name = name;
  if_haddr = n ∷ 0 ∷ 0 ∷ 0 ∷ 0 ∷ n ∷ [];
  if_index = n;
  ip_addr = some (text "10.0.0.1");
}

abbrev eth0 : HwaInfo
eth0 = interface (text "eth0") 2

abbrev all : List HwaInfo
all = interface (text "lo") 0 ∷ eth0 ∷ interface (text "eth1") 3 ∷ interface (text "eth2") 4 ∷ []

start_lem_example :
    start all (text "vm1")
    ≡ some (
        boot
          (details (interface (text "eth1") 3) ∷ details (interface (text "eth2") 4) ∷ [])
          (text "vm1"))
unfolding has_haddr str_eq
start_lem_example = start_lem all (text "vm1")

-- A third one is written past the end.
third : start (interface (text "wlan0") 9 ∷ all) (text "vm1") ≡ none
unfolding start populate_server_details populate_from has_haddr str_eq
third = refl
