-- ===== src/Tests/Neighbours.antt =====
-- The hosts vm1 and vm2 on one link.
use network_programming.Base.{text, [], ◌∷◌, ◌≡◌, refl, false, str_eq}
use network_programming.Odr.Types.{PeerInfo, ServerDetails, zero_peer}
use network_programming.Odr.Neighbours.{Exchange, neighbours-Exchange}

abbrev vm_1 : ServerDetails
vm_1 = record { ip = text "10.0.0.1"; mac = 0 ∷ 1 ∷ 2 ∷ 3 ∷ 4 ∷ 1 ∷ []; index = 3 }

abbrev vm_2 : ServerDetails
vm_2 = record { ip = text "10.0.0.2"; mac = 0 ∷ 1 ∷ 2 ∷ 3 ∷ 4 ∷ 2 ∷ []; index = 3 }

abbrev client : PeerInfo
client = record zero_peer { dest_ip = text "10.0.0.2"; src_port = text "/tmp/c"; msg = text " " }

abbrev noon : PeerInfo
noon = record zero_peer { msg = text "12:00" }

distinct : str_eq vm_1.ip vm_2.ip ≡ false
unfolding str_eq
distinct = refl

neighbours-Exchange_example : Exchange vm_1 vm_2 (text "vm1") (text "vm2") client 5 6 noon
neighbours-Exchange_example =
    neighbours-Exchange vm_1 vm_2 (text "vm1") (text "vm2") client 5 6 (λ e. cc) (λ e. cc) distinct
      noon refl
