-- ===== src/Tests/Line.antt =====
-- The hosts vm1, vm3, vm4 and vm2 in a line.
use network_programming.Base.{[], ◌∷◌, map, some, text, ◌≡◌, refl, false, str_eq}
use network_programming.Odr.Types.{PeerInfo, ServerDetails, zero_peer}
use network_programming.Odr.Process.{send_to_client}
use network_programming.Odr.Line.{time_exchange}
use network_programming.Odr.Line.Relays.{Hop, IsBetween}
use network_programming.Odr.Line.Across.{starts}
use network_programming.Odr.Line.Exchange.{line-Exchange}

abbrev vm_1 : ServerDetails
vm_1 = record { ip = text "10.0.0.1"; mac = 0 ∷ 1 ∷ 2 ∷ 3 ∷ 4 ∷ 1 ∷ []; index = 3 }

abbrev vm_2 : ServerDetails
vm_2 = record { ip = text "10.0.0.2"; mac = 0 ∷ 1 ∷ 2 ∷ 3 ∷ 4 ∷ 2 ∷ []; index = 3 }

abbrev vm_3 : Hop
vm_3 = record {
  left = record { ip = text "10.0.0.3"; mac = 0 ∷ 1 ∷ 2 ∷ 3 ∷ 5 ∷ 3 ∷ []; index = 3 };
  right = record { ip = text "10.0.1.3"; mac = 0 ∷ 1 ∷ 2 ∷ 3 ∷ 6 ∷ 3 ∷ []; index = 4 };
  name = text "vm3";
}

abbrev vm_4 : Hop
vm_4 = record {
  left = record { ip = text "10.0.0.4"; mac = 0 ∷ 1 ∷ 2 ∷ 3 ∷ 5 ∷ 4 ∷ []; index = 3 };
  right = record { ip = text "10.0.1.4"; mac = 0 ∷ 1 ∷ 2 ∷ 3 ∷ 6 ∷ 4 ∷ []; index = 4 };
  name = text "vm4";
}

abbrev client : PeerInfo
client = record zero_peer { dest_ip = text "10.0.0.2"; src_port = text "/tmp/c"; msg = text " " }

abbrev noon : PeerInfo
noon = record zero_peer { msg = text "12:00" }

distinct : str_eq vm_1.ip vm_2.ip ≡ false
unfolding str_eq
distinct = refl

vm_3-IsBetween : IsBetween vm_1.ip vm_2.ip vm_3
unfolding str_eq
vm_3-IsBetween = record {
  left_src = refl;
  right_src = refl;
  left_dest = refl;
  right_dest = refl;
  two = refl;
}

vm_4-IsBetween : IsBetween vm_1.ip vm_2.ip vm_4
unfolding str_eq
vm_4-IsBetween = record {
  left_src = refl;
  right_src = refl;
  left_dest = refl;
  right_dest = refl;
  two = refl;
}

line-Exchange_example :
    time_exchange 5 noon vm_1 vm_2 (map starts (vm_3 ∷ vm_4 ∷ [])) (text "vm1") (text "vm2") client
    ≡ some (send_to_client (text "vm1") (text "12:00") client ∷ [])
line-Exchange_example =
    line-Exchange vm_1 vm_2 (vm_3 ∷ vm_4 ∷ []) (text "vm1") (text "vm2") client noon 5 (λ e. cc)
      (λ e. cc) distinct (vm_3-IsBetween, (vm_4-IsBetween, tt)) refl
