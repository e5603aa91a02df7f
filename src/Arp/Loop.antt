-- ===== src/Arp/Loop.antt =====
-- The event loop of arp.c: `main` after `boot`. A round that finds both sockets ready is two events,
-- the packet first.
pub mod Reach
use network_programming.Base.{ℕ, Option, none, some, List, [], ◌∷◌, ◌++◌, Bytes}
use network_programming.Arp.Types.{ServerDetails, ArpReqReply, Out, Arp}
use network_programming.Arp.Process.{handle_client, process_frame, boot_cache, unbooted}

pub data Event : Type 0 where
  packet : ArpReqReply → Event
  client : ℕ → Bytes → Event

unfoldable pub boot : List ServerDetails → ℕ → Option Arp
boot sv proto = boot_cache sv (unbooted proto)

unfoldable pub step : Event → Arp → Option (Arp × List Out)
step (packet p) s = process_frame p s
step (client connfd buf) s = handle_client connfd buf s

unfoldable pub run : List Event → Arp → Option (Arp × List Out)
run [] s = some (s, [])
run (e ∷ es) s = elim (step e s) [
  | none ↦ none
  | some (s', outs) ↦ elim (run es s') [ none ↦ none | some (s'', more) ↦ some (s'', outs ++ more) ]
]
