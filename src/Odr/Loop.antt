-- ===== src/Odr/Loop.antt =====
-- The body of the `while (1)` of `main` in hw3/odr.c, one event at a time: a frame on the packet
-- socket, a datagram of a client on the local one, or the staleness timeout of `Select`.
pub mod Cost
pub mod Reach
pub mod Counter
use network_programming.Base.{
  ℕ, ◌+◌, Option, none, some, List, [], ◌∷◌, ◌++◌, if◌then◌else◌, ◌==◌, text,
}
use network_programming.Odr.Types.{
  PeerInfo, ServerDetails, Frame, Out, payload_req, Table, buffer_size,
}
use network_programming.Odr.Table.{init_routing_table}
use network_programming.Odr.Buffer.{push_data_to_buf, init_buffer}
use network_programming.Odr.Send.{send_payload}
use network_programming.Odr.Process.{Node, process_frame}
use network_programming.Base.{Bytes}

-- A frame comes with the time of its arrival, and with the datagram that the time server sends if
-- the handler asks it.
pub data Event : Type 0 where
  packet : Frame → ℕ → PeerInfo → Event
  request : PeerInfo → Event
  stale : Event

-- Before the loop: `populate_server_details` has filled `serv`.
unfoldable pub boot : List ServerDetails → Bytes → Node
boot serv hostname = record {
  serv = serv;
  table = init_routing_table;
  buffer = init_buffer buffer_size;
  broadcast_id = 1;
  packet_counter = 0;
  server_bid = 0;
  hostname = hostname;
}

-- One round of the loop over the interfaces.
unfoldable pub ask_through : ServerDetails → PeerInfo → Node → Node × List Out
ask_through iface p s =
    let t : Table = if p.flag == 1 then init_routing_table else s.table in
    (
      record s { table = t },
      send_payload t s.serv s.broadcast_id iface.ip p.dest_ip payload_req (text " ") p.flag,
    )

unfoldable pub ask_all : List ServerDetails → PeerInfo → Node → Node × List Out
ask_all [] p s = (s, [])
ask_all (iface ∷ rest) p s =
    let (s', outs) = ask_through iface p s in
    let (s'', more) = ask_all rest p s' in (s'', outs ++ more)

unfoldable pub on_request : PeerInfo → Node → Option (Node × List Out)
on_request p s = elim (push_data_to_buf s.buffer p) [
  | none ↦ none
  | some buf ↦ some (
      ask_all s.serv p (record s {
        broadcast_id = s.broadcast_id + 1;
        packet_counter = s.packet_counter + 1;
        buffer = buf;
      }))
]

unfoldable pub step : Event → Node → Option (Node × List Out)
step (packet f now answer) s = process_frame f now answer s
step (request p) s = on_request p s
step stale s = some (record s { table = init_routing_table }, [])

-- The loop over the events of a run, with all that it sends.
unfoldable pub run : List Event → Node → Option (Node × List Out)
run [] s = some (s, [])
run (e ∷ es) s = elim (step e s) [
  | none ↦ none
  | some (s', outs) ↦ elim (run es s') [ none ↦ none | some (s'', more) ↦ some (s'', outs ++ more) ]
]
