-- ===== src/Transfer/Handover.antt =====
-- How a transfer begins (hw2/server.c, `main` and `udp_reliable_transfer`; hw2/client.c, `main`): the
-- server answers a request with an acknowledgement and with the number of a new port, and the client
-- waits for the one and then for the other.
use network_programming.Base.{
  ℕ, Bool, true, false, Option, none, some, List, [], ◌∷◌, map, if◌then◌else◌, Bytes, decimal, atoi,
  atoi-decimal, ◌≡◌, refl, ap,
}
use network_programming.Transfer.Receiver.{DataType, ack, ping, payload, eof, Datagram}

abbrev is_ack : DataType → Bool
is_ack ack = true
is_ack ping = false
is_ack payload = false
is_ack eof = false

abbrev is_data : DataType → Bool
is_data ack = false
is_data ping = false
is_data payload = true
is_data eof = false

-- `q_obj` is cleared, and its type is set.
unfoldable pub acknowledge : Datagram
acknowledge = record { kind = DataType.ack; seq = 0; ts = 0; buf = [] }

unfoldable pub offer_port : ℕ → Datagram
offer_port port_number = record { kind = payload; seq = 0; ts = 0; buf = decimal port_number }

-- A request: the name of the file that is kept, and what the server sends, `main` the first and its
-- child the second.
unfoldable pub accept : Datagram → ℕ → Bytes × List Datagram
accept q port_number = (q.buf, acknowledge ∷ offer_port port_number ∷ [])

-- The second loop of the client: until a datagram with data, which holds the port.
-- strtol also writes the end of the number through a pointer that was never set; that is left out.
unfoldable pub await_port : List Datagram → Option ℕ
await_port [] = none
await_port (d ∷ ds) = let rest = await_port ds in if is_data d.kind then some (atoi d.buf) else rest

-- The first loop: until an acknowledgement. With no datagram left the client still waits.
unfoldable pub connect : List Datagram → Option ℕ
connect [] = none
connect (d ∷ ds) =
    let rest = connect ds in let port = await_port ds in if is_ack d.kind then port else rest

-- What the network may do to the two datagrams: any number of each, in any order.
pub data Arrival : Type 0 where
  acknowledged : Arrival
  offered : Arrival

abbrev pub arrives : ℕ → Arrival → Datagram
arrives port_number acknowledged = acknowledge
arrives port_number offered = offer_port port_number

abbrev pub is_offered : List Arrival → Bool
is_offered [] = false
is_offered (offered ∷ seen) = true
is_offered (acknowledged ∷ seen) = is_offered seen

-- Whether a port comes after an acknowledgement.
abbrev pub is_in_order : List Arrival → Bool
is_in_order [] = false
is_in_order (acknowledged ∷ seen) = is_offered seen
is_in_order (offered ∷ seen) = is_in_order seen

await_port-offered :
    (port_number : ℕ) (seen : List Arrival)
    → await_port (map (arrives port_number) seen)
      ≡ (if is_offered seen then some port_number else none)
unfolding await_port acknowledge offer_port
await_port-offered n [] = refl
await_port-offered n (acknowledged ∷ seen) = await_port-offered n seen
await_port-offered n (offered ∷ seen) = ap some (atoi-decimal n)

-- Whatever the network loses, repeats or reorders of what the server sends for a request, the client goes
-- on to the port of the server if one of its datagrams with the port arrives after an acknowledgement,
-- and still waits if none does.
pub connect-arrives :
    (port_number : ℕ) (seen : List Arrival)
    → connect (map (arrives port_number) seen)
      ≡ (if is_in_order seen then some port_number else none)
unfolding connect acknowledge offer_port
connect-arrives n [] = refl
connect-arrives n (acknowledged ∷ seen) = await_port-offered n seen
connect-arrives n (offered ∷ seen) = connect-arrives n seen

-- With both datagrams in their order the client has the port.
connect-accept :
    (q : Datagram) (port_number : ℕ) → connect (accept q port_number).1 ≡ some port_number
unfolding accept
connect-accept q n = connect-arrives n (acknowledged ∷ offered ∷ [])
