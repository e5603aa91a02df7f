-- ===== src/TimeServer.antt =====
-- The time server and its clients of hw3: `respond` of server.c, the loop of client.c, and the table
-- of addresses of common.c.
pub mod Lockstep
pub mod Hosts
use network_programming.Base.{
  ℕ, suc, ◌==◌, Option, none, some, List, [], ◌∷◌, ◌++◌, take, drop, get_elem?, ltb, if◌then◌else◌,
  Bytes, text, atoi,
}
use network_programming.Odr.Types.{PeerInfo, Out}
use network_programming.Odr.Send.{msg_send}
use network_programming.Odr.Local.{domain_sock_path}

abbrev pub hash : ℕ
hash = b'#'

-- `recvline` is cut at the first `#`, and the name starts behind it. With no `#` the name would be
-- what the buffer holds behind its string: `none`.
unfoldable pub before_hash : Bytes → Bytes
before_hash [] = []
before_hash (c ∷ s) = if c == hash then [] else c ∷ before_hash s

unfoldable pub after_hash : Bytes → Option Bytes
after_hash [] = none
after_hash (c ∷ s) = if c == hash then some s else after_hash s

-- The static of `respond` and the names that it has.
pub record Server : Type 0 where
  pub bc_id : ℕ
  pub hostname : Bytes
  pub this_ip : Bytes

-- One round of the loop: a datagram `p` from the socket `sender`, at the time that `ctime` writes as
-- `now`. What is printed is left out.
unfoldable pub respond : Bytes → PeerInfo → Bytes → Server → Server × Out
respond now p sender s =
    let bid = atoi (before_hash p.msg) in
    (
      record s { bc_id = if ltb s.bc_id bid then bid else s.bc_id },
      msg_send s.hostname p.src_ip p.src_port s.this_ip domain_sock_path (take 24 now) 0 sender,
    )

abbrev pub ipmap : List Bytes
ipmap =
    text "dontcare"
    ∷ text "192.168.10.1"
    ∷ text "192.168.10.2"
    ∷ text "192.168.10.3"
    ∷ text "192.168.11.4"
    ∷ text "192.168.11.5"
    ∷ text "192.168.11.6"
    ∷ text "192.168.12.7"
    ∷ text "192.168.12.8"
    ∷ text "192.168.13.9"
    ∷ text "192.168.13.10"
    ∷ text ""
    ∷ []

-- `none`: the index is past the end of `ipmap`.
unfoldable pub set_ip : Bytes → Option Bytes
set_ip host = get_elem? ipmap (atoi (drop 2 host))

abbrev pub odr_path : Bytes
odr_path = text "_test0910"

-- The client: its socket's path, its address and its host.
pub record Client : Type 0 where
  pub client_port : Bytes
  pub this_ip : Bytes
  pub hostname : Bytes

-- A choice of a host, and whether `select` sees an answer within the two seconds: the requests that
-- the client sends, the second one with the force flag.
unfoldable pub ask_time : Bytes → Option PeerInfo → Client → Option (List Out)
ask_time arg answer c = elim (set_ip (take 4 arg)) [
  | none ↦ none
  | some ip ↦ some (
      msg_send c.hostname ip domain_sock_path c.this_ip c.client_port (text "GetMeTime") 0 odr_path
      ∷ elim answer [
        | some p ↦ []
        | none ↦
            msg_send c.hostname ip domain_sock_path c.this_ip c.client_port (text "GetMeTime") 1
              odr_path
            ∷ []
      ])
]
