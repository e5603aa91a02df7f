-- ===== src/Odr/Buffer.antt =====
-- The buffer of requests that wait for a payload response (hw3/common.c, hw3/odr.c).
use network_programming.Base.{
  ℕ, Bool, ◌&&◌, not, Option, none, some, List, set, replicate, find_index, ◌==◌, Bytes, str_eq,
}
use network_programming.Odr.Types.{PeerInfo, ServerBuf, zero_buf}

unfoldable pub init_buffer : ℕ → List ServerBuf
init_buffer count = replicate count zero_buf

abbrev pub is_vacant : ServerBuf → Bool
is_vacant b = b.count == 0

-- The write goes to index 100, past the end, if no entry is vacant: `none`.
unfoldable pub push_data_to_buf : List ServerBuf → PeerInfo → Option (List ServerBuf)
push_data_to_buf buf p = elim (find_index is_vacant buf) [
  | none ↦ none
  | some i ↦ some (set buf i (record { peer_info = p; count = 1 }))
]

-- The test of the loop that looks for the client of a response.
abbrev pub awaits : Bytes → ServerBuf → Bool
awaits ip b = str_eq ip b.peer_info.dest_ip && not (b.count == 0)

-- `buffer[i].count = 0`
abbrev pub vacate : ServerBuf → ServerBuf
vacate b = record b { count = 0 }
