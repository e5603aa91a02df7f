-- ===== src/Transfer/Receiver.antt =====
-- The client of the file transfer (hw2/client.c): the window of datagrams, what is done with a
-- datagram from the server, and the pass of the reader. Both run under one mutex, so each is a step.
pub mod Scan
pub mod Order
pub mod Arrive
pub mod Read
pub mod Deliver
pub mod Pending
use network_programming.Base.{
  ℕ, zero, suc, ◌+◌, ◌%◌, min, Bool, true, false, not, ◌&&◌, ◌||◌, Option, none, some, List, [],
  ◌∷◌, ◌++◌, length, set, get_elem?, replicate, ltb, ◌==◌, if◌then◌else◌, Bytes, text,
}

-- `struct buffer`; `is_filled` is 1 or -1.
pub record Slot : Type 0 where
  pub content : Bytes
  pub is_filled : Bool
  pub seq : ℕ

abbrev pub Window : Type 0
Window = List Slot

-- `data_type` of hw2/common.h, and what a datagram of the server says.
pub data DataType : Type 0 where
  ack ping payload eof : DataType

pub record Datagram : Type 0 where
  pub kind : DataType
  pub seq : ℕ
  pub ts : ℕ
  pub buf : Bytes

-- What the client sends back. The source writes `q_obj.config.type == ack`, which sets nothing, so
-- the type of an acknowledgement is not determined and is left out.
pub record Ack : Type 0 where
  pub seq : ℕ
  pub rwnd : ℕ
  pub ts : ℕ

-- The slots after `main` has marked them; what `malloc` left in them is never read.
unfoldable pub init_window : ℕ → Window
init_window rwnd = replicate rwnd (record { content = []; is_filled = false; seq = 0 })

abbrev pub holds_seq : ℕ → Slot → Bool
holds_seq n x = x.is_filled && (x.seq == n)

unfoldable pub ispresent : ℕ → Window → Bool
ispresent seq_num [] = false
ispresent seq_num (x ∷ xs) = holds_seq seq_num x || ispresent seq_num xs

abbrev pub int_max : ℕ
int_max = 2147483647

-- The loop of `min_seq_num` from index `i` on.
unfoldable pub min_seq_num_from : Window → ℕ → ℕ → ℕ → ℕ
min_seq_num_from [] i min_val min_index = min_index
min_seq_num_from (x ∷ xs) i min_val min_index =
    let better = x.is_filled && ltb (min min_val x.seq) min_val in
    min_seq_num_from xs (i + 1) (if better then min min_val x.seq else min_val)
      (if better then i else min_index)

unfoldable pub min_seq_num : Window → ℕ
min_seq_num w = min_seq_num_from w 0 int_max 0

-- The `while` loop: `none` if the fuel runs out.
unfoldable pub update_expected_from : ℕ → Window → ℕ → Option ℕ
update_expected_from zero w expected = none
update_expected_from (suc fuel) w expected =
    let rest = update_expected_from fuel w (expected + 1) in
    if ispresent expected w then rest else some expected

-- The slot at index `seq_num % rwnd`.
unfoldable pub push_at : Window → ℕ → Bytes → ℕ → ℕ → Window
push_at w i send_buf seq_num expected = elim (get_elem? w i) [
  | none ↦ w
  | some x ↦
      if not x.is_filled && (seq_num == expected)
      then set w i (record { content = send_buf; is_filled = true; seq = seq_num })
      else w
]

unfoldable pub push_data_to_buffer : Window → Bytes → ℕ → ℕ → Window
push_data_to_buffer w send_buf seq_num expected =
    push_at w (seq_num % length w) send_buf seq_num expected

unfoldable pub get_window_size : Window → ℕ
get_window_size [] = 0
get_window_size (x ∷ xs) = if not x.is_filled then get_window_size xs + 1 else get_window_size xs

-- What is printed of a slot, and the slot cleared.
abbrev pub Line : Type 0
Line = ℕ × Bytes

abbrev pub clear : Slot → Slot
clear x = record x { content = []; is_filled = false }

-- The loop of the reader over the slots from its start on.
unfoldable pub drain : Window → Window × List Line
drain [] = ([], [])
drain (x ∷ xs) =
    let (ys, out) = drain xs in
    if x.is_filled then (clear x ∷ ys, (x.seq, x.content) ∷ out) else (x ∷ ys, out)

unfoldable pub drain_from : ℕ → Window → Window × List Line
drain_from zero w = drain w
drain_from (suc i) [] = ([], [])
drain_from (suc i) (x ∷ xs) = let (ys, out) = drain_from i xs in (x ∷ ys, out)

-- One pass of `buffer_reader_thread`.
unfoldable pub read_buffer : Window → Window × List Line
read_buffer w = drain_from (min_seq_num w) w

-- The state of a transfer.
pub record Receiver : Type 0 where
  pub window : Window
  pub expected : ℕ

abbrev pub last_words : Bytes
last_words = text "End of File!"

unfoldable pub store : Datagram → Receiver → Window
store d s = elim d.kind [
  | payload ↦ push_data_to_buffer s.window d.buf d.seq s.expected
  | eof ↦ push_data_to_buffer s.window last_words d.seq s.expected
  | _ ↦ s.window
]

abbrev pub is_eof : DataType → Bool
is_eof eof = true
is_eof ack = false
is_eof ping = false
is_eof payload = false

unfoldable pub send_ack_to_server : Window → ℕ → ℕ → Ack
send_ack_to_server w ts expected = record { seq = expected; rwnd = get_window_size w; ts = ts }

-- A datagram that is not dropped: the new state, the acknowledgement, and whether the loop ends.
-- The fuel is one more than the number of slots.
unfoldable pub on_datagram : Datagram → Receiver → Option (Receiver × Ack × Bool)
on_datagram d s =
    let w = store d s in
    elim (update_expected_from (suc (length w)) w s.expected) [
      | none ↦ none
      | some expected ↦ some (
        record { window = w; expected = expected },
        send_ack_to_server w d.ts expected,
        is_eof d.kind && (d.seq + 1 == expected),
      )
    ]

-- The drop test is random: an event says which way it went.
pub data Event : Type 0 where
  dropped : Datagram → Event
  arrives : Datagram → Event
  reads : Event

-- The state, what has been printed, and whether the loop over the datagrams ends.
unfoldable pub step : Event → Receiver → Option (Receiver × List Line × Bool)
step (dropped d) s = some (s, [], false)
step (arrives d) s = elim (on_datagram d s) [
  | none ↦ none
  | some (s', a, stop) ↦ some (s', [], stop)
]
step reads s = let (w, out) = read_buffer s.window in some (record s { window = w }, out, false)

-- The end of the loop leaves the mutex locked, so neither a datagram nor the reader comes behind it.
unfoldable pub run : List Event → Receiver → Option (Receiver × List Line)
run [] s = some (s, [])
run (e ∷ es) s = elim (step e s) [
  | none ↦ none
  | some (s', out, stop) ↦
      let rest = run es s' in
      elim (if stop then some (s', []) else rest) [
        | none ↦ none
        | some (s'', more) ↦ some (s'', out ++ more)
      ]
]

unfoldable pub start : ℕ → Receiver
start rwnd = record { window = init_window rwnd; expected = 0 }

-- The end of `main`: once more the loop of the reader, which by then holds no lock.
unfoldable pub last_pass : Receiver → Receiver × List Line
last_pass s = let (w, out) = read_buffer s.window in (record s { window = w }, out)
