-- ===== src/Tests/Transfer.antt =====
-- The client of hw2 with a window of three slots, on five words.
use network_programming.Base.{
  Bool, All, min, ◌-◌, ◌%◌, get_elem?, zero, suc, ◌<◌, ℕ, ◌+◌, ◌≤◌, ◌==◌, true, false, some, List,
  [], ◌∷◌, ◌++◌, Bytes, text, if◌then◌else◌, ◌≡◌, refl, arith,
}
use network_programming.Transfer.Receiver.{
  Slot, Receiver, Datagram, payload, eof, Ack, Event, dropped, arrives, reads, last_words, start,
  run, step, on_datagram, read_buffer, last_pass, init_window, store, push_data_to_buffer, push_at,
  update_expected_from, ispresent, send_ack_to_server, get_window_size, drain_from, drain,
  min_seq_num, min_seq_num_from,
}
use network_programming.Transfer.Receiver.Scan.{stream, Holds}
use network_programming.Transfer.Receiver.Order.{InOrder, number}
use network_programming.Transfer.Receiver.Arrive.{Carries, on_datagram-InOrder}
use network_programming.Transfer.Receiver.Pending.{
  get_window_size-pending, two_passes, last_pass-printed,
}
use network_programming.Transfer.Receiver.Deliver.{IsFair, in_order_delivery}

-- The words of a file of four words, and the end.
abbrev words : ℕ → Bytes
words n =
    if n == 0
    then text "to"
    else if n == 1
    then text "be"
    else if n == 2
    then text "or"
    else if n == 3
    then text "not"
    else last_words

abbrev word_datagram : ℕ → Datagram
word_datagram n = record { kind = payload; seq = n; ts = 7; buf = words n }

abbrev last_datagram : Datagram
last_datagram = record { kind = eof; seq = 4; ts = 9; buf = [] }

-- Number 2 comes too early, 1 is lost once, and the reader runs when it likes.
abbrev events : List Event
events =
    arrives (word_datagram 0)
    ∷ arrives (word_datagram 2)
    ∷ dropped (word_datagram 1)
    ∷ reads
    ∷ arrives (word_datagram 1)
    ∷ arrives (word_datagram 2)
    ∷ arrives (word_datagram 3)
    ∷ reads
    ∷ reads
    ∷ arrives last_datagram
    ∷ arrives last_datagram
    ∷ reads
    ∷ []

run-events :
    (s : Receiver) × (run events (start 3)
      ≡ some (s, (0, text "to") ∷ (1, text "be") ∷ (2, text "or") ∷ (3, text "not") ∷ []))
    × (s.expected ≡ 5)
unfolding run step start init_window on_datagram store push_data_to_buffer push_at
    update_expected_from ispresent send_ack_to_server get_window_size read_buffer drain_from drain
    min_seq_num min_seq_num_from
run-events = (_, refl, refl)

word-Carries : (n : ℕ) → n < 100 → Carries words (word_datagram n)
word-Carries n h = ((λ _. (omega arith, refl)), λ e. cc)

last-Carries : Carries words last_datagram
last-Carries = ((λ e. cc), λ _. (omega arith, refl))

events-IsFair : All (IsFair words) events
events-IsFair = (
  word-Carries 0 (omega arith),
  (
    word-Carries 2 (omega arith),
    (
      tt,
      (
        tt,
        (
          word-Carries 1 (omega arith),
          (
            word-Carries 2 (omega arith),
            (word-Carries 3 (omega arith), (tt, (tt, (last-Carries, (last-Carries, (tt, tt)))))),
          ),
        ),
      ),
    ),
  ),
)

in_order_delivery_example :
    (s : Receiver) × (c : ℕ) × (run events (start 3) ≡ some (s, stream words 0 c))
    × (c ≤ s.expected)
in_order_delivery_example = in_order_delivery 3 words events (omega arith) events-IsFair

-- Numbers 2 and 3 wait: the window has gone round.
abbrev waiting : Receiver
waiting = record {
  window =
      record { content = text "not"; is_filled = true; seq = 3 }
      ∷ record { content = []; is_filled = false; seq = 1 }
      ∷ record { content = text "or"; is_filled = true; seq = 2 }
      ∷ [];
  expected = 4;
}

waiting-slots :
    (i : ℕ) (x : Slot) → get_elem? waiting.window i ≡ some x → Holds words 4 (number 3 0 2 i) x
waiting-slots zero x e = record { full = λ _. ground arith; vacant = λ l. absurd (omega arith) }
waiting-slots (suc zero) x e = record {
  full = λ l. absurd (omega arith);
  vacant = λ _. ground arith;
}
waiting-slots (suc (suc zero)) x e = record {
  full = λ _. ground arith;
  vacant = λ l. absurd (omega arith);
}
waiting-slots (suc (suc (suc i))) x e = absurd (ground arith)

waiting-InOrder : InOrder 3 words 2 waiting
waiting-InOrder = record {
  base = 0;
  r = 2;
  n = 2;
  size = refl;
  aligned = refl;
  inside = omega arith;
  pending = omega arith;
  low = refl;
  next = refl;
  bounded = omega arith;
  slots = waiting-slots;
}

on_datagram-InOrder_example :
    (s' : Receiver) × (a : Ack) × (stop : Bool) × (on_datagram last_datagram waiting
      ≡ some (s', a, stop))
    × InOrder 3 words 2 s'
    × (a.seq ≡ s'.expected)
    × (s'.expected ≡ 5)
on_datagram-InOrder_example =
    on_datagram-InOrder 3 words 2 last_datagram waiting waiting-InOrder last-Carries

get_window_size-pending_example : get_window_size waiting.window + (4 - 2) ≡ 3
get_window_size-pending_example = get_window_size-pending 3 words 2 waiting waiting-InOrder

two_passes_example :
    let first = read_buffer waiting.window in
    let second = read_buffer first.0 in
    (first.1 ++ second.1 ≡ stream words 2 2) × (get_window_size second.0 ≡ 3)
two_passes_example = two_passes 3 words 2 waiting waiting-InOrder

last_pass-printed_example : (last_pass waiting).1 ≡ stream words 2 (min (4 - 2) (3 - 2 % 3))
last_pass-printed_example = last_pass-printed 3 words 2 waiting waiting-InOrder

-- Number 3 waits at the start of the array and is not printed.
last_pass-loses : (last_pass waiting).1 ≡ (2, text "or") ∷ []
unfolding last_pass read_buffer drain_from drain min_seq_num min_seq_num_from
last_pass-loses = refl
