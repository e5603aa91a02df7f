-- ===== src/Tests/Net.antt =====
-- A file of one word, sent and printed.
use network_programming.Base.{
  ℕ, ◌<◌, ◌≤◌, List, [], ◌∷◌, ◌++◌, map, some, Bytes, text, ◌≡◌, refl, ◌⊎◌, arith,
}
use network_programming.Transfer.Receiver.{
  DataType, Datagram, Ack, last_words, last_pass, int_max, init_window, store, push_data_to_buffer,
  push_at, update_expected_from, ispresent, send_ack_to_server, get_window_size, read_buffer,
  drain_from, drain, min_seq_num, min_seq_num_from, on_datagram,
}
use network_programming.Transfer.Receiver
use network_programming.Transfer.Receiver.Scan.{stream}
use network_programming.Transfer.Rtt.{
  Timer, max_nrexmt, rtt_timeout, rtt_init, rtt_newpack, rtt_stop, rtt_minmax,
}
use network_programming.Transfer.Sender.{
  Sender, Wait, on_alarm, grow, waiting, done, resume, on_ack, finish, send_one, send_round,
  send_burst, set_type, start_timer, read_next,
}
use network_programming.Transfer.Sender
use network_programming.Transfer.Net.{
  Net, receiving, ended, exited, deliver, reads, answer, timeout, begin, Reach, here, next,
}
use network_programming.Transfer.Handover.{connect, arrives, offered, acknowledged, connect-arrives}
use network_programming.Transfer.Net.Safety.{Reach-printed, Reach-done}
use network_programming.Transfer.Net.Truth.{line, closes}
use network_programming.Transfer.Net.Rounds.{Completes}
use network_programming.Transfer.Net.Completion.{Reach-Completes}

abbrev file : List Bytes
file = text "to" ∷ []

abbrev unset_timer : Timer
unset_timer = record { rto = 0; nrexmt = 5 }

abbrev nothing : Datagram
nothing = record { kind = DataType.ack; seq = 0; ts = 0; buf = [] }

abbrev first : Net
first = begin 9 file 2 unset_timer nothing 2

-- Both datagrams arrive and are acknowledged, one of them is printed, and the sender ends.
whole :
    (y : Net) × Reach first y
    × (s : Sender) × (y.sender ≡ done s)
    × (y.printed ≡ (0, text "to") ∷ [])
    × (y.phase ≡ ended)
unfolding begin Sender.start Sender.step Receiver.start init_window resume send_round send_burst
    send_one start_timer set_type read_next on_ack finish rtt_init rtt_newpack rtt_stop rtt_minmax
    on_datagram store push_data_to_buffer push_at update_expected_from ispresent send_ack_to_server
    get_window_size read_buffer drain_from drain min_seq_num min_seq_num_from
whole = (
  _,
  next
      (next
        (next (next (next here (deliver 0 _ _ _ _ refl refl refl refl)) (reads refl refl))
          (answer 9 5 0 _ _ _ refl refl (λ e n. absurd (ground arith)) refl))
        (deliver 1 _ _ _ _ refl refl refl refl))
      (answer 9 5 0 _ _ _ refl refl (λ e n. cc) refl),
  _,
  refl,
  refl,
  refl,
)

Reach-printed_example : (c : ℕ) × (whole.0.printed ≡ stream (line file) 0 c) × (c ≤ 2)
Reach-printed_example =
    Reach-printed file 2 (omega arith) 9 2 unset_timer nothing whole.0 (omega arith) whole.1

Reach-done_example :
    (whole.0.receiver.expected ≡ 2)
    × (c : ℕ) × (c ≤ 2)
    × ((whole.0.phase ≡ ended)
          × (whole.0.printed ≡ stream (line file) 0 c)
          × (whole.0.printed ++ (last_pass whole.0.receiver).1
              ≡ stream (line file) 0 (closes file 2 c))
        ⊎ (whole.0.phase ≡ exited) × (whole.0.printed ≡ stream (line file) 0 (closes file 2 c)))
Reach-done_example =
    Reach-done file 2 (omega arith) 9 2 unset_timer nothing whole.0 whole.2 (omega arith) whole.1
      whole.3

-- The port overtakes the acknowledgement and comes once more.
connect-arrives_example :
    connect (map (arrives 5000) (offered ∷ acknowledged ∷ offered ∷ [])) ≡ some 5000
connect-arrives_example = connect-arrives 5000 (offered ∷ acknowledged ∷ offered ∷ [])

-- The word has not arrived when the sender times out, and goes on to the end of the file.
timed_out :
    (y : Net) × Reach first y
    × (s : Sender) × (w : Wait) × (y.sender ≡ waiting s w)
    × (s.timer.nrexmt < max_nrexmt)
    × (s.last_pack ≡ some 1)
    × (y.receiver.expected ≡ 0)
    × (y.phase ≡ receiving)
    × (grow s ≤ int_max)
unfolding begin Sender.start Sender.step Receiver.start init_window resume send_round send_burst
    send_one start_timer set_type read_next on_alarm rtt_timeout rtt_init rtt_newpack rtt_minmax
timed_out = (_, next here (timeout 9 refl), _, _, refl, omega arith, refl, refl, refl, omega arith)

Reach-Completes_example : Completes file timed_out.0
Reach-Completes_example =
    Reach-Completes file 2 (omega arith) 9 2 unset_timer nothing timed_out.0 timed_out.2 timed_out.3
      (omega arith) (omega arith) timed_out.1 timed_out.8 timed_out.4 timed_out.5 timed_out.9
      (λ n. absurd (ground (arith, timed_out.6)))
