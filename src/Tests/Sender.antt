-- ===== src/Tests/Sender.antt =====
-- A file of two words on its way.
use network_programming.Base.{some, List, [], ◌∷◌, ◌++◌, length, Bytes, text, ◌≡◌, refl, arith}
use network_programming.Transfer.Receiver.{DataType, payload, eof, Datagram}
use network_programming.Transfer.Rtt.{Timer}
use network_programming.Transfer.Sender.{
  Sender, Wait, returned, waiting, resume, start, send_one, send_round, send_burst, set_type,
  start_timer, read_next,
}
use network_programming.Transfer.Sender.Words.{IsPlaced}
use network_programming.Transfer.Sender.Round.{SentAll, send_round-SentAll}
use network_programming.Transfer.Sender.Again.{last_word_again}
use network_programming.Transfer.Sender.Patience.{timeouts, start-timeouts}

abbrev file : List Bytes
file = text "to" ∷ text "be" ∷ []

abbrev unset_timer : Timer
unset_timer = record { rto = 0; nrexmt = 5 }

abbrev nothing : Datagram
nothing = record { kind = DataType.ack; seq = 0; ts = 0; buf = [] }

-- A window of four, all of it opened.
abbrev wide : Sender
wide = record (start file 4 unset_timer nothing) { cwnd = 4 }

wide-IsPlaced : IsPlaced wide
unfolding start
wide-IsPlaced = record {
  place = refl;
  inside = λ n. omega arith;
  end = λ l e. cc;
  again = λ u e. cc;
}

send_round-SentAll_example : SentAll wide (send_round 9 wide).0 (send_round 9 wide).1
send_round-SentAll_example = send_round-SentAll 9 wide wide-IsPlaced

-- Both words, and the end of the file twice.
abbrev four : List Datagram
four =
    record { kind = payload; seq = 0; ts = 9; buf = text "to" }
    ∷ record { kind = payload; seq = 1; ts = 9; buf = text "be" }
    ∷ record { kind = eof; seq = 2; ts = 9; buf = [] }
    ∷ record { kind = eof; seq = 2; ts = 9; buf = [] }
    ∷ []

sends_four : (send_round 9 wide).1 ≡ four
unfolding send_round send_burst send_one start_timer set_type read_next start
sends_four = refl

-- Both words were read, the client asks for the next, and it is sent again.
abbrev behind : Sender
behind = record (start file 4 unset_timer nothing) { pos = 1; next = 1; last_unacked = some 2 }

last_word_again_example :
    ((send_one 9 behind).q_obj.kind ≡ payload)
    × ((send_one 9 behind).q_obj.seq ≡ length behind.words)
    × ((send_one 9 behind).q_obj.buf ≡ text "be")
unfolding start
last_word_again_example = last_word_again 9 behind (text "be") (text "to" ∷ []) same refl refl
  where
    same : behind.words ≡ (text "to" ∷ []) ++ (text "be" ∷ [])
    same = refl

start-timeouts_example :
    (s : Sender) × (w : Wait) × (timeouts 20 9
        (resume 9 (returned (start file 4 unset_timer nothing))).0
      ≡ waiting s w)
start-timeouts_example = start-timeouts 20 9 4 file unset_timer nothing (omega arith)
