-- ===== src/Transfer/Sender.antt =====
-- The server's end of the file transfer (hw2/server.c): `send_file_data` and `receive_ack`. The file
-- is the list of the words that `fscanf` reads.
pub mod Words
pub mod Sent
pub mod Round
pub mod Again
pub mod Patience
pub mod Aim
pub mod Answer
use network_programming.Base.{
  ℕ, zero, suc, ◌+◌, ◌-◌, ◌*◌, ◌/◌, min, Bool, true, false, not, ◌&&◌, ◌||◌, Option, none, some,
  List, [], ◌∷◌, ◌++◌, length, get_elem?, ltb, leb, ◌==◌, if◌then◌else◌, Bytes,
}
use network_programming.Transfer.Receiver.{DataType, payload, eof, ping, Datagram, Ack}
use network_programming.Transfer.Rtt.{Timer, rtt_init, rtt_newpack, rtt_stop, rtt_timeout}

-- `th_config`, with the locals of `send_file_data`: `pos` is how many words have been read, `next` is
-- `seq_num + 1`, `q_obj` the datagram that was sent last. A field that is -1 for unset is `none`.
pub record Sender : Type 0 where
  pub words : List Bytes
  pub pos : ℕ
  pub next : ℕ
  pub last_unacked : Option ℕ
  pub last_pack : Option ℕ
  pub ssthresh : Option ℕ
  pub rwnd : ℕ
  pub cwnd : ℕ
  pub is_eof : Bool
  pub timer : Timer
  pub rttinit : Bool
  pub q_obj : Datagram

-- The buffer after a file has been read from its start up to word `u`: at the end of the file `fscanf`
-- leaves the word before in it.
unfoldable pub reread : List Bytes → ℕ → Bytes
reread [] u = []
reread (w ∷ ws) zero = w
reread (w ∷ []) (suc u) = w
reread (w ∷ (v ∷ ws)) (suc u) = reread (v ∷ ws) u

-- The retransmission of `u`.
unfoldable pub resend : ℕ → Sender → Sender
resend u s = record s {
  next = u + 1;
  pos = min (u + 1) (length s.words);
  last_unacked = none;
  q_obj = record { kind = DataType.ack; seq = u; ts = 0; buf = reread s.words u };
}

-- The next word, or the end of the file, which is noted once. `bzero` makes the type `ack`, until it
-- is set.
unfoldable pub read_next : ℕ → Sender → Sender
read_next ts s = elim (get_elem? s.words s.pos) [
  | some w ↦ record s {
    next = s.next + 1;
    pos = s.pos + 1;
    q_obj = record { kind = DataType.ack; seq = s.next; ts = ts; buf = w };
  }
  | none ↦ record s {
    next = s.next + 1;
    last_pack = elim s.last_pack [ none ↦ some s.next | some l ↦ some l ];
    q_obj = record { kind = DataType.ack; seq = s.next; ts = ts; buf = [] };
  }
]

-- The type of the datagram: `seq_num >= last_pack_seq_no` is `last_pack < next`.
unfoldable pub set_type : Sender → Sender
set_type s = elim s.last_pack [
  | none ↦ record s { q_obj = record s.q_obj { kind = payload } }
  | some l ↦
      if ltb l s.next
      then record s { next = l + 1; q_obj = record s.q_obj { kind = eof; seq = l } }
      else record s { q_obj = record s.q_obj { kind = payload } }
]

unfoldable pub start_timer : Sender → Sender
start_timer s = record s {
  timer = rtt_newpack (if s.rttinit then s.timer else rtt_init s.timer);
  rttinit = true;
}

-- One round of the inner loop, at time `ts`; the datagram is then in `q_obj`.
unfoldable pub send_one : ℕ → Sender → Sender
send_one ts s =
    start_timer (set_type (elim s.last_unacked [ none ↦ read_next ts s | some u ↦ resend u s ]))

unfoldable pub send_burst : ℕ → ℕ → Sender → Sender × List Datagram
send_burst zero ts s = (s, [])
send_burst (suc n) ts s =
    let s' = send_one ts s in
    let (s'', ds) = send_burst n ts s' in if s.is_eof then (s, []) else (s'', s'.q_obj ∷ ds)

-- `seq_num` as a `uint32_t`: -1 before the first packet.
abbrev pub seq_num : Sender → ℕ
seq_num s = if s.next == 0 then 4294967295 else s.next - 1

abbrev pub with_ping : Sender → Sender
with_ping s = record s { q_obj = record s.q_obj { kind = ping; seq = seq_num s } }

-- One round of the outer loop up to `receive_ack`.
unfoldable pub send_round : ℕ → Sender → Sender × List Datagram
send_round ts s =
    let (s', ds) = send_burst (min s.cwnd s.rwnd) ts s in
    if (s'.rwnd == 0) && not s'.is_eof
    then (with_ping s', ds ++ ((with_ping s').q_obj ∷ []))
    else (s', ds)

-- The locals of `receive_ack`.
pub record Wait : Type 0 where
  pub expected : ℕ
  pub prev : Option ℕ
  pub fast : ℕ

pub data Outcome : Type 0 where
  returned : Sender → Outcome
  waits : Sender → Wait → Outcome
  gave_up : Outcome

-- `seq > last_pack_seq_no && last_pack_seq_no != -1`
abbrev pub is_past : Option ℕ → Option ℕ → Bool
is_past none l = false
is_past (some n) none = false
is_past (some n) (some l) = ltb l n

-- The branch for the timeout and for three duplicates.
unfoldable pub on_alarm : Wait → Sender → Outcome
on_alarm w s =
    if is_past w.prev s.last_pack
    then returned (record s { is_eof = true })
    else if (rtt_timeout s.timer).1
    then gave_up
    else returned (record s {
      timer = (rtt_timeout s.timer).0;
      ssthresh = some (s.cwnd / 2);
      cwnd = 1;
      last_unacked = elim w.prev [ none ↦ s.last_unacked | some p ↦ some p ];
      rttinit = false;
    })

-- `cwnd` is an `int` in the source; a number past INT_MAX stands for nothing there.
abbrev pub grow : Sender → ℕ
grow s = elim s.ssthresh [
  | none ↦ s.cwnd * 2
  | some t ↦ if leb t s.cwnd then s.cwnd + 1 else s.cwnd * 2
]

-- The end of `receive_ack`.
unfoldable pub finish : ℕ → Sender → Sender
finish estimate s = record s { timer = rtt_stop estimate s.timer; last_unacked = none }

abbrev pub is_same : Option ℕ → ℕ → Bool
is_same none n = false
is_same (some p) n = p == n

abbrev pub note_ack : ℕ → Wait → Wait
note_ack seq w =
    if is_same w.prev seq
    then record w { fast = w.fast + 1 }
    else record w { prev = some seq; fast = 0 }

-- An acknowledgement, as long as the code expects it; `estimate` is for the timer.
unfoldable pub on_ack : Ack → ℕ → Wait → Sender → Outcome
on_ack a estimate w s =
    let s' = record s { cwnd = grow s } in
    let s'' = record s' { rwnd = a.rwnd } in
    let w' = note_ack a.seq w in
    if is_past (some a.seq) s.last_pack
    then returned (finish estimate (record s' { is_eof = true }))
    else if a.seq == w.expected
    then returned (finish estimate s'')
    else if w'.fast == 3
    then on_alarm w' s''
    else waits s'' w'

pub data Transfer : Type 0 where
  waiting : Sender → Wait → Transfer
  done : Sender → Transfer
  failed : Transfer

-- Back in `send_file_data`: the next round, or the end.
unfoldable pub resume : ℕ → Outcome → Transfer × List Datagram
resume ts (waits s w) = (waiting s w, [])
resume ts gave_up = (failed, [])
resume ts (returned s) =
    let (s', ds) = send_round ts s in
    if s.is_eof
    then (done s, [])
    else (waiting s' (record { expected = s'.next; prev = none; fast = 0 }), ds)

pub data Event : Type 0 where
  acked : Ack → ℕ → Event
  alarm : Event

unfoldable pub step : ℕ → Event → Transfer → Transfer × List Datagram
step ts (acked a estimate) (waiting s w) = resume ts (on_ack a estimate w s)
step ts alarm (waiting s w) = resume ts (on_alarm w s)
step ts e (done s) = (done s, [])
step ts e failed = (failed, [])

-- The fields before the first round. The source leaves `isEOF` and the timer unset.
unfoldable pub start : List Bytes → ℕ → Timer → Datagram → Sender
start words rwnd timer q_obj = record {
  words = words;
  pos = 0;
  next = 0;
  last_unacked = none;
  last_pack = none;
  ssthresh = none;
  rwnd = rwnd;
  cwnd = 1;
  is_eof = false;
  timer = timer;
  rttinit = false;
  q_obj = q_obj;
}
