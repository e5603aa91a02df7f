-- ===== src/Transfer/Net.antt =====
-- Both ends of the file transfer, with a network between them that may lose, repeat and reorder what
-- either of them sends.
pub mod Sending
pub mod Hearing
pub mod Truth
pub mod Steps
pub mod Safety
pub mod Going
pub mod Moves
pub mod Slows
pub mod Rounds
pub mod Answers
pub mod Completion
use network_programming.Base.{
  Bool, ℕ, ◌<◌, Option, none, some, List, [], ◌∷◌, ◌++◌, length, get_elem?, ◌≡◌, ◌≢◌, ◌≤◌,
  if◌then◌else◌, Bytes,
}
use network_programming.Transfer.Receiver.{
  Receiver, Datagram, Ack, Line, on_datagram, read_buffer, last_pass, int_max,
}
use network_programming.Transfer.Receiver
use network_programming.Transfer.Rtt.{Timer}
use network_programming.Transfer.Sender.{
  Sender, Wait, Transfer, waiting, returned, resume, acked, alarm, grow,
}
use network_programming.Transfer.Sender

-- The client reads datagrams; has left the loop over them at the end of the file, with the mutex locked,
-- so that its reader never runs again; or has made the last pass of `main`.
pub data Phase : Type 0 where
  receiving ended exited : Phase

abbrev pub phase_after : Bool → Phase
phase_after stop = if stop then ended else receiving

-- Everything that was sent so far may arrive, any number of times.
pub record Net : Type 0 where
  pub sender : Transfer
  pub receiver : Receiver
  pub sent : List Datagram
  pub acks : List Ack
  pub printed : List Line
  pub phase : Phase

-- The last premise of `answer`: while the sender has not seen the end of the file, an acknowledgement
-- that it does not wait for is not one for the whole file.
pub data Step (x y : Net) : Type 0 where
  deliver :
      (i : ℕ) (d : Datagram) (r : Receiver) (a : Ack) (stop : Bool)
      → x.phase ≡ receiving
      → get_elem? x.sent i ≡ some d
      → on_datagram d x.receiver ≡ some (r, a, stop)
      → y ≡ record x { receiver = r; acks = a ∷ x.acks; phase = phase_after stop }
      → Step x y
  reads :
      x.phase ≡ receiving
      → y ≡ record x {
        receiver = record x.receiver { window = (read_buffer x.receiver.window).0 };
        printed = x.printed ++ (read_buffer x.receiver.window).1;
      }
      → Step x y
  exits :
      x.phase ≡ ended
      → y ≡ record x {
        receiver = (last_pass x.receiver).0;
        printed = x.printed ++ (last_pass x.receiver).1;
        phase = exited;
      }
      → Step x y
  answer :
      (ts estimate i : ℕ) (a : Ack) (s : Sender) (w : Wait)
      → get_elem? x.acks i ≡ some a
      → x.sender ≡ waiting s w
      → (s.last_pack ≡ none → a.seq ≢ w.expected → a.seq < length s.words)
      → y ≡ record x {
        sender = (Sender.step ts (acked a estimate) x.sender).0;
        sent = x.sent ++ (Sender.step ts (acked a estimate) x.sender).1;
      }
      → Step x y
  timeout :
      (ts : ℕ)
      → y ≡ record x {
        sender = (Sender.step ts alarm x.sender).0;
        sent = x.sent ++ (Sender.step ts alarm x.sender).1;
      }
      → Step x y

-- The first round of the sender, and a client with `slots` slots.
unfoldable pub begin : ℕ → List Bytes → ℕ → Timer → Datagram → ℕ → Net
begin ts words rwnd timer q_obj slots =
    let (t, ds) = resume ts (returned (Sender.start words rwnd timer q_obj)) in
    record {
      sender = t;
      receiver = Receiver.start slots;
      sent = ds;
      acks = [];
      printed = [];
      phase = receiving;
    }

pub data Reach (x : Net) : Net → Type 0 where
  here : Reach x x
  next : {y z : Net} → Reach x y → Step y z → Reach x z

-- The congestion window is a number here and an `int` in the source: the step does not take it past
-- INT_MAX.
abbrev pub Fits : {x y : Net} → Step x y → Type 0
Fits (answer ts estimate i a s w e h p q) = grow s ≤ int_max
Fits (deliver i d r a stop f e h q) = Unit
Fits (reads f q) = Unit
Fits (exits f q) = Unit
Fits (timeout ts q) = Unit

-- Steps in which the congestion window stays an `int`.
pub data Run (x : Net) : Net → Type 0 where
  stay : Run x x
  then : {y z : Net} → Run x y → (t : Step y z) → Fits t → Run x z
