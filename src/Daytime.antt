-- ===== src/Daytime.antt =====
-- The time service of Assignment1/code: the thread of the server (tcpechotimesrv.c) and the loop of the
-- client (time_cli.c). The time as `ctime` prints it, and the results of `write` and `Read`, come with
-- the events.
pub mod Reset
use network_programming.Base.{
  ℕ, ◌-◌, Bool, true, false, List, [], ◌∷◌, ◌++◌, length, replicate, take, ◌==◌, if◌then◌else◌,
  Bytes, text, c_string,
}
use network_programming.Echo.{Reading, line, closed, failed, Out, feedback, shown}

abbrev pub maxline : ℕ
maxline = 4096

-- The buffer with 24 bytes of the time, the end of the line, and zeros.
unfoldable pub time_buf : Bytes → Bytes
time_buf ticks = let s = take 24 ticks ++ (13 ∷ 10 ∷ []) in s ++ replicate (maxline - length s) 0

-- Whether a `write` went well: it returned neither -1 nor 0.
pub record Tick : Type 0 where
  pub ticks : Bytes
  pub is_written : Bool

-- What the thread writes.
unfoldable pub time_server_thread : List Tick → List Bytes
time_server_thread [] = []
time_server_thread (t ∷ ts) =
    let rest = time_server_thread ts in
    if t.is_written then time_buf t.ticks ∷ rest else time_buf t.ticks ∷ []

-- `nread` after `nread = Read(...) > 0`: the value of the comparison.
abbrev pub nread : Reading → ℕ
nread (line buf) = 1
nread closed = 0
nread failed = 0

-- The branches behind the inner loop; a number here is never below 0.
unfoldable pub after_loop : ℕ → List Out
after_loop n =
    if n == 0
    then feedback (text "[Client][Time] Server: Server Terminated Prematurely\n") ∷ []
    else []

unfoldable pub time_server : List Reading → List Out
time_server [] = []
time_server (line buf ∷ rs) =
    shown (c_string buf)
    ∷ feedback (text "[Client][Time][Feedback] Data received from server\n")
    ∷ time_server rs
time_server (closed ∷ rs) = after_loop (nread closed)
time_server (failed ∷ rs) = after_loop (nread failed)
