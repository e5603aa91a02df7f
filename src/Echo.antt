-- ===== src/Echo.antt =====
-- The echo service of Assignment1/code: the thread of the server (tcpechotimesrv.c), the loop of the
-- client (echo_cli.c) and the menu that starts it (tcpechotimecli.c). `Readline` of unpv13e is a
-- parameter of the thread; the client's results of it come with its events.
pub mod Thread
pub mod Client
use network_programming.Base.{
  ℕ, zero, suc, ◌+◌, ◌-◌, ◌%◌, ◌^◌, Bool, true, false, ◌&&◌, Option, none, some, List, [], ◌∷◌,
  ◌++◌, length, ◌==◌, if◌then◌else◌, Bytes, text, decimal, take, str_eq, c_string,
}

-- What `Readline` returns: a line with its length above 0, 0, or -1.
pub data Reading : Type 0 where
  line : Bytes → Reading
  closed : Reading
  failed : Reading

-- How the thread ends.
pub data End : Type 0 where
  client_closed : End
  client_terminated : End

module _ {ℓ} {Socket : Type ℓ} (readline : Socket → Reading × Socket) where
  -- What the thread writes, one write for a line; `none` if the fuel runs out.
  unfoldable pub echo_server_thread : ℕ → Socket → Option (List Bytes × End)
  echo_server_thread zero connfd = none
  echo_server_thread (suc fuel) connfd =
      let (r, connfd') = readline connfd in
      let rest = echo_server_thread fuel connfd' in
      elim r [
        | line buf ↦ elim rest [ none ↦ none | some (outs, end) ↦ some (buf ∷ outs, end) ]
        | closed ↦ some ([], client_closed)
        | failed ↦ some ([], client_terminated)
      ]

-- The client writes to its parent, to the server and, with `printf`, on the terminal.
pub data Out : Type 0 where
  feedback : Bytes → Out
  to_server : Bytes → Out
  shown : Bytes → Out

-- The branch for the socket, and whether the loop goes on.
unfoldable pub on_server : Reading → List Out × Bool
on_server (line buf) = (
  feedback (
        text "[Feedback][Echo][Client]: Data received from server of size "
        ++ (decimal (length buf) ++ text " bytes!\n"))
      ∷ shown (c_string buf)
      ∷ [],
  true,
)
on_server closed =
    (feedback (text "[Feedback][Echo][Client]: Server Terminated Prematurely\n") ∷ [], false)
on_server failed =
    (feedback (text "[Feedback][Echo][Client] Server: Reset Copy Received\n") ∷ [], false)

-- The branch for the terminal. A result of -1 is not looked at: `write` fails on it.
unfoldable pub on_typed : Reading → List Out × Bool
on_typed (line buf) =
    (feedback (text "[Feedback][Echo][Client]: Data sent to server!\n") ∷ to_server buf ∷ [], true)
on_typed closed =
    (feedback (text "[Feedback][Echo][Client]: ^D found. Client is done executing\n") ∷ [], false)
on_typed failed = (feedback (text "[Feedback][Echo][Client]: Data sent to server!\n") ∷ [], true)

-- A round of the loop that finds both ready is two events, the server first.
pub data Event : Type 0 where
  from_server : Reading → Event
  typed : Reading → Event

unfoldable pub on_event : Event → List Out × Bool
on_event (from_server r) = on_server r
on_event (typed r) = on_typed r

-- `echo_server` of echo_cli.c.
unfoldable pub echo_server : List Event → List Out
echo_server [] = []
echo_server (e ∷ es) =
    let (outs, more) = on_event e in
    let rest = echo_server es in if more then outs ++ rest else outs

-- What the menu does with a line.
pub data Choice : Type 0 where
  quit : Choice
  start_echo : Choice
  start_time : Choice
  nothing : Choice

-- `strncmp(input, word, n) == 0`
unfoldable pub strncmp_eq : Bytes → Bytes → ℕ → Bool
strncmp_eq s t n = str_eq (take n (c_string s)) (take n (c_string t))

-- The comparisons of `main`, with `strlen(input) - 1` as a `size_t`.
unfoldable pub choose : Bytes → Choice
choose input =
    let n = (length (c_string input) + (2 ^ 64 - 1)) % 2 ^ 64 in
    if strncmp_eq input (text "quit") n
    then quit
    else if strncmp_eq input (text "echo") n
    then start_echo
    else if strncmp_eq input (text "time") n
    then start_time
    else nothing
