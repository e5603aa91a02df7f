-- ===== src/Tests/Echo.antt =====
-- The echo service with a concrete `Readline` on a list of bytes.
use network_programming.Base.{
  ℕ, ◌≤◌, some, List, [], ◌∷◌, ◌++◌, length, ◌==◌, if◌then◌else◌, Bytes, text, c_string, str_eq,
  ◌≡◌, refl, ap, arith, Bool-cases, inl, inr,
}
use network_programming.Echo.{
  Reading, line, closed, failed, client_closed, echo_server_thread, Event, from_server, typed,
  echo_server, on_event, on_server, on_typed, choose, strncmp_eq, quit, nothing, start_echo,
}
use network_programming.Echo.Thread.{IsReadline, Echoes, echo_server_thread-Echoes}
use network_programming.Echo.Client.{IsStartOf, sent}

-- The line that starts with a byte, by what follows the byte.
abbrev longer : ℕ → Reading × Bytes → Reading × Bytes
longer c (line b, rest) = (line (c ∷ b), rest)
longer c (closed, rest) = (line (c ∷ []), [])
longer c (failed, rest) = (line (c ∷ []), [])

abbrev split_line : Bytes → Reading × Bytes
split_line [] = (closed, [])
split_line (c ∷ cs) = if c == 10 then (line (c ∷ []), cs) else longer c (split_line cs)

-- What is split off, and never a failure.
abbrev Splits : Bytes → Reading × Bytes → Type 0
Splits cs (line b, rest) = (1 ≤ length b) × (cs ≡ b ++ rest)
Splits cs (closed, rest) = cs ≡ []
Splits cs (failed, rest) = ⊥

Splits-longer :
    (c : ℕ) (cs : Bytes) (r : Reading × Bytes) → Splits cs r → Splits (c ∷ cs) (longer c r)
Splits-longer c cs (line b, rest) (l, e) = (omega arith, ap (λ (xs : Bytes). c ∷ xs) e)
Splits-longer c cs (closed, rest) e = (omega arith, ap (λ (xs : Bytes). c ∷ xs) e)
Splits-longer c cs (failed, rest) e = absurd e

Splits-split_line : (cs : Bytes) → Splits cs (split_line cs)
Splits-split_line [] = refl
Splits-split_line (c ∷ cs) = elim (Bool-cases (c == 10)) [
  | inl e ↦ rw e (omega arith, refl)
  | inr e ↦ rw e (Splits-longer c cs (split_line cs) (Splits-split_line cs))
]

Splits-line :
    (cs b : Bytes) (r : Reading × Bytes)
    → Splits cs r
    → r.0 ≡ line b
    → (1 ≤ length b) × (cs ≡ b ++ r.1)
Splits-line cs b (line x, rest) (l, q) e = ground arith
Splits-line cs b (closed, rest) q e = cc
Splits-line cs b (failed, rest) q e = cc

Splits-closed : (cs : Bytes) (r : Reading × Bytes) → Splits cs r → r.0 ≡ closed → cs ≡ []
Splits-closed cs (line x, rest) q e = cc
Splits-closed cs (closed, rest) q e = q
Splits-closed cs (failed, rest) q e = cc

split_line-IsReadline : IsReadline split_line (λ cs. cs)
split_line-IsReadline = record {
  a_line = λ c b e. Splits-line c b (split_line c) (Splits-split_line c) e;
  the_end = λ c e. Splits-closed c (split_line c) (Splits-split_line c) e;
}

abbrev two_lines : Bytes
two_lines = text "to\nbe\n"

echo_server_thread-Echoes_example :
    Echoes split_line
      (λ cs. cs)
      split_line-IsReadline
      two_lines
      (echo_server_thread split_line 9 two_lines)
echo_server_thread-Echoes_example =
    echo_server_thread-Echoes split_line (λ cs. cs) split_line-IsReadline 9 two_lines (omega arith)

writes_two :
    echo_server_thread split_line 9 two_lines ≡ some (text "to\n" ∷ text "be\n" ∷ [], client_closed)
unfolding echo_server_thread
writes_two = refl

abbrev events : List Event
events =
    typed (line (text "to\n"))
    ∷ from_server (line (text "to\n"))
    ∷ typed (line (text "be\n"))
    ∷ typed closed
    ∷ []

sends_two : IsStartOf two_lines (sent (echo_server events))
unfolding echo_server on_event on_server on_typed
sends_two = ([], refl)

-- An empty line ends the menu.
empty_line : choose (text "\n") ≡ quit
unfolding choose strncmp_eq str_eq c_string
empty_line = refl

-- At the end of the input nothing is chosen, again and again.
no_line : choose [] ≡ nothing
unfolding choose strncmp_eq str_eq c_string
no_line = refl

echo_line : choose (text "echo\n") ≡ start_echo
unfolding choose strncmp_eq str_eq c_string
echo_line = refl
