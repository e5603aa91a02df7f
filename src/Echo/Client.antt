-- ===== src/Echo/Client.antt =====
-- The client between the terminal and the server.
use network_programming.Base.{
  ℕ, ◌<◌, some, List, [], ◌∷◌, ◌++◌, length, map, Bytes, c_string, ◌≡◌, refl, sym, ◌∙◌, ap, subst,
}
use mathlib.Core.List.{append_assoc}
use mathlib.Core.Option.{some-injective}
use network_programming.Echo.{
  Reading, line, closed, failed, Out, feedback, to_server, shown, on_server, on_typed, Event,
  from_server, typed, on_event, echo_server, echo_server_thread, End,
}
use network_programming.Echo.Thread.{concat, IsReadline, echo_server_thread-Echoes}

-- The bytes that are written to the server, and the lines on the terminal.
abbrev pub sent : List Out → Bytes
sent [] = []
sent (feedback b ∷ outs) = sent outs
sent (to_server b ∷ outs) = b ++ sent outs
sent (shown b ∷ outs) = sent outs

abbrev pub lines_shown : List Out → List Bytes
lines_shown [] = []
lines_shown (feedback b ∷ outs) = lines_shown outs
lines_shown (to_server b ∷ outs) = lines_shown outs
lines_shown (shown b ∷ outs) = b ∷ lines_shown outs

-- What is typed, and the lines that come from the server.
abbrev pub input : List Event → Bytes
input [] = []
input (typed (line b) ∷ es) = b ++ input es
input (typed closed ∷ es) = input es
input (typed failed ∷ es) = input es
input (from_server r ∷ es) = input es

abbrev pub replies : List Event → List Bytes
replies [] = []
replies (from_server (line b) ∷ es) = b ∷ replies es
replies (from_server closed ∷ es) = replies es
replies (from_server failed ∷ es) = replies es
replies (typed r ∷ es) = replies es

-- One sequence is the start of another.
abbrev pub IsStartOf : Bytes → Bytes → Type 0
IsStartOf xs ys = (more : Bytes) × (xs ++ more ≡ ys)

IsStartOf-trans : (xs ys zs : Bytes) → IsStartOf xs ys → IsStartOf ys zs → IsStartOf xs zs
IsStartOf-trans xs ys zs (m, e) (n, f) =
    (m ++ n, sym (append_assoc xs m n) ∙ ap (λ (l : Bytes). l ++ n) e ∙ f)

IsStartOf-cons : (b xs ys : Bytes) → IsStartOf xs ys → IsStartOf (b ++ xs) (b ++ ys)
IsStartOf-cons b xs ys (m, e) = (m, append_assoc b xs m ∙ ap (λ (l : Bytes). b ++ l) e)

echo_server-sent : (es : List Event) → IsStartOf (sent (echo_server es)) (input es)
unfolding echo_server on_event on_server on_typed
echo_server-sent [] = ([], refl)
echo_server-sent (typed (line b) ∷ es) =
    IsStartOf-cons b (sent (echo_server es)) (input es) (echo_server-sent es)
echo_server-sent (typed closed ∷ es) = (input es, refl)
echo_server-sent (typed failed ∷ es) = echo_server-sent es
echo_server-sent (from_server (line b) ∷ es) = echo_server-sent es
echo_server-sent (from_server closed ∷ es) = (input es, refl)
echo_server-sent (from_server failed ∷ es) = (input es, refl)

echo_server-lines_shown :
    (es : List Event)
    → (more : List Bytes) × (lines_shown (echo_server es) ++ more ≡ map c_string (replies es))
unfolding echo_server on_event on_server on_typed
echo_server-lines_shown [] = ([], refl)
echo_server-lines_shown (typed (line b) ∷ es) = echo_server-lines_shown es
echo_server-lines_shown (typed closed ∷ es) = (map c_string (replies es), refl)
echo_server-lines_shown (typed failed ∷ es) = echo_server-lines_shown es
echo_server-lines_shown (from_server (line b) ∷ es) =
    let (more, e) = echo_server-lines_shown es in (more, ap (λ l. c_string b ∷ l) e)
echo_server-lines_shown (from_server closed ∷ es) = (map c_string (replies es), refl)
echo_server-lines_shown (from_server failed ∷ es) = (map c_string (replies es), refl)

-- A client and the thread that serves it, with connections that deliver a part, from the start, of what
-- was written, and with a `Readline` that takes lines off the bytes of a connection: the
-- lines that the client gets are the start of what was typed, and it shows them in order, each up to its
-- first zero byte, until it ends.
echo_round_trip {ℓ} :
    {Socket : Type ℓ} (readline : Socket → Reading × Socket) (unread : Socket → Bytes) (fuel : ℕ)
    (connfd : Socket) (es : List Event) (outs : List Bytes) (end : End)
    → IsReadline readline unread
    → length (unread connfd) < fuel
    → IsStartOf (unread connfd) (sent (echo_server es))
    → echo_server_thread readline fuel connfd ≡ some (outs, end)
    → IsStartOf (concat (replies es)) (concat outs)
    → IsStartOf (concat (replies es)) (input es)
      × ((more : List Bytes) × (lines_shown (echo_server es) ++ more ≡ map c_string (replies es)))
echo_round_trip readline unread fuel connfd es outs end p l up e down =
    let (outs', end', f, _, back) = echo_server_thread-Echoes readline unread p fuel connfd l in
    let same = some-injective _ _ (sym f ∙ e) in
    let q : outs' ≡ outs = ap (λ (r : List Bytes × End). r.0) same in
    (
      IsStartOf-trans (concat (replies es)) (concat outs) (input es) down (
          IsStartOf-trans (concat outs) (unread connfd) (input es)
            (subst (λ (o : List Bytes). IsStartOf (concat o) (unread connfd)) q back)
            (IsStartOf-trans (unread connfd) (sent (echo_server es)) (input es) up
              (echo_server-sent es))),
      echo_server-lines_shown es,
    )
