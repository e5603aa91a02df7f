-- ===== src/Echo/Thread.antt =====
-- The thread of the server gives back what it reads.
use network_programming.Base.{
  ℕ, zero, suc, ◌≤◌, ◌<◌, Option, some, List, [], ◌∷◌, ◌++◌, length, Bytes, ◌≡◌, refl, sym, ◌∙◌, ap,
  arith, length-append,
}
use mathlib.Core.List.{append_assoc}
use network_programming.Echo.{
  Reading, line, closed, failed, End, client_closed, client_terminated, echo_server_thread,
}

abbrev pub concat : List Bytes → Bytes
concat [] = []
concat (b ∷ bs) = b ++ concat bs

-- What is used of `Readline`: `unread` are the bytes that are still to come. A line is not empty and is
-- taken off their start, and 0 is the end of them.
pub record IsReadline {ℓ} {Socket : Type ℓ} (readline : Socket → Reading × Socket)
    (unread : Socket → Bytes) : Type ℓ where
  pub a_line :
      (c : Socket) (b : Bytes)
      → (readline c).0 ≡ line b
      → (1 ≤ length b) × (unread c ≡ b ++ unread (readline c).1)
  pub the_end : (c : Socket) → (readline c).0 ≡ closed → unread c ≡ []

module _ {ℓ} {Socket : Type ℓ} (readline : Socket → Reading × Socket) (unread : Socket → Bytes)
    (reads : IsReadline readline unread) where
  -- What the thread does with the bytes of a connection.
  abbrev pub Echoes : Socket → Option (List Bytes × End) → Type 0
  Echoes c r =
      (outs : List Bytes) × (end : End) × (r ≡ some (outs, end))
      × (end ≡ client_closed → concat outs ≡ unread c)
      × ((more : Bytes) × (concat outs ++ more ≡ unread c))

  echo-reading :
      (fuel : ℕ) (c : Socket) (r : Reading)
      → (readline c).0 ≡ r
      → ((b : Bytes)
          → r ≡ line b
          → Echoes (readline c).1 (echo_server_thread readline fuel (readline c).1))
      → Echoes c (echo_server_thread readline (suc fuel) c)
  unfolding echo_server_thread
  echo-reading fuel c (line b) e h =
      let (outs, end, f, g, rest) = h b refl in
      let (more, k) = rest in
      let (_, u) = reads.a_line c b e in
      (
        b ∷ outs,
        end,
        rw (echo_server_thread, e, f) refl,
        (λ q. ap (λ (xs : Bytes). b ++ xs) (g q) ∙ sym u),
        (more, append_assoc b (concat outs) more ∙ ap (λ (xs : Bytes). b ++ xs) k ∙ sym u),
      )
  echo-reading fuel c closed e h =
      let u = reads.the_end c e in
      ([], client_closed, rw (echo_server_thread, e) refl, (λ q. sym u), ([], sym u))
  echo-reading fuel c failed e h =
      ([], client_terminated, rw (echo_server_thread, e) refl, (λ q. cc), (unread c, refl))

  -- For a `Readline` that takes lines off the bytes of a connection, the thread ends, and it has written
  -- the bytes of the connection: all of them if the client closed it, else a part from their start.
  pub echo_server_thread-Echoes :
      (fuel : ℕ) (c : Socket)
      → length (unread c) < fuel
      → Echoes c (echo_server_thread readline fuel c)
  echo_server_thread-Echoes zero c l = absurd (omega arith)
  echo_server_thread-Echoes (suc fuel) c l = echo-reading fuel c (readline c).0 refl (λ b e.
      let (p, u) = reads.a_line c b e in
      echo_server_thread-Echoes fuel (readline c).1
        (omega (arith, ap length u, length-append b (unread (readline c).1))))
