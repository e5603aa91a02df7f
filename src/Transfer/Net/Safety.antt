-- ===== src/Transfer/Net/Safety.antt =====
-- What the client prints of the file, and when the sender ends.
use network_programming.Base.{
  ℕ, ◌+◌, ◌-◌, ◌%◌, min, ◌≤◌, ◌<◌, ◌⊎◌, inl, inr, refl, List, ◌++◌, length, Bytes, ◌≡◌, ap, ◌∙◌,
  subst, arith,
}
use network_programming.Transfer.Receiver.{Datagram, last_pass, int_max}
use network_programming.Transfer.Receiver.Scan.{stream}
use network_programming.Transfer.Receiver.Deliver.{stream-append}
use network_programming.Transfer.Receiver.Pending.{last_pass-printed}
use network_programming.Transfer.Rtt.{Timer}
use network_programming.Transfer.Sender.{Sender, done}
use network_programming.Transfer.Net.Steps.{begin-IsTruthful, Reach-IsTruthful}
use network_programming.Transfer.Net.{Net, Phase, receiving, ended, exited, begin, Reach}
use network_programming.Transfer.Net.Sending.{IsSound}
use network_programming.Transfer.Net.Truth.{line, closes, IsClosed, IsLast, IsTruthful}

module _ (words : List Bytes) (slots : ℕ) (small : length words < int_max) where
  -- What the last pass of `main` adds.
  pub last-closes :
      (y : Net) (v : IsTruthful words slots y)
      → y.phase ≡ ended
      → (y.receiver.expected ≡ length words + 1)
        × (y.printed ++ (last_pass y.receiver).1
            ≡ stream (line words) 0 (closes words slots v.count))
  last-closes y v f =
      let all : y.receiver.expected ≡ length words + 1 =
        subst (λ k. IsClosed words k y.receiver.expected) f v.closed in
      let from_zero : 0 + v.count ≡ v.count = omega arith in
      let n = min (length words + 1 - v.count) (slots - v.count % slots) in
      let adds : (last_pass y.receiver).1 ≡ stream (line words) v.count n =
        last_pass-printed slots (line words) v.count y.receiver v.ordered
        ∙ ap (λ e. stream (line words) v.count (min (e - v.count) (slots - v.count % slots))) all in
      (
        all,
        rw (v.output, adds)
            (subst
              (λ k.
                stream (line words) 0 v.count ++ stream (line words) k n
                ≡ stream (line words) 0 (v.count + n))
              from_zero (stream-append (line words) 0 v.count n)),
      )

  -- Both ends of a transfer, with a network that loses, repeats and reorders what they send, and with a
  -- client of at least one slot: at every moment the client has printed the words of the file from the
  -- first one on, in order, each once and with none left out, and behind the last word at most the line
  -- for the end of the file. It is assumed that the file has less than INT_MAX words, and that before
  -- the sender sees the end of the file it is not handed, while it waits for another number, an
  -- acknowledgement of the whole file.
  pub Reach-printed :
      (ts rwnd : ℕ) (timer : Timer) (q_obj : Datagram) (y : Net)
      → 0 < slots
      → Reach (begin ts words rwnd timer q_obj slots) y
      → (c : ℕ) × (y.printed ≡ stream (line words) 0 c) × (c ≤ length words + 1)
  Reach-printed ts rwnd timer q_obj y p r =
      let v =
        Reach-IsTruthful words slots small r
          (begin-IsTruthful words slots small ts rwnd timer q_obj p) in
      (v.count, v.output, omega (arith, v.in_file, v.ordered.low, v.ordered.next))

  -- Both ends of a transfer, with a network that loses, repeats and reorders what they send, and with a
  -- client of at least one slot: when the sender has ended the transfer the client has accepted every
  -- word of the file and the end of it, and has left the loop over the datagrams, so that all that it
  -- still prints is the one last pass of `main`. With the lines up to `c` printed at the end of that
  -- loop, that pass makes them the lines up to `c` and as many more as lie before the end of the array
  -- of slots, or up to the end of the file if that is less; what has gone round to the start of the array
  -- is never printed. It is assumed that the file has less than INT_MAX words, and that before
  -- the sender sees the end of the file it is not handed, while it waits for another number, an
  -- acknowledgement of the whole file.
  pub Reach-done :
      (ts rwnd : ℕ) (timer : Timer) (q_obj : Datagram) (y : Net) (s : Sender)
      → 0 < slots
      → Reach (begin ts words rwnd timer q_obj slots) y
      → y.sender ≡ done s
      → (y.receiver.expected ≡ length words + 1)
        × (c : ℕ) × (c ≤ length words + 1)
        × ((y.phase ≡ ended)
              × (y.printed ≡ stream (line words) 0 c)
              × (y.printed ++ (last_pass y.receiver).1
                  ≡ stream (line words) 0 (closes words slots c))
            ⊎ (y.phase ≡ exited) × (y.printed ≡ stream (line words) 0 (closes words slots c)))
  Reach-done ts rwnd timer q_obj y s p r e =
      let v =
        Reach-IsTruthful words slots small r
          (begin-IsTruthful words slots small ts rwnd timer q_obj p) in
      let l : length words < y.receiver.expected =
        subst (IsSound words y.receiver.expected) e v.sound in
      let all : y.receiver.expected ≡ length words + 1 = omega (arith, l, v.in_file) in
      let (c, m, printed) = by_phase v all y.phase refl in (all, c, m, printed)
    where
      by_phase :
          IsTruthful words slots y
          → y.receiver.expected ≡ length words + 1
          → (f : Phase) → y.phase ≡ f
          → (c : ℕ) × (c ≤ length words + 1)
            × ((y.phase ≡ ended)
                  × (y.printed ≡ stream (line words) 0 c)
                  × (y.printed ++ (last_pass y.receiver).1
                      ≡ stream (line words) 0 (closes words slots c))
                ⊎ (y.phase ≡ exited) × (y.printed ≡ stream (line words) 0 (closes words slots c)))
      by_phase v all receiving f =
          let g = subst (λ k. IsClosed words k y.receiver.expected) f v.closed in
          absurd (omega (arith, g, all))
      by_phase v all ended f =
          let (_, out) = last-closes y v f in
          (v.count, omega (arith, v.in_file, v.ordered.low, v.ordered.next), inl (f, v.output, out))
      by_phase v all exited f =
          let (c, l, q) = subst (λ k. IsLast words slots k v.count) f v.last in
          (c, l, inr (f, v.output ∙ ap (stream (line words) 0) q))
