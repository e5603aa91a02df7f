-- ===== src/Transfer/Net/Truth.antt =====
-- What holds of a transfer at every moment.
use network_programming.Base.{
  ℕ, ◌+◌, ◌-◌, ◌%◌, min, ◌≤◌, ◌<◌, true, none, some, List, [], ◌∷◌, All, length, get_elem?, Bytes,
  ◌≡◌, refl, subst, arith,
}
use network_programming.Transfer.Receiver.{
  Datagram, DataType, payload, eof, ack, ping, Ack, int_max, last_words,
}
use network_programming.Transfer.Receiver.Scan.{stream}
use network_programming.Transfer.Receiver.Order.{InOrder}
use network_programming.Transfer.Receiver.Arrive.{Carries, is_word}
use network_programming.Transfer.Sender.Words
use network_programming.Transfer.Sender.Words.{IsTrue, get-some}
use network_programming.Transfer.Net.{Net, Phase, receiving, ended, exited}
use network_programming.Transfer.Net.Sending.{IsSound}

-- What the client prints for a number: the word of the file, and behind the last one the words for
-- the end of the file.
abbrev pub line : List Bytes → ℕ → Bytes
line words n = elim (get_elem? words n) [ none ↦ last_words | some w ↦ w ]

-- A datagram of the sender carries the line of its number, which is not above that of the end.
line-some : (words : List Bytes) (n : ℕ) {w : Bytes} → get_elem? words n ≡ some w → w ≡ line words n
line-some words n h = ground arith

line-end : (words : List Bytes) → last_words ≡ line words (length words)
line-end [] = refl
line-end (w ∷ ws) = line-end ws

pub IsTrue-Carries :
    (words : List Bytes) (k : DataType) (d : Datagram)
    → length words < int_max
    → d.kind ≡ k
    → IsTrue words d
    → Carries (line words) d
IsTrue-Carries words payload d l e t =
    let h : get_elem? words d.seq ≡ some d.buf =
      subst (λ k. Words.Carries words k d.seq d.buf) e t in
    ((λ _. (omega (arith, get-some words d.seq h), line-some words d.seq h)), λ f. cc)
IsTrue-Carries words eof d l e t =
    let h : d.seq ≡ length words = subst (λ k. Words.Carries words k d.seq d.buf) e t in
    ((λ f. cc), λ _. (omega (arith, h), rw h (line-end words)))
IsTrue-Carries words ack d l e t = ((λ f. cc), λ f. cc)
IsTrue-Carries words ping d l e t = ((λ f. cc), λ f. cc)

pub number_in_file :
    (words : List Bytes) (k : DataType) (d : Datagram)
    → d.kind ≡ k
    → IsTrue words d
    → is_word k ≡ true
    → d.seq ≤ length words
number_in_file words payload d e t k =
    let h : get_elem? words d.seq ≡ some d.buf =
      subst (λ k. Words.Carries words k d.seq d.buf) e t in
    omega (arith, get-some words d.seq h)
number_in_file words eof d e t k =
    let h : d.seq ≡ length words = subst (λ k. Words.Carries words k d.seq d.buf) e t in
    omega (arith, h)
number_in_file words ack d e t k = cc
number_in_file words ping d e t k = cc

abbrev pub IsOld : ℕ → Ack → Type 0
IsOld got a = a.seq ≤ got

-- The client reads datagrams until it has accepted the end of the file.
abbrev pub IsClosed : List Bytes → Phase → ℕ → Type 0
IsClosed words receiving e = e ≤ length words
IsClosed words ended e = e ≡ length words + 1
IsClosed words exited e = e ≡ length words + 1

-- How many lines have been printed when the last pass of `main` finds `c` printed: those that lie
-- before the end of the array.
abbrev pub closes : List Bytes → ℕ → ℕ → ℕ
closes words slots c = c + min (length words + 1 - c) (slots - c % slots)

abbrev pub IsLast : List Bytes → ℕ → Phase → ℕ → Type 0
IsLast words slots receiving n = Unit
IsLast words slots ended n = Unit
IsLast words slots exited n = (c : ℕ) × (c ≤ length words + 1) × (n ≡ closes words slots c)

-- What holds of the sender, the network and the client together.
pub record IsTruthful (words : List Bytes) (slots : ℕ) (x : Net) : Type 0 where
  pub count : ℕ
  pub sound : IsSound words x.receiver.expected x.sender
  pub true_words : All (IsTrue words) x.sent
  pub old : All (IsOld x.receiver.expected) x.acks
  pub ordered : InOrder slots (line words) count x.receiver
  pub in_file : x.receiver.expected ≤ length words + 1
  pub closed : IsClosed words x.phase x.receiver.expected
  pub last : IsLast words slots x.phase count
  pub output : x.printed ≡ stream (line words) 0 count
