-- ===== src/Transfer/Sender/Round.antt =====
-- The datagrams of a round of the sender.
use network_programming.Base.{
  All-append, ℕ, zero, suc, min, not, ◌&&◌, List, [], ◌∷◌, ◌++◌, All, ◌==◌, ◌≡◌, refl, ◌∙◌, subst,
  inl, inr, arith, Bool-cases,
}
use network_programming.Transfer.Receiver.{Datagram}
use network_programming.Transfer.Sender.{Sender, send_one, send_burst, with_ping, send_round}
use network_programming.Transfer.Sender.Words.{IsPlaced, IsTrue}
use network_programming.Transfer.Sender.Sent.{send_one-Sent}

-- What holds of a sender that has sent datagrams.
pub record SentAll (s s' : Sender) (ds : List Datagram) : Type 0 where
  pub placed : IsPlaced s'
  pub carried : All (IsTrue s.words) ds
  pub words : s'.words ≡ s.words
  pub is_eof : s'.is_eof ≡ s.is_eof

nothing-SentAll : (s : Sender) → IsPlaced s → SentAll s s []
nothing-SentAll s v = record { placed = v; carried = tt; words = refl; is_eof = refl }

burst-SentAll :
    (n ts : ℕ) (s : Sender) → IsPlaced s → SentAll s (send_burst n ts s).0 (send_burst n ts s).1
unfolding send_burst
burst-SentAll zero ts s v = nothing-SentAll s v
burst-SentAll (suc n) ts s v = elim (Bool-cases s.is_eof) [
  | inl e ↦
      let q : (s, []) ≡ send_burst (suc n) ts s = ground arith in
      subst (λ (r : Sender × List Datagram). SentAll s r.0 r.1) q (nothing-SentAll s v)
  | inr e ↦
      let o = send_one-Sent ts s v in
      let r = burst-SentAll n ts (send_one ts s) o.placed in
      let q : (
        (send_burst n ts (send_one ts s)).0,
        (send_one ts s).q_obj ∷ (send_burst n ts (send_one ts s)).1,
      )
          ≡ send_burst (suc n) ts s =
        ground arith in
      subst (λ (r : Sender × List Datagram). SentAll s r.0 r.1) q
        (record {
          placed = r.placed;
          carried = (
            o.carried,
            subst (λ ws. All (IsTrue ws) (send_burst n ts (send_one ts s)).1) o.words r.carried,
          );
          words = r.words ∙ o.words;
          is_eof = r.is_eof ∙ o.is_eof;
        })
]

with_ping-SentAll :
    (s s' : Sender) (ds : List Datagram)
    → SentAll s s' ds
    → SentAll s (with_ping s') (ds ++ ((with_ping s').q_obj ∷ []))
with_ping-SentAll s s' ds r = record {
  placed = record {
    place = r.placed.place;
    inside = r.placed.inside;
    end = r.placed.end;
    again = r.placed.again;
  };
  carried = All-append (IsTrue s.words) ds _ r.carried (tt, tt);
  words = r.words;
  is_eof = r.is_eof;
}

-- In one round of a sender that stands at its place in the file every datagram with data carries the
-- word of its number, the end of the file has the number behind the last word, and the sender still
-- stands at its place. To stand at its place means: the words left to read are those from the next
-- number on; until the end of the file is noted the next number is not above the number of words,
-- and the number that is noted for it is the number of words; and a number that is to be sent again
-- is below the number of words unless the end is noted. The last condition leaves out a sender that
-- has to send the number of the end again without having noted it, which sends the last word in its
-- place.
pub send_round-SentAll :
    (ts : ℕ) (s : Sender) → IsPlaced s → SentAll s (send_round ts s).0 (send_round ts s).1
unfolding send_round
send_round-SentAll ts s v =
    let (s', ds) = send_burst (min s.cwnd s.rwnd) ts s in
    let r = burst-SentAll (min s.cwnd s.rwnd) ts s v in
    elim (Bool-cases ((s'.rwnd == 0) && not s'.is_eof)) [
      | inl e ↦
          let q : (with_ping s', ds ++ ((with_ping s').q_obj ∷ [])) ≡ send_round ts s =
            ground arith in
          subst (λ (r : Sender × List Datagram). SentAll s r.0 r.1) q (with_ping-SentAll s s' ds r)
      | inr e ↦
          let q : (s', ds) ≡ send_round ts s = ground arith in
          subst (λ (r : Sender × List Datagram). SentAll s r.0 r.1) q r
    ]
