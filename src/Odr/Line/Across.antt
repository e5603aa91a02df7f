-- ===== src/Odr/Line/Across.antt =====
-- The four frames of an exchange go from one end of a line to the other.
use network_programming.Base.{
  ℕ, ◌+◌, false, some, List, [], ◌∷◌, map, length, All, Bytes, str_eq, ◌≡◌, ◌≢◌, refl, ap, arith,
}
use network_programming.Odr.Types.{PeerInfo, ServerDetails}
use network_programming.Odr.Send.{b_mac}
use network_programming.Odr.Neighbours.Ends.{out_of, request, reply, ask, response}
use network_programming.Odr.Line.{Relay, to_right, to_left}
use network_programming.Odr.Line.Relays.{Hop, fresh, IsBetween}
use network_programming.Odr.Line.Pass.{
  accepts_all, accepts_own, hands_right, hands_left, knows_one, knows_both, handles_request,
  handles_reply, handles_ask, handles_response,
}

abbrev pub starts : Hop → Relay
starts r = record { left = r.left; right = r.right; node = fresh r }

-- The interface that sends into the far end of the line, when `i` sends into its near end.
abbrev pub last : ServerDetails → List Hop → ServerDetails
last i [] = i
last i (r ∷ rs) = last r.right rs

-- The interface that sends out of the near end of the line, when `j` sends into its far end.
abbrev pub first : ServerDetails → List Hop → ServerDetails
first j [] = j
first j (r ∷ rs) = r.left

module _ (a b : Bytes) (now : ℕ) (x : PeerInfo) (na : a ≢ []) (nb : b ≢ [])
    (ab : str_eq a b ≡ false) (flag : ℕ) where
  -- The line behind the route request, and behind the route reply.
  abbrev pub asked : ServerDetails → ℕ → List Hop → List Relay
  asked i h [] = []
  asked i h (r ∷ rs) =
      record (starts r) { node = knows_one r a b now flag h i.mac } ∷ asked r.right (h + 1) rs

  abbrev pub replied : ServerDetails → ℕ → ServerDetails → ℕ → List Hop → List Relay
  replied i h j k [] = []
  replied i h j k (r ∷ rs) =
      record (starts r) {
        node = knows_both r a b now flag h i.mac (k + length rs) (first j rs).mac;
      }
      ∷ replied r.right (h + 1) j k rs

  pub request_across :
      (i : ServerDetails) (h : ℕ) (rs : List Hop)
      → All (IsBetween a b) rs
      → to_right now x (map starts rs) (out_of i b_mac (request a b flag h))
        ≡ some (asked i h rs, out_of (last i rs) b_mac (request a b flag (h + length rs)))
  unfolding to_right
  request_across i h [] v =
      ap (λ (n : ℕ). some ([], out_of i b_mac (request a b flag n))) (omega arith)
  request_across i h (r ∷ rs) v =
      rw
        (
          to_right,
          hands_right now x r (fresh r) (knows_one r a b now flag h i.mac) b_mac
              (request a b flag (h + 1)) (out_of i b_mac (request a b flag h)) v.0.two
              (accepts_all r.left (out_of i b_mac (request a b flag h)) refl)
              (handles_request r a b v.0 now x na nb ab flag h i),
          request_across r.right (h + 1) rs v.1,
        )
        (ap
          (λ (n : ℕ).
            some (asked i h (r ∷ rs), out_of (last r.right rs) b_mac (request a b flag n)))
          (omega arith))

  pub reply_across :
      (i : ServerDetails) (h : ℕ) (j : ServerDetails) (k : ℕ) (rs : List Hop)
      → All (IsBetween a b) rs
      → to_left now x (asked i h rs) (out_of j (last i rs).mac (reply a b flag k))
        ≡ some (replied i h j k rs, out_of (first j rs) i.mac (reply a b flag (k + length rs)))
  unfolding to_left
  reply_across i h j k [] v =
      ap (λ (n : ℕ). some ([], out_of j i.mac (reply a b flag n))) (omega arith)
  reply_across i h j k (r ∷ rs) v =
      let n = k + length rs in
      rw
        (
          to_left,
          reply_across r.right (h + 1) j k rs v.1,
          hands_left now x r (knows_one r a b now flag h i.mac)
              (knows_both r a b now flag h i.mac n (first j rs).mac) i.mac (reply a b flag (n + 1))
              (out_of (first j rs) r.right.mac (reply a b flag n))
              (accepts_own r.right (out_of (first j rs) r.right.mac (reply a b flag n)) refl)
              (handles_reply r a b v.0 now x na nb ab flag h n i.mac r.right.mac (first j rs)),
        )
        (ap (λ (m : ℕ). some (replied i h j k (r ∷ rs), out_of r.left i.mac (reply a b flag m)))
          (omega arith))

  pub ask_across :
      (i : ServerDetails) (h : ℕ) (j : ServerDetails) (k hops bid : ℕ) (rs : List Hop)
      → All (IsBetween a b) rs
      → (hops' bid' : ℕ) × (to_right now x
            (replied i h j k rs)
            (out_of i (first j rs).mac (ask a b hops bid))
          ≡ some (replied i h j k rs, out_of (last i rs) j.mac (ask a b hops' bid')))
  unfolding to_right
  ask_across i h j k hops bid [] v = (hops, bid, refl)
  ask_across i h j k hops bid (r ∷ rs) v =
      let n = k + length rs in
      let s = knows_both r a b now flag h i.mac n (first j rs).mac in
      let (hops', bid', e) = ask_across r.right (h + 1) j k n 1 rs v.1 in
      (
        hops',
        bid',
        rw
            (
              to_right,
              hands_right now x r s s (first j rs).mac (ask a b n 1)
                  (out_of i r.left.mac (ask a b hops bid)) v.0.two
                  (accepts_own r.left (out_of i r.left.mac (ask a b hops bid)) refl)
                  (handles_ask r a b v.0 now x na nb ab flag h n hops bid i.mac (first j rs).mac
                    r.left.mac i),
              e,
            )
            refl,
      )

  pub response_across :
      (i : ServerDetails) (h : ℕ) (j : ServerDetails) (k : ℕ) (msg : Bytes) (hops bid : ℕ)
      (rs : List Hop)
      → All (IsBetween a b) rs
      → (hops' bid' : ℕ) × (to_left now x
            (replied i h j k rs)
            (out_of j (last i rs).mac (response a b msg hops bid))
          ≡ some (replied i h j k rs, out_of (first j rs) i.mac (response a b msg hops' bid')))
  unfolding to_left
  response_across i h j k msg hops bid [] v = (hops, bid, refl)
  response_across i h j k msg hops bid (r ∷ rs) v =
      let n = k + length rs in
      let s = knows_both r a b now flag h i.mac n (first j rs).mac in
      let (hops', bid', e) = response_across r.right (h + 1) j k msg hops bid rs v.1 in
      (
        h,
        1,
        rw
            (
              to_left,
              e,
              hands_left now x r s s i.mac (response a b msg h 1)
                  (out_of (first j rs) r.right.mac (response a b msg hops' bid'))
                  (accepts_own r.right
                    (out_of (first j rs) r.right.mac (response a b msg hops' bid')) refl)
                  (handles_response r a b v.0 now x na nb ab flag h n hops' bid' msg i.mac
                    (first j rs).mac r.right.mac (first j rs)),
            )
            refl,
      )
