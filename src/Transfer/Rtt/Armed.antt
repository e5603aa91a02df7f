-- ===== src/Transfer/Rtt/Armed.antt =====
-- What the timer measures and what it sets.
use network_programming.Base.{
  ℕ, ◌≤◌, ◌<◌, List, [], ◌∷◌, ℤ, pos, negsuc, abs, pos_part, ◌≡◌, refl, ◌∙◌, ap, arith,
}
use network_programming.Transfer.Rtt
use network_programming.Transfer.Rtt.{Timer, rxt_min, rxt_max, rtt_minmax}
use network_programming.Transfer.Rtt.Estimators.{
  Floats, RttInfo, Call, init, newpack, stop, timeout, round_trip, rtt_rtocalc, delta_of, eighth,
  rtt_init, rtt_newpack, rtt_stop, rtt_timeout, call, calls, alarm_secs, view,
}

eighth-zero : (d : ℤ) → abs d < 8 → eighth d ≡ pos 0
eighth-zero (pos n) h = ground arith
eighth-zero (negsuc n) h = ground arith

rtt_minmax-bounds : (n : ℕ) → (rxt_min ≤ rtt_minmax n) × (rtt_minmax n ≤ rxt_max)
unfolding rtt_minmax
rtt_minmax-bounds n = ground arith

module _ (fl : Floats) where
  abbrev IsClamped : RttInfo fl → Type 0
  IsClamped r = (rxt_min ≤ r.rto) × (r.rto ≤ rxt_max)

  call-IsClamped : (c : Call fl) (r : RttInfo fl) → IsClamped r → IsClamped (call fl c r)
  unfolding call rtt_init rtt_newpack rtt_stop rtt_timeout
  call-IsClamped (init sec) r h = rtt_minmax-bounds _
  call-IsClamped newpack r h = h
  call-IsClamped (stop sec usec ts) r h = rtt_minmax-bounds _
  call-IsClamped timeout r h = rtt_minmax-bounds _

  calls-IsClamped : (cs : List (Call fl)) (r : RttInfo fl) → IsClamped r → IsClamped (calls fl cs r)
  unfolding calls
  calls-IsClamped [] r h = h
  calls-IsClamped (c ∷ cs) r h = calls-IsClamped cs (call fl c r) (call-IsClamped c r h)

  -- Whatever the operations on floats are and whatever round trips are measured: after `rtt_init` and any
  -- calls on the timer the alarm is set to 1, 2 or 3 seconds, and never switched off by a value of 0.
  alarm_bounds :
      (sec : ℕ) (cs : List (Call fl)) (r : RttInfo fl)
      → let secs = alarm_secs fl (calls fl cs (rtt_init fl sec r)) in (1 ≤ secs) × (secs ≤ 3)
  unfolding alarm_secs rtt_init
  alarm_bounds sec cs r =
      let (l, h) = calls-IsClamped cs (rtt_init fl sec r) (rtt_minmax-bounds _) in
      (omega arith, omega arith)

  -- The calls on the timer without estimators, each `rtt_stop` with the timeout that the estimators give.
  abbrev shadow : Call fl → RttInfo fl → Timer → Timer
  shadow (init sec) r t = Rtt.rtt_init t
  shadow newpack r t = Rtt.rtt_newpack t
  shadow (stop sec usec ts) r t =
      let r' = rtt_stop fl (round_trip r.base sec usec ts) r in
      Rtt.rtt_stop (pos_part (rtt_rtocalc fl r'.srtt r'.rttvar)) t
  shadow timeout r t = (Rtt.rtt_timeout t).0

  abbrev shadows : List (Call fl) → RttInfo fl → Timer → Timer
  shadows [] r t = t
  shadows (c ∷ cs) r t = shadows cs (call fl c r) (shadow c r t)

  call-view : (c : Call fl) (r : RttInfo fl) → view fl (call fl c r) ≡ shadow c r (view fl r)
  unfolding call rtt_init rtt_newpack rtt_stop rtt_timeout Rtt.rtt_init Rtt.rtt_newpack Rtt.rtt_stop
      Rtt.rtt_timeout
  call-view (init sec) r = rw fl.first_rto refl
  call-view newpack r = refl
  call-view (stop sec usec ts) r = refl
  call-view timeout r = refl

  -- The timer of the sender goes through the same timeouts and counts as the one with estimators.
  calls-view :
      (cs : List (Call fl)) (r : RttInfo fl) → view fl (calls fl cs r) ≡ shadows cs r (view fl r)
  unfolding calls
  calls-view [] r = refl
  calls-view (c ∷ cs) r =
      calls-view cs (call fl c r) ∙ ap (shadows cs (call fl c r)) (call-view c r)

  -- A round trip whose distance from the estimate, as an `int`, is less than 8 milliseconds leaves the
  -- smoothed estimate as it was, since `delta / 8` is a division of integers. It is assumed that adding
  -- 0 to a float does not change it.
  pub srtt_stuck :
      (ms : ℕ) (r : RttInfo fl) → abs (delta_of fl ms r) < 8 → (rtt_stop fl ms r).srtt ≡ r.srtt
  unfolding rtt_stop
  srtt_stuck ms r h = rw (eighth-zero (delta_of fl ms r) h) (fl.add_zero r.srtt)
