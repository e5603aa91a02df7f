-- ===== src/Tests/Rtt.antt =====
-- The timer with quarters of a millisecond for floats.
use network_programming.Base.{
  ℕ, suc, ◌+◌, ◌-◌, ◌*◌, ◌/◌, leb, if◌then◌else◌, ℤ, pos, negsuc, pos_part, ◌≡◌, refl, arith,
}
use network_programming.Transfer.Rtt.Estimators.{Floats, RttInfo, rtt_stop}
use network_programming.Transfer.Rtt.Armed.{srtt_stuck}

abbrev neg_part : ℤ → ℕ
neg_part (pos n) = 0
neg_part (negsuc n) = suc n

abbrev of_parts : ℕ → ℕ → ℤ
of_parts a b = if leb b a then pos (a - b) else negsuc (b - a - 1)

add_nothing : (x : ℤ) → of_parts (pos_part x + 0) (neg_part x + 0) ≡ x
add_nothing (pos n) = ground arith
add_nothing (negsuc n) = ground arith

abbrev quarters : Floats
quarters = record {
  F = ℤ;
  of_int = λ a. of_parts (4 * pos_part a) (4 * neg_part a);
  to_int = λ x. of_parts (pos_part x / 4) (neg_part x / 4);
  add = λ x y. of_parts (pos_part x + pos_part y) (neg_part x + neg_part y);
  sub = λ x y. of_parts (pos_part x + neg_part y) (neg_part x + pos_part y);
  times_four = λ x. of_parts (4 * pos_part x) (4 * neg_part x);
  quarter = λ x. of_parts (pos_part x / 4) (neg_part x / 4);
  three_quarters = pos 3;
  first_rto = refl;
  add_zero = add_nothing;
}

abbrev unset : RttInfo quarters
unset = record { rtt = pos 0; srtt = pos 9; rttvar = pos 9; rto = 77; nrexmt = 5; base = 4 }

-- The estimate is 100 ms, and the round trip takes 107.
abbrev steady : RttInfo quarters
steady = record { rtt = pos 100; srtt = pos 400; rttvar = pos 3; rto = 1000; nrexmt = 0; base = 4 }

srtt_stuck_example : (rtt_stop quarters 107 steady).srtt ≡ pos 400
srtt_stuck_example = srtt_stuck quarters 107 steady (omega arith)
