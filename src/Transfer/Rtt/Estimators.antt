-- ===== src/Transfer/Rtt/Estimators.antt =====
-- All of hw2/rtt.c, with the estimators, whose arithmetic on floats is a parameter, and the alarm that
-- receive_ack of hw2/server.c sets.
use network_programming.Base.{
  ℕ, suc, ◌+◌, ◌-◌, ◌*◌, ◌/◌, ◌%◌, ◌^◌, List, [], ◌∷◌, Bool, ltb, if◌then◌else◌, ℤ, pos, negsuc,
  pos_part, abs, ◌≡◌,
}
use network_programming.Transfer.Rtt.{Timer, max_nrexmt, rtt_minmax}

-- The operations on floats that the code uses: of an `int`, to an `int`, and by the constants 4.0 and 4.
-- The laws are those of values that a float holds exactly: 0 + 4.0 * 0.75 is 3, and adding 0 changes
-- nothing.
pub record Floats : Type 1 where
  pub F : Type 0
  pub of_int : ℤ → F
  pub to_int : F → ℤ
  pub add : F → F → F
  pub sub : F → F → F
  pub times_four : F → F
  pub quarter : F → F
  pub three_quarters : F
  pub first_rto : to_int (add (of_int (pos 0)) (times_four three_quarters)) ≡ pos 3
  pub add_zero : (x : F) → add x (of_int (pos 0)) ≡ x

-- `delta / 8` of C, which rounds towards 0.
abbrev pub eighth : ℤ → ℤ
eighth (pos n) = pos (n / 8)
eighth (negsuc n) = if ltb n 7 then pos 0 else negsuc (suc n / 8 - 1)

-- A `uint32_t` that is stored in an `int`.
abbrev pub int_of_u32 : ℕ → ℤ
int_of_u32 n = if ltb n 2147483648 then pos n else negsuc (4294967296 - n - 1)

-- `rtt_ts`, at a time in seconds and microseconds: `base` is the second of `rtt_init`.
unfoldable pub rtt_ts : ℕ → ℕ → ℕ → ℕ
rtt_ts base sec usec = ((sec + 2 ^ 32 - base) * 1000 + usec / 1000) % 2 ^ 32

-- What `receive_ack` takes for the time since a datagram with timestamp `ts` was sent: the time by the
-- base of now, less `ts`. A retransmission has timestamp 0, and `ts` may have been read by an earlier
-- base, so it is not always that time.
unfoldable pub round_trip : ℕ → ℕ → ℕ → ℕ → ℕ
unfolding rtt_ts
round_trip base sec usec ts = (rtt_ts base sec usec + 2 ^ 32 - ts) % 2 ^ 32

module _ (fl : Floats) where
  open fl use {
    F, of_int, to_int, add, sub, times_four, quarter, three_quarters, first_rto, add_zero,
  }

  -- `struct rtt_info`
  pub record RttInfo : Type 0 where
    pub rtt : ℤ
    pub srtt : F
    pub rttvar : F
    pub rto : ℕ
    pub nrexmt : ℕ
    pub base : ℕ

  -- RTT_RTOCALC, as the `int` that `rtt_minmax` is called with. One below 0 is taken to the least
  -- timeout, as 0 is.
  abbrev pub rtt_rtocalc : F → F → ℤ
  rtt_rtocalc srtt rttvar = to_int (add srtt (times_four rttvar))

  unfoldable pub rtt_init : ℕ → RttInfo → RttInfo
  rtt_init sec r = record {
    rtt = pos 0;
    srtt = of_int (pos 0);
    rttvar = three_quarters;
    rto = rtt_minmax (pos_part (rtt_rtocalc (of_int (pos 0)) three_quarters));
    nrexmt = r.nrexmt;
    base = sec % 2 ^ 32;
  }

  unfoldable pub rtt_newpack : RttInfo → RttInfo
  rtt_newpack r = record r { nrexmt = 0 }

  -- `delta`, the distance of the round trip from the estimate.
  abbrev pub delta_of : ℕ → RttInfo → ℤ
  delta_of ms r = to_int (sub (of_int (int_of_u32 ms)) r.srtt)

  unfoldable pub rtt_stop : ℕ → RttInfo → RttInfo
  rtt_stop ms r =
      let delta = delta_of ms r in
      let srtt = add r.srtt (of_int (eighth delta)) in
      let rttvar = add r.rttvar (quarter (sub (of_int (pos (abs delta))) r.rttvar)) in
      record r {
        rtt = int_of_u32 ms;
        srtt = srtt;
        rttvar = rttvar;
        rto = rtt_minmax (pos_part (rtt_rtocalc srtt rttvar));
      }

  -- The flag is whether to give up, where the code returns -1.
  unfoldable pub rtt_timeout : RttInfo → RttInfo × Bool
  rtt_timeout r = (
    record r { rto = rtt_minmax (r.rto * 2); nrexmt = r.nrexmt + 1 },
    ltb max_nrexmt (r.nrexmt + 1),
  )

  -- The calls that a transfer makes, with the time where it matters.
  pub data Call : Type 0 where
    init : ℕ → Call
    newpack : Call
    stop : ℕ → ℕ → ℕ → Call
    timeout : Call

  unfoldable pub call : Call → RttInfo → RttInfo
  call (init sec) r = rtt_init sec r
  call newpack r = rtt_newpack r
  call (stop sec usec ts) r = rtt_stop (round_trip r.base sec usec ts) r
  call timeout r = (rtt_timeout r).0

  unfoldable pub calls : List Call → RttInfo → RttInfo
  calls [] r = r
  calls (c ∷ cs) r = calls cs (call c r)

  -- The seconds of the alarm that `receive_ack` sets: the microseconds stay 0. The value of
  -- `rtt_start` is the timeout itself, which is an `int` already.
  unfoldable pub alarm_secs : RttInfo → ℕ
  alarm_secs r = r.rto / 1000

  -- The timer of the sender is this one without its estimators.
  abbrev pub view : RttInfo → Timer
  view r = record { rto = r.rto; nrexmt = r.nrexmt }
