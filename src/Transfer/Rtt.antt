-- ===== src/Transfer/Rtt.antt =====
-- The retransmission timer of hw2/rtt.c as the sender uses it. The estimators are left out: the timeout
-- that RTT_RTOCALC makes of them, as an `int`, is an argument of `rtt_stop`. Estimators has them too.
pub mod Estimators
pub mod Armed
use network_programming.Base.{ℕ, ◌+◌, ◌*◌, Bool, ltb, if◌then◌else◌}

pub record Timer : Type 0 where
  pub rto : ℕ
  pub nrexmt : ℕ

abbrev pub rxt_min : ℕ
rxt_min = 1000

abbrev pub rxt_max : ℕ
rxt_max = 3000

abbrev pub max_nrexmt : ℕ
max_nrexmt = 12

unfoldable pub rtt_minmax : ℕ → ℕ
rtt_minmax rto = if ltb rto rxt_min then rxt_min else if ltb rxt_max rto then rxt_max else rto

-- 0 + 4.0 * 0.75 is 3. The count of retransmissions stays as it was.
unfoldable pub rtt_init : Timer → Timer
rtt_init t = record t { rto = rtt_minmax 3 }

unfoldable pub rtt_newpack : Timer → Timer
rtt_newpack t = record t { nrexmt = 0 }

unfoldable pub rtt_stop : ℕ → Timer → Timer
rtt_stop estimate t = record t { rto = rtt_minmax estimate }

-- The flag is whether to give up, where the code returns -1.
unfoldable pub rtt_timeout : Timer → Timer × Bool
rtt_timeout t =
    (record { rto = rtt_minmax (t.rto * 2); nrexmt = t.nrexmt + 1 }, ltb max_nrexmt (t.nrexmt + 1))
