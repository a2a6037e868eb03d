-- ===== src/Db/Backoff/Delay.antt =====
-- The delays of the exponential backoff.
use cyberwatch_rs.Prelude.{two_pow_mono, ℕ, ◌-◌, ◌*◌, ◌^◌, ◌≤◌, ◌<◌, min, ◌≡◌, arith}
use cyberwatch_rs.Db.Backoff.{backoff_seconds}

-- For a base and a maximum that are `u64` values, the delay doubles with each failure and is capped
-- by the maximum: the saturations of the source do not show.
pub backoff_seconds_lem :
    (base maximum count : ℕ)
    → maximum < 2 ^ 64
    → count ≤ 31
    → backoff_seconds base maximum count ≡ min (base * 2 ^ (count - 1)) maximum
unfolding backoff_seconds
backoff_seconds_lem base maximum count h k = ground arith

-- The delay never shrinks from one failure to the next, up to the cap of 31 on the count.
pub backoff_seconds_mono :
    (base maximum m n : ℕ)
    → maximum < 2 ^ 64
    → n ≤ 31
    → m ≤ n
    → backoff_seconds base maximum m ≤ backoff_seconds base maximum n
backoff_seconds_mono base maximum m n h k le =
    rw (backoff_seconds_lem base maximum m h (omega arith), backoff_seconds_lem base maximum n h k)
      (grind (arith, two_pow_mono (m - 1) (n - 1) (omega arith)))
