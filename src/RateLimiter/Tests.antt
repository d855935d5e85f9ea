-- ===== src/RateLimiter/Tests.antt =====
-- Runs of the rate limiter at concrete inputs.
use openstreetmap_cgimap.Prelude.{◌≡◌, refl, true, false, some, arith, ℕ-Eq, String-Eq}
use openstreetmap_cgimap.Prelude.Int.{pos, ℤ-Eq}
use openstreetmap_cgimap.Types.{ObjectType-Eq, Pair-Eq}
use openstreetmap_cgimap.RateLimiter.{RateState, RateSettings, check}
use openstreetmap_cgimap.RateLimiter.Decay.{check-waits}

abbrev settings : RateSettings
settings = record { bytes_per_sec = 10; max_bytes = 100 }

abbrev served : RateState
served = record { last_update = 1000; bytes_served = 500 }

blocked : check settings (some served) 1005 ≡ (true, pos 36)
unfolding check
blocked = refl

check-waits_example : check settings (some served) 1041 ≡ (false, pos 0)
check-waits_example =
    check-waits settings served 1005 36 (omega arith) (omega arith) (omega arith) (omega arith)
      blocked
