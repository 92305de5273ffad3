-- ===== src/Futures/Funding/Schedule.antt =====
-- When funding is settled (updateNextFundingTime of pkg/futures/funding.go).
use little_cex.Prelude.{ℕ, ◌+◌, ◌%◌, ◌≤◌, ◌<◌, ◌≡◌, arith, int_eq, bytes_eq, nat_eq, pair_eq}
use little_cex.Futures.Funding.{next_funding_time_after}

-- The next settlement is at the first whole multiple of eight hours of Unix time that is after now.
pub next_funding_time_after-next :
    (now : ℕ)
    → (now < next_funding_time_after now)
      × (next_funding_time_after now ≤ now + 28800000)
      × (next_funding_time_after now % 28800000 ≡ 0)
unfolding next_funding_time_after
next_funding_time_after-next now = ground arith
