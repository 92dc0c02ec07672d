-- ===== src/Core/RateLimit/Keys.antt =====
-- `enforce_rate_limit` with a shared counter.
use koraku.Prelude.{ℕ, ◌+◌, ◌≤◌, ◌<◌, ◌≡◌, ◌↔◌, arith, some, text_equality}
use koraku.Core.RateLimit.{
  RateLimit, admitted, Hits, Counter, redis_window, redis_key, enforce_rate_limit,
}

module _ (second : ℕ) (limit : RateLimit) (now : ℕ) (hits : Hits) where
  -- With a positive limit and a shared counter that answers, the buckets of this process stay, and
  -- the request passes exactly when the count is within the limit.
  pub enforce_rate_limit_counted :
      (wall count : ℕ) (increment : Counter)
      → 0 < limit.limit
      → increment (redis_key second limit wall) (redis_window second limit + 5) ≡ some count
      → ((enforce_rate_limit second (some increment) limit wall now hits).0 ≡ hits)
        × (((enforce_rate_limit second (some increment) limit wall now hits).1 ≡ admitted)
            ↔ (count ≤ limit.limit))
  unfolding enforce_rate_limit
  enforce_rate_limit_counted wall count increment positive answer =
      (ground arith, (λ e. ground arith, λ e. ground arith))
