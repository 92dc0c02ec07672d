-- ===== src/Core/RateLimit/Tests.antt =====
-- Tests of the rate limiter, and the theorems at concrete inputs.
use koraku.Prelude.{ℕ, ◌+◌, ◌*◌, ◌≡◌, refl, some, List, [], ◌∷◌, arith, true, false, text_equality}
use koraku.Prelude.Text.{text, decimal}
use koraku.Prelude.Dict
use koraku.Core.RateLimit.{
  RateLimit, too_many, pop_expired, retry_after, enforce_bucket, Hits, enforce_in_memory, redis_key,
  enforce_rate_limit, rate_limit_key,
}
use koraku.Core.RateLimit.Window.{is_admitted, ideal, serve, serve-eq-ideal}
use koraku.Core.RateLimit.Retry.{retry_after_too_early}

program : Unit {0}
unfolding pop_expired retry_after enforce_bucket enforce_in_memory enforce_rate_limit rate_limit_key
    Dict.get Dict.put decimal
program = tt

-- Two requests a minute, at ten ticks to a second.
abbrev two_a_minute : RateLimit
two_a_minute = record { key = text "chat"; limit = 2; window = 600 }

abbrev times : List ℕ
times = 0 ∷ 100 ∷ 105 ∷ 601 ∷ 650 ∷ 701 ∷ []

served : serve 10 2 600 [] times ≡ true ∷ true ∷ false ∷ true ∷ false ∷ true ∷ []
unfolding program serve
served = refl

refused : enforce_bucket 10 2 600 105 (0 ∷ 100 ∷ []) ≡ (0 ∷ 100 ∷ [], too_many 49)
unfolding program
refused = refl

the_key :
    rate_limit_key (text "::1") (text "chat") (some (text "u")) (some (text "o"))
    ≡ text "chat:org:o:user:u"
unfolding program
the_key = refl

the_redis_key : redis_key 10 two_a_minute 125 ≡ text "koraku:rl:chat:2"
unfolding program
the_redis_key = refl

serve-eq-ideal_example : serve 10 2 600 [] times ≡ ideal 2 600 [] times
serve-eq-ideal_example = serve-eq-ideal 10 2 600 0 times (omega arith)

retry_after_too_early_example :
    is_admitted (enforce_bucket 10 2 600 (105 + 49 * 10) (0 ∷ 100 ∷ [])).1 ≡ false
retry_after_too_early_example =
    retry_after_too_early 10 2 600 105 49 (0 ∷ 100 ∷ []) (0 ∷ 100 ∷ []) refused (omega arith)

abbrev buckets : Hits
buckets = (text "chat", 0 ∷ 100 ∷ []) ∷ (text "task", 7 ∷ []) ∷ []
