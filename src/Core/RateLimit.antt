-- ===== src/Core/RateLimit.antt =====
-- koraku/core/rate_limit.py: `RateLimit`, `rate_limit_key`, `_enforce_in_memory` and
-- `enforce_rate_limit`. Clock readings and spans are ticks, `second` of them to a second.
pub mod Window
pub mod Retry
pub mod Keys
pub mod Tests
use koraku.Prelude.{
  Bool, ℕ, ◌+◌, ◌-◌, ◌/◌, Option, none, some, List, [], ◌∷◌, ◌++◌, leb, ltb, if◌then◌else◌, max,
  length, text_equality, nat_beq,
}
use koraku.Prelude.Text.{Text, text, is_empty, decimal, or_empty}
use koraku.Prelude.Dict
use koraku.Prelude.Dict.{Dict}

-- A limit that is not positive is 0 here: the code reads `limit <= 0` as "no limit".
pub record RateLimit : Type 0 where
  pub key : Text
  pub limit : ℕ
  pub window : ℕ

-- The HTTP 429 with its Retry-After seconds, or a plain return.
pub data Verdict : Type 0 where
  admitted : Verdict
  too_many : ℕ → Verdict

-- `while bucket and bucket[0] < cutoff: bucket.popleft()`, with `cutoff = now - window`.
pub pop_expired : ℕ → ℕ → List ℕ → List ℕ
pop_expired window now [] = []
pop_expired window now (hit ∷ bucket) =
    let rest = pop_expired window now bucket in
    if ltb (hit + window) now then rest else hit ∷ bucket

-- The answer to a bucket that is full, from its oldest hit.
pub retry_after : ℕ → ℕ → ℕ → List ℕ → ℕ
retry_after second window now [] = window / second
retry_after second window now (hit ∷ bucket) = max 1 ((window + hit - now) / second)

-- `_enforce_in_memory` on the bucket of the key.
pub enforce_bucket : ℕ → ℕ → ℕ → ℕ → List ℕ → List ℕ × Verdict
enforce_bucket second max_hits window now bucket =
    let live = pop_expired window now bucket in
    if leb max_hits (length live)
    then (live, too_many (retry_after second window now live))
    else (live ++ now ∷ [], admitted)

abbrev pub Hits : Type 0
Hits = Dict Text (List ℕ)

-- `_hits[limit.key]` on a `defaultdict(deque)`
abbrev pub bucket_of : Hits → Text → List ℕ
bucket_of hits key = elim (Dict.get hits key) [ none ↦ [] | some bucket ↦ bucket ]

pub enforce_in_memory : ℕ → RateLimit → ℕ → Hits → Hits × Verdict
enforce_in_memory second limit now hits =
    let (bucket, verdict) =
      enforce_bucket second limit.limit limit.window now (bucket_of hits limit.key) in
    (Dict.put hits limit.key bucket, verdict)

-- The counter that the workers share: `redis_client.increment_with_ttl`, where Redis is configured.
abbrev pub Counter : Type 0
Counter = Text → ℕ → Option ℕ

pub redis_window : ℕ → RateLimit → ℕ
redis_window second limit = max 1 (limit.window / second)

pub redis_key : ℕ → RateLimit → ℕ → Text
redis_key second limit wall =
    text "koraku:rl:" ++ (limit.key ++ (text ":" ++ decimal (wall / redis_window second limit)))

-- `wall` is `int(time.time())`, in seconds; `now` is the monotonic clock, in ticks.
pub enforce_rate_limit : ℕ → Option Counter → RateLimit → ℕ → ℕ → Hits → Hits × Verdict
unfolding redis_window redis_key
enforce_rate_limit second redis limit wall now hits =
    if nat_beq limit.limit 0 then (hits, admitted) else elim redis [
      | none ↦ enforce_in_memory second limit now hits
      | some increment ↦
          elim (increment (redis_key second limit wall) (redis_window second limit + 5)) [
            | none ↦ enforce_in_memory second limit now hits
            | some count ↦
                if ltb limit.limit count
                then (hits, too_many (redis_window second limit))
                else (hits, admitted)
          ]
    ]

-- `rate_limit_key`; the address of the client is a parameter, read from the request.
pub rate_limit_key : Text → Text → Option Text → Option Text → Text
rate_limit_key client_ip scope user_id org_id =
    let user = or_empty user_id in
    let org = or_empty org_id in
    let principal =
      if is_empty user
      then text "ip:" ++ client_ip
      else if is_empty org
      then text "user:" ++ user
      else text "org:" ++ (org ++ (text ":user:" ++ user)) in
    scope ++ (text ":" ++ principal)
