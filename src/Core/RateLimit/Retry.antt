-- ===== src/Core/RateLimit/Retry.antt =====
-- The wait that a refusal advertises in its Retry-After header.
use koraku.Prelude.{false, ℕ, ◌+◌, ◌-◌, ◌/◌, ◌*◌, ◌≤◌, ◌≡◌, ap, List, [], ◌∷◌, length, arith}
use native.Mathlib.Nat.{div-mul-le_self}
use koraku.Core.RateLimit.{too_many, pop_expired, retry_after, enforce_bucket}
use koraku.Core.RateLimit.Window.{is_admitted}

module _ (window now : ℕ) where
  pop_expired_head :
      (bucket rest : List ℕ) (hit : ℕ)
      → pop_expired window now bucket ≡ hit ∷ rest
      → now ≤ hit + window
  unfolding pop_expired
  pop_expired_head [] rest hit h = absurd (ground arith)
  pop_expired_head (x ∷ xs) rest hit h = ground (arith, pop_expired_head xs rest hit)

  pop_expired_live :
      (hit : ℕ) (rest : List ℕ)
      → now ≤ hit + window
      → pop_expired window now (hit ∷ rest) ≡ hit ∷ rest
  unfolding pop_expired
  pop_expired_live hit rest h = ground arith

refused_of_full :
    (second max_hits window now : ℕ) (bucket : List ℕ)
    → max_hits ≤ length (pop_expired window now bucket)
    → is_admitted (enforce_bucket second max_hits window now bucket).1 ≡ false
unfolding enforce_bucket
refused_of_full second max_hits window now bucket h = ground arith

full_of_refused :
    (second max_hits window now retry : ℕ) (bucket live : List ℕ)
    → enforce_bucket second max_hits window now bucket ≡ (live, too_many retry)
    → (pop_expired window now bucket ≡ live)
      × (max_hits ≤ length live)
      × (retry_after second window now live ≡ retry)
unfolding enforce_bucket
full_of_refused second max_hits window now retry bucket live h = ground arith

wait_bound :
    (second window now retry hit : ℕ) (rest : List ℕ)
    → now ≤ hit + window
    → retry_after second window now (hit ∷ rest) ≡ retry
    → 2 ≤ retry
    → now + retry * second ≤ hit + window
unfolding retry_after
wait_bound second window now retry hit rest live wait two =
    let exact : (window + hit - now) / second ≡ retry = omega arith in
    omega (arith, div-mul-le_self (window + hit - now) second, ap (λ (t : ℕ). t * second) exact)

-- A refusal that asks for a wait of two seconds or more asks for too little: a request that comes
-- when that wait is over, with no other in between, is refused again. The wait is rounded down.
pub retry_after_too_early :
    (second max_hits window now retry : ℕ) (bucket live : List ℕ)
    → enforce_bucket second max_hits window now bucket ≡ (live, too_many retry)
    → 2 ≤ retry
    → is_admitted (enforce_bucket second max_hits window (now + retry * second) live).1 ≡ false
retry_after_too_early second max_hits window now retry bucket [] h two =
    let (popped, full, wait) = full_of_refused second max_hits window now retry bucket [] h in
    refused_of_full second max_hits window (now + retry * second) [] (omega (arith, full))
retry_after_too_early second max_hits window now retry bucket (hit ∷ rest) h two =
    let (popped, full, wait) =
      full_of_refused second max_hits window now retry bucket (hit ∷ rest) h in
    let live = pop_expired_head window now bucket rest hit popped in
    refused_of_full second max_hits window (now + retry * second) (hit ∷ rest) (
      rw
        (pop_expired_live window (now + retry * second) hit rest
          (wait_bound second window now retry hit rest live wait two))
        full)
