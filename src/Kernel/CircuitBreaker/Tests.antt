-- ===== src/Kernel/CircuitBreaker/Tests.antt =====
-- The breaker at concrete times, with the default configuration.
use shop_verse.Base.{◌≤◌, ◌<◌, ◌≡◌, ◌↔◌, refl, true, false, List, [], ◌∷◌, All, arith, map, ℕ}
use shop_verse.Kernel.CircuitBreaker.{
  CircuitBreaker, default_breaker_config, open_, half_open, acquire, failure, success, new, run,
  try_acquire,
}
use shop_verse.Kernel.CircuitBreaker.Opening.{run-failures, opening_needs_failures, failures}
use shop_verse.Kernel.CircuitBreaker.Recovery.{
  try_acquire_refuses, trial_outcome, answers, half_open_admits-All,
}

abbrev five_failures : List ℕ
five_failures = 100 ∷ 200 ∷ 300 ∷ 400 ∷ 500 ∷ []

abbrev tripped : CircuitBreaker
tripped = record { state = open_; failure_count = 5; first_failure_at = 100; opened_at = 500 }

trips : run default_breaker_config (map failure five_failures) new ≡ tripped
unfolding run new
trips = refl

run-failures_example : (run default_breaker_config (map failure five_failures) new).state ≡ open_
run-failures_example =
    run-failures default_breaker_config 100 (200 ∷ 300 ∷ 400 ∷ 500 ∷ []) (omega arith) (omega arith)

opening_needs_failures_run : 5 ≤ failures (map failure five_failures)
unfolding run new
opening_needs_failures_run =
    opening_needs_failures default_breaker_config (map failure five_failures) tt (λ e. cc e)

try_acquire_refuses_run :
    (try_acquire default_breaker_config 60_000 tripped ≡ (false, tripped))
    ↔ ((open_ ≡ open_) × (60_000 < 60_500))
try_acquire_refuses_run = try_acquire_refuses default_breaker_config 60_000 tripped

trial_outcome_run :
    ((try_acquire default_breaker_config 60_500 tripped).0 ≡ true)
    × (run default_breaker_config (acquire 60_500 ∷ success 60_600 ∷ []) tripped ≡ new)
    × ((try_acquire default_breaker_config 90_000
          (run default_breaker_config (acquire 60_500 ∷ failure 60_600 ∷ []) tripped)).0
        ≡ false)
trial_outcome_run =
    trial_outcome default_breaker_config 60_500 60_600 90_000 tripped refl (omega arith)
      (omega arith)

half_open_admits-All_run :
    All
      (λ a. a ≡ true)
      (answers default_breaker_config (1 ∷ 1 ∷ 2 ∷ []) (record tripped { state = half_open }))
half_open_admits-All_run =
    half_open_admits-All default_breaker_config (1 ∷ 1 ∷ 2 ∷ [])
      (record tripped { state = half_open }) refl
