-- ===== src/Kernel/CircuitBreaker/Opening.antt =====
-- When the breaker of backend/src/common/circuit-breaker.ts opens.
use shop_verse.Base.{
  ℕ, suc, ◌+◌, ◌≤◌, ◌<◌, ◌≡◌, ◌≢◌, ◌⊎◌, inr, subst, refl, List, [], ◌∷◌, All, length, arith, leb,
  map, if◌then◌else◌,
}
use shop_verse.Kernel.CircuitBreaker.{
  CircuitBreaker, CircuitBreakerConfig, closed, open_, Event, acquire, success, failure,
  manual_reset, kill, new, record_failure, step, run,
}

-- Failures alone never close an open breaker.
failures_stay_open :
    (cfg : CircuitBreakerConfig) (b : CircuitBreaker) (ts : List ℕ)
    → b.state ≡ open_
    → (run cfg (map failure ts) b).state ≡ open_
unfolding run
failures_stay_open cfg b [] h = h
failures_stay_open cfg b (t ∷ ts) h =
    failures_stay_open cfg (record_failure cfg t b) ts (unfold record_failure in ground arith)

-- The states of a closed breaker `c` failures into a window that began at `first`.
abbrev InWindow : CircuitBreakerConfig → ℕ → ℕ → CircuitBreaker → Type 0
InWindow cfg first c b =
    (b.state ≡ closed)
    × (b.failure_count ≡ suc c)
    × (b.first_failure_at ≡ first)
    × (suc c < cfg.failure_threshold)

record_failure-InWindow :
    (cfg : CircuitBreakerConfig) (first c t : ℕ) (b : CircuitBreaker)
    → InWindow cfg first c b
    → t ≤ first + cfg.window_ms
    → InWindow cfg first (suc c) (record_failure cfg t b)
      ⊎ ((record_failure cfg t b).state ≡ open_) × (suc (suc c) ≡ cfg.failure_threshold)
unfolding record_failure
record_failure-InWindow cfg first c t b w h = ground arith

failures-InWindow :
    (cfg : CircuitBreakerConfig) (first c : ℕ) (b : CircuitBreaker) (ts : List ℕ)
    → InWindow cfg first c b
    → All (λ t. t ≤ first + cfg.window_ms) ts
    → (run cfg (map failure ts) b).state
      ≡ (if leb cfg.failure_threshold (suc c + length ts) then open_ else closed)
unfolding run
failures-InWindow cfg first c b [] w h = ground arith
failures-InWindow cfg first c b (t ∷ ts) w (h, hs) = ground (
  arith,
  record_failure-InWindow cfg first c t b w h,
  failures-InWindow cfg first (suc c) (record_failure cfg t b) ts,
  failures_stay_open cfg (record_failure cfg t b) ts,
)

record_failure-new :
    (cfg : CircuitBreakerConfig) (t : ℕ)
    → InWindow cfg t 0 (record_failure cfg t new)
      ⊎ ((record_failure cfg t new).state ≡ open_) × (cfg.failure_threshold ≤ 1)
unfolding record_failure new
record_failure-new cfg t = ground arith

-- Consecutive failures of a new breaker, each no later than `window_ms` after the first one, leave
-- it open exactly when they are as many as the threshold (which is positive), and closed otherwise.
pub run-failures :
    (cfg : CircuitBreakerConfig) (t : ℕ) (ts : List ℕ)
    → 0 < cfg.failure_threshold
    → All (λ u. u ≤ t + cfg.window_ms) ts
    → (run cfg (map failure (t ∷ ts)) new).state
      ≡ (if leb cfg.failure_threshold (suc (length ts)) then open_ else closed)
unfolding run
run-failures cfg t ts pos h = ground (
  arith,
  failures-InWindow cfg t 0 (record_failure cfg t new) ts,
  failures_stay_open cfg (record_failure cfg t new) ts,
  record_failure-new cfg t,
)

-- The failures among the events, and the events without `forceOpen`.
abbrev pub failures : List Event → ℕ
failures [] = 0
failures (failure t ∷ es) = suc (failures es)
failures (e ∷ es) = failures es

abbrev pub IsUnforced : List Event → Type 0
IsUnforced [] = Unit
IsUnforced (kill t ∷ es) = ⊥
IsUnforced (e ∷ es) = IsUnforced es

-- What `n` failures can have done: no closed breaker counts more, no other one has seen fewer than
-- the threshold.
abbrev Paid : CircuitBreakerConfig → ℕ → CircuitBreaker → Type 0
Paid cfg n b = (cfg.failure_threshold ≤ n) ⊎ (b.state ≡ closed) × (b.failure_count ≤ n)

run-Paid :
    (cfg : CircuitBreakerConfig) (n : ℕ) (b : CircuitBreaker) (es : List Event)
    → IsUnforced es
    → Paid cfg n b
    → Paid cfg (n + failures es) (run cfg es b)
unfolding run
run-Paid cfg n b [] u p = ground arith
run-Paid cfg n b (acquire t ∷ es) u p =
    run-Paid cfg n (step cfg (acquire t) b) es u (unfold step in ground arith)
run-Paid cfg n b (success t ∷ es) u p =
    run-Paid cfg n (step cfg (success t) b) es u (unfold step in ground arith)
run-Paid cfg n b (failure t ∷ es) u p =
    let later : Paid cfg (suc n) (step cfg (failure t) b) = unfold step in ground arith in
    subst (λ m. Paid cfg m (run cfg es (step cfg (failure t) b))) (omega arith)
      (run-Paid cfg (suc n) (step cfg (failure t) b) es u later)
run-Paid cfg n b (manual_reset t ∷ es) u p =
    run-Paid cfg n (step cfg (manual_reset t) b) es u (unfold step in ground arith)
run-Paid cfg n b (kill t ∷ es) u p = absurd u

new_closed : new.state ≡ closed
unfolding new
new_closed = refl

new_count : new.failure_count ≡ 0
unfolding new
new_count = refl

-- Whatever calls a new breaker sees, except `forceOpen`: unless it is closed, it has seen at least
-- as many failures as its threshold.
pub opening_needs_failures :
    (cfg : CircuitBreakerConfig) (es : List Event)
    → IsUnforced es
    → (run cfg es new).state ≢ closed
    → cfg.failure_threshold ≤ failures es
opening_needs_failures cfg es u h =
    ground (arith, run-Paid cfg 0 new es u (inr (new_closed, omega (arith, new_count))))
