-- ===== src/Kernel/CircuitBreaker.antt =====
-- backend/src/common/circuit-breaker.ts. The clock that `now()` reads is an argument: each method
-- takes the time of its call in milliseconds. A difference of times is written as a sum, so a clock
-- that steps back is treated as the signed difference of the source is.
pub mod Opening
pub mod Recovery
mod Tests
use shop_verse.Base.{
  ℕ, suc, ◌+◌, Bool, true, false, ◌||◌, ◌&&◌, not, List, [], ◌∷◌, ltb, leb, ◌==◌, if◌then◌else◌,
}

pub data CircuitBreakerState : Type 0 where
  closed open_ half_open : CircuitBreakerState

pub record CircuitBreakerConfig : Type 0 where
  pub failure_threshold : ℕ
  pub window_ms : ℕ
  pub cooldown_ms : ℕ

abbrev pub default_breaker_config : CircuitBreakerConfig
default_breaker_config = record { failure_threshold = 5; window_ms = 60_000; cooldown_ms = 60_000 }

pub record CircuitBreaker : Type 0 where
  pub state : CircuitBreakerState
  pub failure_count : ℕ
  pub first_failure_at : ℕ
  pub opened_at : ℕ

unfoldable pub new : CircuitBreaker
new = record { state = closed; failure_count = 0; first_failure_at = 0; opened_at = 0 }

abbrev is_open : CircuitBreakerState → Bool
is_open open_ = true
is_open _ = false

abbrev is_half_open : CircuitBreakerState → Bool
is_half_open half_open = true
is_half_open _ = false

-- The getter `state`, which moves an open breaker to half-open once it has cooled down.
unfoldable pub refresh : CircuitBreakerConfig → ℕ → CircuitBreaker → CircuitBreaker
refresh cfg now b =
    if is_open b.state && leb (b.opened_at + cfg.cooldown_ms) now
    then record b { state = half_open }
    else b

unfoldable pub try_acquire : CircuitBreakerConfig → ℕ → CircuitBreaker → Bool × CircuitBreaker
unfolding refresh
try_acquire cfg now b = let b' = refresh cfg now b in (not (is_open b'.state), b')

unfoldable pub reset : CircuitBreaker → CircuitBreaker
reset b = record { state = closed; failure_count = 0; first_failure_at = 0; opened_at = 0 }

unfoldable pub record_success : CircuitBreaker → CircuitBreaker
unfolding reset
record_success b =
    if is_half_open b.state then reset b else record b { failure_count = 0; first_failure_at = 0 }

-- The window part of `recordFailure`: a failure starts a fresh window or counts in the current one.
abbrev count_failure : CircuitBreakerConfig → ℕ → CircuitBreaker → CircuitBreaker
count_failure cfg t b =
    if b.failure_count == 0 || ltb (b.first_failure_at + cfg.window_ms) t
    then record b { failure_count = 1; first_failure_at = t }
    else record b { failure_count = b.failure_count + 1 }

unfoldable pub record_failure : CircuitBreakerConfig → ℕ → CircuitBreaker → CircuitBreaker
record_failure cfg t b =
    let counted = count_failure cfg t b in
    if is_half_open b.state
    then record {
      state = open_;
      failure_count = cfg.failure_threshold;
      first_failure_at = t;
      opened_at = t;
    }
    else if leb cfg.failure_threshold counted.failure_count
    then record counted { state = open_; opened_at = t }
    else counted

unfoldable pub force_open : CircuitBreakerConfig → ℕ → CircuitBreaker → CircuitBreaker
force_open cfg now b = record b {
  state = open_;
  opened_at = now;
  failure_count = cfg.failure_threshold;
}

-- The calls that the hook runner and the operator make.
pub data Event : Type 0 where
  acquire success failure manual_reset kill : ℕ → Event

unfoldable pub step : CircuitBreakerConfig → Event → CircuitBreaker → CircuitBreaker
unfolding try_acquire record_success record_failure reset force_open
step cfg (acquire t) b = (try_acquire cfg t b).1
step cfg (success t) b = record_success b
step cfg (failure t) b = record_failure cfg t b
step cfg (manual_reset t) b = reset b
step cfg (kill t) b = force_open cfg t b

unfoldable pub run : CircuitBreakerConfig → List Event → CircuitBreaker → CircuitBreaker
unfolding step
run cfg [] b = b
run cfg (e ∷ es) b = run cfg es (step cfg e b)
