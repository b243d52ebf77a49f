-- ===== src/Kernel/CircuitBreaker/Recovery.antt =====
-- What an open breaker of backend/src/common/circuit-breaker.ts admits, and how a trial ends.
use shop_verse.Base.{ℕ, ◌+◌, ◌≤◌, ◌<◌, ◌≡◌, ◌↔◌, refl, Bool, true, false, List, [], ◌∷◌, All, arith}
use shop_verse.Kernel.CircuitBreaker.{
  CircuitBreaker, CircuitBreakerConfig, open_, half_open, acquire, success, failure, new, run,
  try_acquire,
}

-- A call is refused exactly while the breaker is open and has not cooled down; a refusal changes
-- nothing.
pub try_acquire_refuses :
    (cfg : CircuitBreakerConfig) (now : ℕ) (b : CircuitBreaker)
    → (try_acquire cfg now b ≡ (false, b))
      ↔ ((b.state ≡ open_) × (now < b.opened_at + cfg.cooldown_ms))
unfolding try_acquire
try_acquire_refuses cfg now b = ground arith

-- The two ends of a trial. An open breaker that has cooled down admits a call; if that call
-- succeeds, the breaker is as new; if it fails at time `t`, every attempt is refused until
-- `cooldown_ms` after `t`.
pub trial_outcome :
    (cfg : CircuitBreakerConfig) (now t u : ℕ) (b : CircuitBreaker)
    → b.state ≡ open_
    → b.opened_at + cfg.cooldown_ms ≤ now
    → u < t + cfg.cooldown_ms
    → ((try_acquire cfg now b).0 ≡ true)
      × (run cfg (acquire now ∷ success t ∷ []) b ≡ new)
      × ((try_acquire cfg u (run cfg (acquire now ∷ failure t ∷ []) b)).0 ≡ false)
unfolding run new try_acquire
trial_outcome cfg now t u b o cooled h = ground arith

-- The answers to calls at the given times.
abbrev pub answers : CircuitBreakerConfig → List ℕ → CircuitBreaker → List Bool
answers cfg [] b = []
answers cfg (t ∷ ts) b = (try_acquire cfg t b).0 ∷ answers cfg ts (try_acquire cfg t b).1

half_open_admits :
    (cfg : CircuitBreakerConfig) (t : ℕ) (b : CircuitBreaker)
    → b.state ≡ half_open
    → try_acquire cfg t b ≡ (true, b)
unfolding try_acquire
half_open_admits cfg t b h = ground arith

-- A half-open breaker admits every call that asks before a trial has reported, however many.
pub half_open_admits-All :
    (cfg : CircuitBreakerConfig) (ts : List ℕ) (b : CircuitBreaker)
    → b.state ≡ half_open
    → All (λ a. a ≡ true) (answers cfg ts b)
half_open_admits-All cfg [] b h = tt
half_open_admits-All cfg (t ∷ ts) b h =
    rw (half_open_admits cfg t b h) (refl, half_open_admits-All cfg ts b h)
