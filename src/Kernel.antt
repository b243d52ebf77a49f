-- ===== src/Kernel.antt =====
-- The safety nets of the plugin kernel: the circuit breaker of a hook, the semaphore on a plugin's
-- database calls, the lock of the cron jobs, and the runner of hooks.
pub mod CircuitBreaker
pub mod Semaphore
pub mod CronLock
pub mod HookRunner
