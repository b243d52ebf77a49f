-- ===== src/Kernel/Semaphore.antt =====
-- packages/sdk/src/runtime/semaphore.ts. A waiter is the number of the `run` call that queued it. A
-- promise that is resolved or rejected is an outcome: the calls that may go on, and those that get
-- a `SemaphoreTimeoutError`. The timer's clock is the environment's: `time_out` is its callback.
pub mod Fairness
pub mod Safety
mod Tests
use shop_verse.Base.{
  ℕ, ◌+◌, ◌-◌, Bool, true, false, ◌&&◌, Option, none, some, List, [], ◌∷◌, ◌++◌, length, contains,
  erase, ltb, leb, ◌==◌, if◌then◌else◌, Result, ok, err, fault,
}

pub record Semaphore : Type 0 where
  pub in_flight : ℕ
  pub waiters : List ℕ
  pub max_permits : ℕ

-- The constructor, at an integer number of permits.
unfoldable pub new : ℕ → Result Semaphore
new permits =
    if ltb permits 1
    then err fault
    else ok (record { in_flight = 0; waiters = []; max_permits = permits })

unfoldable pub permits_available : Semaphore → ℕ
permits_available s = s.max_permits - s.in_flight

unfoldable pub queue_depth : Semaphore → ℕ
queue_depth s = length s.waiters

-- `true`: the promise of `acquire` is resolved at once.
unfoldable pub acquire : ℕ → Semaphore → Bool × Semaphore
acquire id s =
    if ltb s.in_flight s.max_permits
    then (true, record s { in_flight = s.in_flight + 1 })
    else (false, record s { waiters = s.waiters ++ (id ∷ []) })

-- `release`, with the waiter whose promise it resolves.
unfoldable pub release : Semaphore → Option ℕ × Semaphore
release s = elim s.waiters [
  | [] ↦ (none, record s { in_flight = s.in_flight - 1 })
  | id ∷ rest ↦ (some id, record s { waiters = rest })
]

-- The callback of the timer of a waiter: it leaves the queue.
unfoldable pub time_out : ℕ → Semaphore → Semaphore
time_out id s = record s { waiters = erase id s.waiters }

-- `run` as the environment sees it: the calls whose function is running, and the calls that ended
-- with a timeout.
pub record World : Type 0 where
  pub sem : Semaphore
  pub running : List ℕ
  pub timed_out : List ℕ

pub data Event : Type 0 where
  -- a call of `run`; the function of a call settles; the timer of a call fires
  call settle expire : ℕ → Event

abbrev granted : Option ℕ → List ℕ → List ℕ
granted none running = running
granted (some id) running = running ++ (id ∷ [])

-- A function settles only while it runs, and `finally` then releases. The timer of a call that is
-- not in the queue was cleared.
unfoldable pub step : Event → World → World
unfolding acquire release time_out
step (call id) w =
    let (now, s) = acquire id w.sem in
    record w { sem = s; running = if now then w.running ++ (id ∷ []) else w.running }
step (settle id) w =
    if contains id w.running
    then (let (next, s) = release w.sem in
        record w { sem = s; running = granted next (erase id w.running) })
    else w
step (expire id) w =
    if contains id w.sem.waiters
    then record w { sem = time_out id w.sem; timed_out = id ∷ w.timed_out }
    else w

unfoldable pub run : List Event → World → World
unfolding step
run [] w = w
run (e ∷ es) w = run es (step e w)

abbrev pub idle : Semaphore → World
idle s = record { sem = s; running = []; timed_out = [] }
