-- ===== src/Kernel/Semaphore/Tests.antt =====
-- Two permits, three calls.
use shop_verse.Base.{◌≤◌, ◌≡◌, ◌⊎◌, refl, inl, List, [], ◌∷◌, ◌++◌, length}
use shop_verse.Kernel.Semaphore.{Semaphore, Event, call, settle, expire, new, run, idle}
use shop_verse.Kernel.Semaphore.Safety.{running_bounded}
use shop_verse.Kernel.Semaphore.Fairness.{all_starts, all_starts-waiters}

abbrev pair : Semaphore
pair = record { in_flight = 0; waiters = []; max_permits = 2 }

abbrev three_calls : List Event
three_calls = call 1 ∷ call 2 ∷ call 3 ∷ settle 2 ∷ []

hands_over : (run three_calls (idle pair)).running ≡ 1 ∷ 3 ∷ []
unfolding run
hands_over = refl

times_out : (run (call 1 ∷ call 2 ∷ call 3 ∷ expire 3 ∷ []) (idle pair)).timed_out ≡ 3 ∷ []
unfolding run
times_out = refl

running_bounded_example :
    let w = run three_calls (idle pair) in
    (length w.running ≡ w.sem.in_flight)
    × (length w.running ≤ 2)
    × ((w.sem.waiters ≡ []) ⊎ (length w.running ≡ 2))
unfolding new
running_bounded_example = running_bounded 2 three_calls pair refl

all_starts-waiters_example :
    all_starts three_calls (idle pair) ++ (run three_calls (idle pair)).sem.waiters ≡ 1 ∷ 2 ∷ 3 ∷ []
all_starts-waiters_example = all_starts-waiters three_calls (idle pair) tt (inl refl)
