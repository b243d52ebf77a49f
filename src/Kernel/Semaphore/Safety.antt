-- ===== src/Kernel/Semaphore/Safety.antt =====
-- No more calls run than there are permits, and none waits while a permit is free.
use shop_verse.Base.{
  ℕ, suc, ◌≤◌, ◌<◌, ◌≡◌, ◌⊎◌, refl, true, List, [], ◌∷◌, ◌++◌, length, length-append, contains,
  erase, arith, ok,
}
use shop_verse.Kernel.Semaphore.{
  Semaphore, World, Event, call, settle, expire, new, step, run, idle,
}

pub length-erase :
    (a : ℕ) (xs : List ℕ) → contains a xs ≡ true → suc (length (erase a xs)) ≡ length xs
length-erase a [] h = cc
length-erase a (x ∷ xs) h = ground (arith, length-erase a xs)

length-snoc : (a : ℕ) (xs : List ℕ) → length (xs ++ (a ∷ [])) ≡ suc (length xs)
length-snoc a xs = omega (arith, length-append xs (a ∷ []))

-- The permits in use are the running calls, at most `max_permits`, and a queue means that none is
-- free.
pub record IsSafe (w : World) : Type 0 where
  pub counted : length w.running ≡ w.sem.in_flight
  pub capped : w.sem.in_flight ≤ w.sem.max_permits
  pub busy : (w.sem.waiters ≡ []) ⊎ (w.sem.in_flight ≡ w.sem.max_permits)

step-IsSafe : (e : Event) (w : World) → 0 < w.sem.max_permits → IsSafe w → IsSafe (step e w)
unfolding step
step-IsSafe (call id) w p v = grind (arith, length-snoc)
step-IsSafe (settle id) w p v = grind (arith, length-snoc, length-erase)
step-IsSafe (expire id) w p v = ground arith

max_permits-step : (e : Event) (w : World) → (step e w).sem.max_permits ≡ w.sem.max_permits
unfolding step
max_permits-step e w = ground arith

run-IsSafe : (es : List Event) (w : World) → 0 < w.sem.max_permits → IsSafe w → IsSafe (run es w)
unfolding run
run-IsSafe [] w p v = v
run-IsSafe (e ∷ es) w p v =
    run-IsSafe es (step e w) (omega (arith, max_permits-step e w)) (step-IsSafe e w p v)

max_permits-run : (es : List Event) (w : World) → (run es w).sem.max_permits ≡ w.sem.max_permits
unfolding run
max_permits-run [] w = refl
max_permits-run (e ∷ es) w = omega (arith, max_permits-run es (step e w), max_permits-step e w)

new-pos : (n : ℕ) (s : Semaphore) → new n ≡ ok s → (0 < n) × (s.max_permits ≡ n) × IsSafe (idle s)
unfolding new
new-pos n s h = ground arith

-- In any history of a semaphore with `n` permits the running calls are the permits in use, they are
-- at most `n`, and if a call waits then exactly `n` are running.
pub running_bounded :
    (n : ℕ) (es : List Event) (s : Semaphore)
    → new n ≡ ok s
    → let w = run es (idle s) in
      (length w.running ≡ w.sem.in_flight)
      × (length w.running ≤ n)
      × ((w.sem.waiters ≡ []) ⊎ (length w.running ≡ n))
running_bounded n es s h =
    let (pos, cap, safe) = new-pos n s h in
    let v : IsSafe (run es (idle s)) = run-IsSafe es (idle s) (omega arith) safe in
    let same = max_permits-run es (idle s) in
    (v.counted, omega (arith, v.capped, v.counted), grind (arith, v.busy, v.counted))
