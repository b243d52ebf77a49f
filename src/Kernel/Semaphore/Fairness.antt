-- ===== src/Kernel/Semaphore/Fairness.antt =====
-- The queue of packages/sdk/src/runtime/semaphore.ts is first in, first out.
use shop_verse.Base.{
  ℕ, ◌≤◌, ◌≡◌, ◌⊎◌, Option, none, some, List, [], ◌∷◌, ◌++◌, contains, arith, if◌then◌else◌, ap,
  ◌∙◌, sym,
}
use mathlib.Core.List.{append_assoc, append-nil}
use shop_verse.Kernel.Semaphore.{
  Semaphore, World, Event, call, settle, expire, step, run, acquire, release,
}

-- The calls that a step lets run.
abbrev pub starts : Event → World → List ℕ
starts (call id) w = if (acquire id w.sem).0 then id ∷ [] else []
starts (settle id) w = if contains id w.running then handed (release w.sem).0 else []
  where
    handed : Option ℕ → List ℕ
    handed none = []
    handed (some next) = next ∷ []
starts (expire id) w = []

abbrev pub all_starts : List Event → World → List ℕ
all_starts [] w = []
all_starts (e ∷ es) w = starts e w ++ all_starts es (step e w)

abbrev pub calls : List Event → List ℕ
calls [] = []
calls (call id ∷ es) = id ∷ calls es
calls (e ∷ es) = calls es

abbrev pub IsPatient : List Event → Type 0
IsPatient [] = Unit
IsPatient (expire id ∷ es) = ⊥
IsPatient (e ∷ es) = IsPatient es

-- A permit is free only when nobody waits.
abbrev pub IsBusy : Semaphore → Type 0
IsBusy s = (s.waiters ≡ []) ⊎ (s.max_permits ≤ s.in_flight)

call-starts :
    (id : ℕ) (w : World)
    → IsBusy w.sem
    → starts (call id) w ++ (step (call id) w).sem.waiters ≡ w.sem.waiters ++ (id ∷ [])
unfolding step
call-starts id w b = ground arith

settle-starts :
    (id : ℕ) (w : World) → starts (settle id) w ++ (step (settle id) w).sem.waiters ≡ w.sem.waiters
unfolding step
settle-starts id w = ground arith

step-IsBusy : (e : Event) (w : World) → IsBusy w.sem → IsBusy (step e w).sem
unfolding step
step-IsBusy e w b = ground arith

-- While no timer fires, the calls that have been let run, followed by those that still wait, are
-- the calls in the order in which they were made (after those that waited at the start).
pub all_starts-waiters :
    (es : List Event) (w : World)
    → IsPatient es
    → IsBusy w.sem
    → all_starts es w ++ (run es w).sem.waiters ≡ w.sem.waiters ++ calls es
unfolding run
all_starts-waiters [] w p b = rw append-nil
all_starts-waiters (call id ∷ es) w p b =
    rw (append_assoc, all_starts-waiters es (step (call id) w) p (step-IsBusy (call id) w b))
      (sym (append_assoc (starts (call id) w) (step (call id) w).sem.waiters (calls es))
        ∙ ap (λ l. l ++ calls es) (call-starts id w b)
        ∙ append_assoc w.sem.waiters (id ∷ []) (calls es))
all_starts-waiters (settle id ∷ es) w p b =
    rw (append_assoc, all_starts-waiters es (step (settle id) w) p (step-IsBusy (settle id) w b))
      (sym (append_assoc (starts (settle id) w) (step (settle id) w).sem.waiters (calls es))
        ∙ ap (λ l. l ++ calls es) (settle-starts id w))
all_starts-waiters (expire id ∷ es) w p b = absurd p
