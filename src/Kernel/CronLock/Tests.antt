-- ===== src/Kernel/CronLock/Tests.antt =====
-- Two instances and one cron.
use shop_verse.Base.{◌≡◌, refl, true, false, [], ◌∷◌, arith}
use shop_verse.Kernel.CronLock.{Locks, new_lock, acquire, release}
use shop_verse.Kernel.CronLock.Exclusion.{acquiring, releasing, lock_steps, one_holder}

abbrev held : Locks
held = new_lock 1 100 7 50 ∷ []

taken : acquire 1 100 7 50 [] ≡ (true, held)
unfolding acquire
taken = refl

one_holder_example :
    let after = lock_steps (acquiring 2 120 7 50 ∷ releasing 2 7 ∷ []) held in
    acquire 2 150 7 50 after ≡ (false, after)
one_holder_example =
    (one_holder 1 100 7 50 2 150 50 (acquiring 2 120 7 50 ∷ releasing 2 7 ∷ []) [] held taken
        (omega arith, (refl, tt))).0
      (omega arith)

-- Two runs in one process have one holder's name: the release of the first, which ran too long,
-- ends the lock of the second.
overrun : lock_steps (acquiring 1 200 7 50 ∷ releasing 1 7 ∷ []) held ≡ []
unfolding acquire release
overrun = refl
