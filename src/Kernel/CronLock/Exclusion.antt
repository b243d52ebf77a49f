-- ===== src/Kernel/CronLock/Exclusion.antt =====
-- That a cron lock of backend/src/common/cron-lock.service.ts has one holder until it expires.
use shop_verse.Base.{
  ℕ, ◌+◌, ◌≤◌, ◌<◌, ◌≡◌, refl, true, false, ◌&&◌, some, List, [], ◌∷◌, find_first, replace_first,
  All, ◌==◌, arith, inl, inr, Bool-cases, Option-cases, find_first-replace_first_self,
}
use shop_verse.Kernel.CronLock.{CronLock, Locks, has_name, new_lock, acquire, release}

-- What instances do: one tries to take a lock, or lets it go.
pub data LockStep : Type 0 where
  acquiring : (holder now name ttl : ℕ) → LockStep
  releasing : (holder name : ℕ) → LockStep

abbrev pub lock_step : LockStep → Locks → Locks
lock_step (acquiring holder now name ttl) s = (acquire holder now name ttl s).1
lock_step (releasing holder name) s = release holder name s

abbrev pub lock_steps : List LockStep → Locks → Locks
lock_steps [] s = s
lock_steps (e ∷ es) s = lock_steps es (lock_step e s)

-- A step that is not the holder's release of the lock, and not later than its expiry.
abbrev pub IsForeign : (holder name expiry : ℕ) → LockStep → Type 0
IsForeign holder name expiry (acquiring h now n ttl) = now ≤ expiry
IsForeign holder name expiry (releasing h n) = (h == holder && n == name) ≡ false

acquire-holds :
    (holder now name ttl : ℕ) (s s' : Locks)
    → acquire holder now name ttl s ≡ (true, s')
    → find_first (has_name name) s' ≡ some (new_lock holder now name ttl)
unfolding acquire
acquire-holds holder now name ttl s s' e = elim (Option-cases (find_first (has_name name) s)) [
  | inl n ↦ ground arith
  | inr (l, f) ↦
      ground
        (arith, find_first-replace_first_self (has_name name) (new_lock holder now name ttl) s l f)
]

acquire-refused :
    (h now name ttl : ℕ) (l : CronLock) (s : Locks)
    → find_first (has_name name) s ≡ some l
    → now ≤ l.expires_at
    → acquire h now name ttl s ≡ (false, s)
unfolding acquire
acquire-refused h now name ttl l s f early = ground arith

find_first-replace_other :
    (a b : ℕ) (l : CronLock) (s : Locks)
    → (a == b) ≡ false
    → has_name b l ≡ true
    → find_first (has_name a) (replace_first (has_name b) l s) ≡ find_first (has_name a) s
find_first-replace_other a b l [] ne h = refl
find_first-replace_other a b l (x ∷ s) ne h = ground (arith, find_first-replace_other a b l s)

acquire-other :
    (h now name other ttl : ℕ) (s : Locks)
    → (name == other) ≡ false
    → find_first (has_name name) (acquire h now other ttl s).1 ≡ find_first (has_name name) s
unfolding acquire
acquire-other h now name other ttl s ne = elim (Option-cases (find_first (has_name other) s)) [
  | inl n ↦ ground arith
  | inr (l, f) ↦ ground (arith, find_first-replace_other name other (new_lock h now other ttl) s ne)
]

release-keeps :
    (h n name : ℕ) (l : CronLock) (s : Locks)
    → (h == l.holder && n == name) ≡ false
    → find_first (has_name name) s ≡ some l
    → find_first (has_name name) (release h n s) ≡ some l
unfolding release
release-keeps h n name l [] ne f = ground arith
release-keeps h n name l (x ∷ s) ne f = ground (arith, release-keeps h n name l s ne)

lock_step-keeps :
    (e : LockStep) (name : ℕ) (l : CronLock) (s : Locks)
    → IsForeign l.holder name l.expires_at e
    → find_first (has_name name) s ≡ some l
    → find_first (has_name name) (lock_step e s) ≡ some l
lock_step-keeps (releasing h n) name l s foreign f = release-keeps h n name l s foreign f
lock_step-keeps (acquiring h now n ttl) name l s early f = elim (Bool-cases (name == n)) [
  | inl same ↦
      let mine : find_first (has_name n) s ≡ some l = ground arith in
      ground (arith, acquire-refused h now n ttl l s mine early)
  | inr other ↦ ground (arith, acquire-other h now name n ttl s other)
]

lock_steps-keeps :
    (es : List LockStep) (name : ℕ) (l : CronLock) (s : Locks)
    → All (IsForeign l.holder name l.expires_at) es
    → find_first (has_name name) s ≡ some l
    → find_first (has_name name) (lock_steps es s) ≡ some l
lock_steps-keeps [] name l s h f = f
lock_steps-keeps (e ∷ es) name l s (h, hs) f =
    lock_steps-keeps es name l (lock_step e s) hs (lock_step-keeps e name l s h f)

acquire-expired :
    (h now name ttl : ℕ) (l : CronLock) (s : Locks)
    → find_first (has_name name) s ≡ some l
    → l.expires_at < now
    → (acquire h now name ttl s).0 ≡ true
unfolding acquire
acquire-expired h now name ttl l s f late = ground arith

-- Once a lock is taken, and through any steps that are not its holder's release and not later than
-- its expiry, every attempt to take it until the expiry is refused, the holder's own too. After the
-- expiry the next attempt takes it, so a holder that crashed blocks nobody for ever.
pub one_holder :
    (holder now name ttl other later ttl₂ : ℕ) (es : List LockStep) (s s' : Locks)
    → acquire holder now name ttl s ≡ (true, s')
    → All (IsForeign holder name (now + ttl)) es
    → (later ≤ now + ttl
        → acquire other later name ttl₂ (lock_steps es s') ≡ (false, lock_steps es s'))
      × (now + ttl < later → (acquire other later name ttl₂ (lock_steps es s')).0 ≡ true)
one_holder holder now name ttl other later ttl₂ es s s' e foreign =
    let l : CronLock = new_lock holder now name ttl in
    let held = lock_steps-keeps es name l s' foreign (acquire-holds holder now name ttl s s' e) in
    (
      λ early. acquire-refused other later name ttl₂ l (lock_steps es s') held early,
      λ late. acquire-expired other later name ttl₂ l (lock_steps es s') held late,
    )
