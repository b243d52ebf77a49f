-- ===== src/Kernel/CronLock.antt =====
-- backend/src/common/cron-lock.service.ts, on the table `CronLock`, whose key is the name.
pub mod Exclusion
mod Tests
use shop_verse.Base.{
  ℕ, ◌+◌, Bool, true, false, ◌&&◌, Option, none, some, List, [], ◌∷◌, find_first, replace_first,
  filter_where, not, ltb, ◌==◌, if◌then◌else◌, Result, ok, err, Action,
}

pub record CronLock : Type 0 where
  pub name : ℕ
  pub holder : ℕ
  pub acquired_at : ℕ
  pub expires_at : ℕ

abbrev pub Locks : Type 0
Locks = List CronLock

abbrev pub has_name : ℕ → CronLock → Bool
has_name name l = name == l.name

abbrev pub new_lock : (holder now name ttl : ℕ) → CronLock
new_lock holder now name ttl = record {
  name = name;
  holder = holder;
  acquired_at = now;
  expires_at = now + ttl;
}

-- The INSERT, and where the name is there the conditional UPDATE. The answer says who holds the
-- lock.
unfoldable pub acquire : (holder now name ttl : ℕ) → Locks → Bool × Locks
acquire holder now name ttl s = elim (find_first (has_name name) s) [
  | none ↦ (true, new_lock holder now name ttl ∷ s)
  | some l ↦
      if ltb l.expires_at now
      then (true, replace_first (has_name name) (new_lock holder now name ttl) s)
      else (false, s)
]

abbrev pub is_held_by : (holder name : ℕ) → CronLock → Bool
is_held_by holder name l = has_name name l && holder == l.holder

-- deleteMany where the name and the holder are those of the caller.
unfoldable pub release : (holder name : ℕ) → Locks → Locks
release holder name s = filter_where (λ l. not (is_held_by holder name l)) s

-- The job is an action on some state beside the locks; it runs only under the lock, and the lock is
-- released whether it succeeds or throws.
unfoldable pub run_exclusive :
    {S A : Type 0}
    → (holder now name ttl : ℕ) → Action S A
    → Locks × S
    → Option (Result A) × (Locks × S)
run_exclusive holder now name ttl job (locks, s) =
    let (got, held) = acquire holder now name ttl locks in
    let (answer, after) = job s in
    if got then (some answer, (release holder name held, after)) else (none, (held, s))
