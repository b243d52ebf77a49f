-- ===== src/Kernel/HookRunner/Runs.antt =====
-- What a run of a hook in backend/src/common/hook-runner.service.ts comes to.
use shop_verse.Base.{
  ℕ, ◌+◌, ◌*◌, ◌≤◌, ◌≡◌, ◌↔◌, ◌⊎◌, refl, true, false, Option, none, some, List, [], ◌∷◌, ◌++◌,
  length, arith, inl, inr, Bool-cases, Option-cases,
}
use shop_verse.Kernel.CircuitBreaker.{default_breaker_config, try_acquire}
use shop_verse.Kernel.HookRunner.{
  RegisteredHook, Settlement, is_disabled, race, reason_of, HookName, HookRunner, handler_count,
  hook_budgets_ms, run_sync, Raced, run_handlers,
}

race_within : (budget : ℕ) (s : Option Settlement) → (race budget s).1 ≤ budget
race_within budget none = ground arith
race_within budget (some s) = ground arith

module _ (disabled : List ℕ) (budget context : ℕ) where
  run_handlers-ended_at :
      (now : ℕ) (regs : List RegisteredHook)
      → (run_handlers disabled budget context now regs).0.ended_at ≤ now + length regs * budget
  unfolding run_handlers
  run_handlers-ended_at now [] = ground arith
  run_handlers-ended_at now (reg ∷ regs) =
      let took = (race budget (reg.handler context now)).1 in
      grind (
        arith,
        race_within budget (reg.handler context now),
        run_handlers-ended_at now regs,
        run_handlers-ended_at (now + took) regs,
      )

  -- The handler is called: its plugin is not disabled and its breaker admits.
  abbrev pub IsCalled : ℕ → RegisteredHook → Type 0
  IsCalled now reg =
      (is_disabled disabled reg.plugin_id ≡ false)
      × ((try_acquire default_breaker_config now reg.breaker).0 ≡ true)

  abbrev raced : ℕ → RegisteredHook → Raced × ℕ
  raced now reg = race budget (reg.handler context now)

  -- The handlers that a run passes from `now` to `t`: each is left out, or called without a
  -- rejection.
  abbrev pub Passes : ℕ → List RegisteredHook → ℕ → Type 0
  Passes now [] t = now ≡ t
  Passes now (reg ∷ regs) t =
      (¬ IsCalled now reg × Passes now regs t)
      ⊎ (IsCalled now reg
          × (reason_of (raced now reg).0 ≡ none)
          × Passes (now + (raced now reg).1) regs t)

  -- A handler of the list rejects at `t`, after those before it have passed.
  pub record IsFirstRejection (now : ℕ) (regs : List RegisteredHook) (reason : ℕ) : Type 0 where
    pub before : List RegisteredHook
    pub rest : List RegisteredHook
    pub reg : RegisteredHook
    pub t : ℕ
    pub split : regs ≡ before ++ (reg ∷ rest)
    pub passed : Passes now before t
    pub called : IsCalled t reg
    pub rejects : reason_of (raced t reg).0 ≡ some reason

  rejects_after :
      (before : List RegisteredHook) (now t reason : ℕ) (reg : RegisteredHook)
      (rest : List RegisteredHook)
      → Passes now before t
      → IsCalled t reg
      → reason_of (raced t reg).0 ≡ some reason
      → (run_handlers disabled budget context now (before ++ (reg ∷ rest))).0.reject_reason
        ≡ some reason
  unfolding run_handlers
  rejects_after [] now t reason reg rest p called r = ground arith
  rejects_after (b ∷ bs) now t reason reg rest p called r =
      let took = (raced now b).1 in
      ground (
        arith,
        rejects_after bs now t reason reg rest,
        rejects_after bs (now + took) t reason reg rest,
      )

  pass :
      (now reason : ℕ) (reg : RegisteredHook) (regs : List RegisteredHook)
      → ¬ IsCalled now reg
      → IsFirstRejection now regs reason
      → IsFirstRejection now (reg ∷ regs) reason
  pass now reason reg regs out f = record {
    before = reg ∷ f.before;
    rest = f.rest;
    reg = f.reg;
    t = f.t;
    split = rw f.split refl;
    passed = inl (out, f.passed);
    called = f.called;
    rejects = f.rejects;
  }

  pass_called :
      (now reason : ℕ) (reg : RegisteredHook) (regs : List RegisteredHook)
      → IsCalled now reg
      → reason_of (raced now reg).0 ≡ none
      → IsFirstRejection (now + (raced now reg).1) regs reason
      → IsFirstRejection now (reg ∷ regs) reason
  pass_called now reason reg regs in_ r f = record {
    before = reg ∷ f.before;
    rest = f.rest;
    reg = f.reg;
    t = f.t;
    split = rw f.split refl;
    passed = inr (in_, r, f.passed);
    called = f.called;
    rejects = f.rejects;
  }

  found :
      (now reason : ℕ) (regs : List RegisteredHook)
      → (run_handlers disabled budget context now regs).0.reject_reason ≡ some reason
      → IsFirstRejection now regs reason
  unfolding run_handlers
  found now reason [] e = ground arith
  found now reason (reg ∷ regs) e =
      let took = (raced now reg).1 in
      elim (Bool-cases (is_disabled disabled reg.plugin_id)) [
        | inl gone ↦
            pass now reason reg regs (λ c. ground (arith, gone, c))
              (found now reason regs (ground (arith, e, gone)))
        | inr here ↦ elim (Bool-cases (try_acquire default_breaker_config now reg.breaker).0) [
          | inr refused ↦
              pass now reason reg regs (λ c. ground (arith, refused, c))
                (found now reason regs (ground (arith, e, here, refused)))
          | inl admitted ↦ elim (Option-cases (reason_of (raced now reg).0)) [
            | inl none_ ↦
                pass_called now reason reg regs (here, admitted) none_
                  (found (now + took) reason regs (ground (arith, e, here, admitted, none_)))
            | inr (r, f) ↦ record {
              before = [];
              rest = regs;
              reg = reg;
              t = now;
              split = refl;
              passed = refl;
              called = (here, admitted);
              rejects = ground (arith, e, here, admitted, f);
            }
          ]
        ]
      ]

  run_handlers-rejects :
      (now reason : ℕ) (regs : List RegisteredHook)
      → ((run_handlers disabled budget context now regs).0.reject_reason ≡ some reason)
        ↔ IsFirstRejection now regs reason
  run_handlers-rejects now reason regs = (
    found now reason regs,
    λ f.
        rw f.split (rejects_after f.before now f.t reason f.reg f.rest f.passed f.called f.rejects),
  )

pub run_sync-lem :
    (name : HookName) (context now : ℕ) (h : HookRunner)
    → (run_sync name context now h).0
      ≡ (run_handlers h.disabled_plugins (hook_budgets_ms name) context now (h.registry name)).0
unfolding run_sync run_handlers
run_sync-lem name context now h = ground arith

-- A run of a hook rejects with a reason exactly if one of the hook's handlers does so within the
-- budget, where that handler is called and all those before it have passed: each of them is left
-- out (its plugin is disabled or its breaker refuses), or called without a rejection.
pub run_sync-rejects :
    (name : HookName) (context now reason : ℕ) (h : HookRunner)
    → ((run_sync name context now h).0.reject_reason ≡ some reason)
      ↔ IsFirstRejection h.disabled_plugins
          (hook_budgets_ms name)
          context
          now
          (h.registry name)
          reason
run_sync-rejects name context now reason h = rw (run_sync-lem name context now h) (
    run_handlers-rejects h.disabled_plugins (hook_budgets_ms name) context now reason
      (h.registry name))

-- Where no handler blocks the event loop, a run of a hook always comes back, no later than the
-- budget of the hook times the number of its handlers after its start, whatever the handlers do,
-- also if they never settle.
pub run_sync-ended_at :
    (name : HookName) (context now : ℕ) (h : HookRunner)
    → (run_sync name context now h).0.ended_at ≤ now + handler_count name h * hook_budgets_ms name
run_sync-ended_at name context now h =
    rw (run_sync-lem name context now h) (
      run_handlers-ended_at h.disabled_plugins (hook_budgets_ms name) context now (h.registry name))
