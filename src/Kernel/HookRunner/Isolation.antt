-- ===== src/Kernel/HookRunner/Isolation.antt =====
-- That the kill-switch of backend/src/common/hook-runner.service.ts works like an uninstallation.
use shop_verse.Base.{
  ℕ, ◌+◌, ◌≡◌, refl, true, false, not, List, [], ◌∷◌, ◌++◌, filter_where, ◌==◌, if◌then◌else◌,
  arith, inl, inr, Bool-cases,
}
use shop_verse.Kernel.HookRunner.{
  RegisteredHook, HookOutcome, HookRunResult, HookRunner, HookName, of_plugin, is_disabled, race,
  run_handlers, run_sync, disable_plugin, unregister_plugin, hook_budgets_ms, hook_code, noted,
}
use shop_verse.Kernel.HookRunner.Runs.{run_sync-lem}

abbrev pub others : ℕ → List RegisteredHook → List RegisteredHook
others p = filter_where (λ r. not (of_plugin p r))

abbrev pub outcomes_of_others : ℕ → List HookOutcome → List HookOutcome
outcomes_of_others p = filter_where (λ o. not (p == o.plugin_id))

-- Two answers that differ only in what they report on plugin `p`.
abbrev pub IsSameFor : ℕ → HookRunResult → HookRunResult → Type 0
IsSameFor p a b =
    (a.reject_reason ≡ b.reject_reason)
    × (a.ended_at ≡ b.ended_at)
    × (outcomes_of_others p a.outcomes ≡ outcomes_of_others p b.outcomes)

noted-IsSameFor :
    (p : ℕ) (o : HookOutcome) (a b : HookRunResult)
    → IsSameFor p a b
    → IsSameFor p (noted o a) (noted o b)
noted-IsSameFor p o a b h = ground arith

module _ (p : ℕ) (d₁ d₂ : List ℕ) (budget context : ℕ) where
  abbrev on : ℕ → List RegisteredHook → HookRunResult × List RegisteredHook
  on now regs = run_handlers d₁ budget context now regs

  abbrev off : ℕ → List RegisteredHook → HookRunResult × List RegisteredHook
  off now regs = run_handlers d₂ budget context now (others p regs)

  abbrev Agree : ℕ → List RegisteredHook → Type 0
  Agree now regs =
      IsSameFor p (on now regs).0 (off now regs).0 × (others p (on now regs).1 ≡ (off now regs).1)

  agree_own :
      (now : ℕ) (reg : RegisteredHook) (regs : List RegisteredHook)
      → of_plugin p reg ≡ true
      → is_disabled d₁ reg.plugin_id ≡ true
      → Agree now regs
      → Agree now (reg ∷ regs)
  unfolding run_handlers
  agree_own now reg regs own off_ ih = ground arith

  agree_other :
      (now : ℕ) (reg : RegisteredHook) (regs : List RegisteredHook)
      → of_plugin p reg ≡ false
      → is_disabled d₁ reg.plugin_id ≡ is_disabled d₂ reg.plugin_id
      → ((t : ℕ) → Agree t regs)
      → Agree now (reg ∷ regs)
  unfolding run_handlers
  agree_other now reg regs other same ih =
      let took = (race budget (reg.handler context now)).1 in
      ground (arith, ih now, ih (now + took))

  agree :
      is_disabled d₁ p ≡ true
      → ((q : ℕ) → (p == q) ≡ false → is_disabled d₁ q ≡ is_disabled d₂ q)
      → (now : ℕ) (regs : List RegisteredHook) → Agree now regs
  unfolding run_handlers
  agree gone same now [] = ((refl, refl, refl), refl)
  agree gone same now (reg ∷ regs) = elim (Bool-cases (of_plugin p reg)) [
    | inl own ↦ agree_own now reg regs own (ground (arith, gone, own)) (agree gone same now regs)
    | inr other ↦
        agree_other now reg regs other (same reg.plugin_id other) (λ t. agree gone same t regs)
  ]

any-append :
    (q p : ℕ) (ds : List ℕ)
    → is_disabled (ds ++ (p ∷ [])) q ≡ (if is_disabled ds q then true else q == p)
any-append q p [] = ground arith
any-append q p (d ∷ ds) = ground (arith, any-append q p ds)

is_disabled-disable :
    (p : ℕ) (h : HookRunner) → is_disabled (disable_plugin p h).disabled_plugins p ≡ true
unfolding disable_plugin
is_disabled-disable p h = ground (arith, any-append p p h.disabled_plugins)

is_disabled-other :
    (p q : ℕ) (h : HookRunner)
    → (p == q) ≡ false
    → is_disabled (disable_plugin p h).disabled_plugins q ≡ is_disabled h.disabled_plugins q
unfolding disable_plugin
is_disabled-other p q h ne = ground (arith, any-append q p h.disabled_plugins)

registry-same :
    (name other : HookName) (h : HookRunner)
    → (hook_code name == hook_code other) ≡ true
    → h.registry name ≡ h.registry other
registry-same name other h e = ground arith

run_sync-registry :
    (name other : HookName) (context now : ℕ) (h : HookRunner)
    → (run_sync name context now h).1.registry other ≡ (
        if hook_code name == hook_code other
        then (run_handlers h.disabled_plugins
            (hook_budgets_ms name)
            context
            now
            (h.registry name)).1
        else h.registry other)
unfolding run_sync run_handlers
run_sync-registry name other context now h = ground (arith, registry-same name other h)

disable_plugin-registry :
    (p : ℕ) (name : HookName) (h : HookRunner)
    → (disable_plugin p h).registry name ≡ h.registry name
unfolding disable_plugin
disable_plugin-registry p name h = ground arith

-- To disable a plugin is, for all others, to uninstall it. Whatever its handlers and breakers, a
-- run of any hook after `disablePlugin` gives the same rejection at the same time, reports the same
-- on the other plugins, and leaves the same registrations of theirs, with the same breakers, as
-- after `unregisterPlugin`.
pub run_sync-disabled :
    (p : ℕ) (name : HookName) (context now : ℕ) (h : HookRunner)
    → IsSameFor p
        (run_sync name context now (disable_plugin p h)).0
        (run_sync name context now (unregister_plugin p h)).0
      × ((other : HookName)
          → others p ((run_sync name context now (disable_plugin p h)).1.registry other)
            ≡ (run_sync name context now (unregister_plugin p h)).1.registry other)
unfolding unregister_plugin
run_sync-disabled p name context now h =
    let on_ = disable_plugin p h in
    let off_ = unregister_plugin p h in
    let agreed =
      agree p on_.disabled_plugins h.disabled_plugins (hook_budgets_ms name) context
        (is_disabled-disable p h) (λ q. is_disabled-other p q h) now (h.registry name) in
    (
      rw (run_sync-lem name context now on_) (
          rw (run_sync-lem name context now off_) (rw (disable_plugin-registry p name h) agreed.0)),
      λ other. elim (Bool-cases (hook_code name == hook_code other)) [
        | inl same ↦ ground (
          arith,
          agreed.1,
          run_sync-registry name other context now on_,
          run_sync-registry name other context now off_,
          disable_plugin-registry p name h,
        )
        | inr else_ ↦ ground (
          arith,
          run_sync-registry name other context now on_,
          run_sync-registry name other context now off_,
          disable_plugin-registry p other h,
        )
      ],
    )
