-- ===== src/Kernel/HookRunner/Tests.antt =====
-- The hook runner with three plugins.
use shop_verse.Base.{ℕ, ◌≡◌, ◌↔◌, ◌≤◌, refl, Option, none, some, []}
use shop_verse.Kernel.CircuitBreaker.{new, try_acquire, record_success, record_failure}
use shop_verse.Kernel.HookRunner.{
  Settlement, returns, rejects, HookRunner, HookName, order_pre_validate, order_after_place,
  run_sync, register, disable_plugin, unregister_plugin, run_handlers,
}
use shop_verse.Kernel.HookRunner.Runs.{IsFirstRejection, run_sync-rejects, run_sync-ended_at}
use shop_verse.Kernel.HookRunner.Isolation.{IsSameFor, others, run_sync-disabled}

abbrev silent : (context now : ℕ) → Option Settlement
silent context now = none

abbrev veto : (context now : ℕ) → Option Settlement
veto context now = some (record { after_ms = 10; reply = rejects context })

abbrev agrees : (context now : ℕ) → Option Settlement
agrees context now = some (record { after_ms = 5; reply = returns })

abbrev empty : HookRunner
empty = record { registry = λ name. []; disabled_plugins = [] }

abbrev three : HookName → HookRunner
three name = register name 3 veto (register name 2 agrees (register name 1 silent empty))

-- The first handler uses up its budget, the second passes, the third rejects.
rejects_last :
    (run_sync order_pre_validate 7 1000 (three order_pre_validate)).0.reject_reason ≡ some 7
unfolding run_sync run_handlers register new try_acquire record_success record_failure
rejects_last = refl

-- The two silent handlers of a hook of 50 ms keep a run for 100 ms.
budget_each :
    (run_sync order_after_place 7 1000
      (register order_after_place 2 silent (register order_after_place 1 silent empty))).0.ended_at
    ≡ 1100
unfolding run_sync run_handlers register new try_acquire record_success record_failure
budget_each = refl

run_sync-rejects_example :
    ((run_sync order_pre_validate 7 1000 (three order_pre_validate)).0.reject_reason ≡ some 7)
    ↔ IsFirstRejection [] 100 7 1000 ((three order_pre_validate).registry order_pre_validate) 7
unfolding register
run_sync-rejects_example = run_sync-rejects order_pre_validate 7 1000 7 (three order_pre_validate)

run_sync-ended_at_example :
    (run_sync order_after_place 7 1000 (three order_after_place)).0.ended_at ≤ 1150
unfolding register
run_sync-ended_at_example = run_sync-ended_at order_after_place 7 1000 (three order_after_place)

run_sync-disabled_example :
    IsSameFor 1
      (run_sync order_pre_validate 7 1000 (disable_plugin 1 (three order_pre_validate))).0
      (run_sync order_pre_validate 7 1000 (unregister_plugin 1 (three order_pre_validate))).0
    × ((other : HookName)
        → others 1 (
            (run_sync order_pre_validate 7 1000
                (disable_plugin 1 (three order_pre_validate))).1.registry
              other)
          ≡ (run_sync order_pre_validate 7 1000
                (unregister_plugin 1 (three order_pre_validate))).1.registry
              other)
run_sync-disabled_example = run_sync-disabled 1 order_pre_validate 7 1000 (three order_pre_validate)
