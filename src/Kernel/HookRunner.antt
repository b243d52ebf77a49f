-- ===== src/Kernel/HookRunner.antt =====
-- backend/src/common/hook-runner.service.ts. A hook without handlers has an empty list. A handler
-- is code of a plugin: a function of the context and the time of its call, which says when it
-- settles and how, or that it never does. It is taken to settle without blocking the event loop,
-- and no other call is taken to come between the handlers of one run. Metrics, logs and error texts
-- are left out.
pub mod Runs
pub mod Isolation
mod Tests
use shop_verse.Base.{
  ℕ, ◌+◌, Bool, true, false, not, Option, none, some, List, [], ◌∷◌, ◌++◌, any, length,
  filter_where, replace_first, leb, ltb, ◌==◌, if◌then◌else◌,
}
use shop_verse.Kernel.CircuitBreaker.{
  CircuitBreaker, CircuitBreakerState, closed, half_open, open_, default_breaker_config, new,
  refresh, try_acquire, record_success, record_failure,
}

pub data HookName : Type 0 where
  order_pre_validate order_after_place cart_before_reserve payment_after_capture
        user_before_delete :
      HookName

-- HOOK_BUDGETS_MS.
abbrev pub hook_budgets_ms : HookName → ℕ
hook_budgets_ms order_pre_validate = 100
hook_budgets_ms order_after_place = 50
hook_budgets_ms cart_before_reserve = 100
hook_budgets_ms payment_after_capture = 50
hook_budgets_ms user_before_delete = 5_000

abbrev pub hook_code : HookName → ℕ
hook_code order_pre_validate = 0
hook_code order_after_place = 1
hook_code cart_before_reserve = 2
hook_code payment_after_capture = 3
hook_code user_before_delete = 4

-- What the promise of a handler settles to: nothing, a reason to reject, or an error.
pub data Reply : Type 0 where
  returns throws : Reply
  rejects : (reason : ℕ) → Reply

pub record Settlement : Type 0 where
  pub after_ms : ℕ
  pub reply : Reply

pub record RegisteredHook : Type 0 where
  pub plugin_id : ℕ
  pub handler : (context now : ℕ) → Option Settlement
  pub breaker : CircuitBreaker

pub data HookStatus : Type 0 where
  passed rejected failed timeout breaker_open : HookStatus

pub record HookOutcome : Type 0 where
  pub plugin_id : ℕ
  pub status : HookStatus
  pub duration_ms : ℕ

-- The source's `rejected` is whether there is a reason; `ended_at` is when the run comes back.
pub record HookRunResult : Type 0 where
  pub reject_reason : Option ℕ
  pub outcomes : List HookOutcome
  pub ended_at : ℕ

pub record HookRunner : Type 0 where
  pub registry : HookName → List RegisteredHook
  pub disabled_plugins : List ℕ

abbrev pub of_plugin : ℕ → RegisteredHook → Bool
of_plugin p r = p == r.plugin_id

-- `registry.set`.
abbrev pub set_hooks : HookName → List RegisteredHook → HookRunner → HookRunner
set_hooks name rs h = record h {
  registry = λ other. if hook_code name == hook_code other then rs else h.registry other;
}

-- The plugin's handler is replaced in its place, with a new breaker, or comes last.
abbrev pub put : RegisteredHook → List RegisteredHook → List RegisteredHook
put reg rs =
    if any (of_plugin reg.plugin_id) rs
    then replace_first (of_plugin reg.plugin_id) reg rs
    else rs ++ (reg ∷ [])

unfoldable pub register :
    HookName
    → (plugin : ℕ) → (handler : (context now : ℕ) → Option Settlement) → HookRunner
    → HookRunner
register name plugin handler h =
    set_hooks name
      (put (record { plugin_id = plugin; handler = handler; breaker = new }) (h.registry name)) h

unfoldable pub unregister_plugin : (plugin : ℕ) → HookRunner → HookRunner
unregister_plugin plugin h = record h {
  registry = λ name. filter_where (λ r. not (of_plugin plugin r)) (h.registry name);
}

unfoldable pub disable_plugin : (plugin : ℕ) → HookRunner → HookRunner
disable_plugin plugin h =
    if any (λ p. plugin == p) h.disabled_plugins
    then h
    else record h { disabled_plugins = h.disabled_plugins ++ (plugin ∷ []) }

unfoldable pub enable_plugin : (plugin : ℕ) → HookRunner → HookRunner
enable_plugin plugin h = record h {
  disabled_plugins = filter_where (λ p. not (plugin == p)) h.disabled_plugins;
}

abbrev pub is_disabled : List ℕ → ℕ → Bool
is_disabled disabled plugin = any (λ p. plugin == p) disabled

abbrev pub is_plugin_disabled : (plugin : ℕ) → HookRunner → Bool
is_plugin_disabled plugin h = is_disabled h.disabled_plugins plugin

abbrev pub handler_count : HookName → HookRunner → ℕ
handler_count name h = length (h.registry name)

abbrev pub alarm : CircuitBreakerState → ℕ
alarm closed = 0
alarm half_open = 1
alarm open_ = 2

abbrev pub worse : Option CircuitBreakerState → CircuitBreakerState → Option CircuitBreakerState
worse none s = some s
worse (some w) s = if ltb (alarm w) (alarm s) then some s else some w

-- The inner loop of `breakerStateFor`. To read a state can move the breaker to half-open.
unfoldable pub worst_state :
    (plugin now : ℕ) → List RegisteredHook → Option CircuitBreakerState → Option CircuitBreakerState
worst_state plugin now [] worst = worst
worst_state plugin now (r ∷ rs) worst =
    if of_plugin plugin r
    then worst_state plugin now rs
        (worse worst (refresh default_breaker_config now r.breaker).state)
    else worst_state plugin now rs worst

abbrev hook_names : List HookName
hook_names =
    order_pre_validate ∷ order_after_place ∷ cart_before_reserve ∷ payment_after_capture
    ∷ user_before_delete ∷ []

abbrev worst_of_hooks :
    (plugin now : ℕ)
    → HookRunner
    → List HookName
    → Option CircuitBreakerState
    → Option CircuitBreakerState
worst_of_hooks plugin now h [] worst = worst
worst_of_hooks plugin now h (name ∷ names) worst =
    worst_of_hooks plugin now h names (worst_state plugin now (h.registry name) worst)

abbrev pub breaker_state_for : (plugin now : ℕ) → HookRunner → Option CircuitBreakerState
breaker_state_for plugin now h = worst_of_hooks plugin now h hook_names none

-- The race of a handler against its budget.
pub data Raced : Type 0 where
  timed_out : Raced
  replied : Reply → Raced

abbrev pub race : (budget : ℕ) → Option Settlement → Raced × ℕ
race budget none = (timed_out, budget)
race budget (some s) =
    if leb s.after_ms budget then (replied s.reply, s.after_ms) else (timed_out, budget)

abbrev pub status_of : Raced → HookStatus
status_of timed_out = timeout
status_of (replied returns) = passed
status_of (replied throws) = failed
status_of (replied (rejects reason)) = rejected

abbrev pub reason_of : Raced → Option ℕ
reason_of (replied (rejects reason)) = some reason
reason_of _ = none

-- A rejection is no failure of the plugin.
abbrev pub report : (now : ℕ) → Raced → CircuitBreaker → CircuitBreaker
report now timed_out b = record_failure default_breaker_config now b
report now (replied returns) b = record_success b
report now (replied throws) b = record_failure default_breaker_config now b
report now (replied (rejects reason)) b = record_success b

abbrev pub skipped : (plugin : ℕ) → HookOutcome
skipped plugin = record { plugin_id = plugin; status = breaker_open; duration_ms = 0 }

abbrev pub noted : HookOutcome → HookRunResult → HookRunResult
noted o r = record r { outcomes = o ∷ r.outcomes }

-- The loop of `runSync` over the handlers, which come back with their breakers. The first
-- rejection ends it.
unfoldable pub run_handlers :
    (disabled : List ℕ)
    → (budget context now : ℕ) → List RegisteredHook
    → HookRunResult × List RegisteredHook
run_handlers disabled budget context now [] =
    (record { reject_reason = none; outcomes = []; ended_at = now }, [])
run_handlers disabled budget context now (reg ∷ regs) =
    let (admitted, b) = try_acquire default_breaker_config now reg.breaker in
    let (raced, took) = race budget (reg.handler context now) in
    let (passing, passed_regs) = run_handlers disabled budget context now regs in
    let (going, gone) = run_handlers disabled budget context (now + took) regs in
    let o : HookOutcome = record {
      plugin_id = reg.plugin_id;
      status = status_of raced;
      duration_ms = took;
    } in
    let reg' = record reg { breaker = report (now + took) raced b } in
    if is_disabled disabled reg.plugin_id
    then (noted (skipped reg.plugin_id) passing, reg ∷ passed_regs)
    else if not admitted
    then (noted (skipped reg.plugin_id) passing, record reg { breaker = b } ∷ passed_regs)
    else elim (reason_of raced) [
      | some reason ↦ (
        record { reject_reason = some reason; outcomes = o ∷ []; ended_at = now + took },
        reg' ∷ regs,
      )
      | none ↦ (noted o going, reg' ∷ gone)
    ]

-- A hook without handlers comes back at once.
unfoldable pub run_sync : HookName → (context now : ℕ) → HookRunner → HookRunResult × HookRunner
run_sync name context now h = elim (h.registry name) [
  | [] ↦ (record { reject_reason = none; outcomes = []; ended_at = now }, h)
  | r ∷ rs ↦
      let (result, regs) =
        run_handlers h.disabled_plugins (hook_budgets_ms name) context now (r ∷ rs) in
      (result, set_hooks name regs h)
]
