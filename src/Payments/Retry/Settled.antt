-- ===== src/Payments/Retry/Settled.antt =====
-- After ten runs of the cron of backend/src/payments/refund-retry.service.ts no refund waits.
use shop_verse.Base.{
  ℕ, zero, suc, ◌+◌, ◌≤◌, ◌<◌, ◌*◌, ◌≡◌, ◌⊎◌, refl, true, false, List, [], ◌∷◌, any, All, length,
  order_by, filter_where, arith, inl, inr, subst, sym, Bool-cases, All-weaken, All-zip,
  All-filter_where, any-filter_where, length-filter_where, take-short, any-order_by,
  length-order_by, All-order_by, length-update_where,
}
use shop_verse.Orders.Tables.{Shop, RefundRequest}
use shop_verse.Payments.Refunds.{has_reference}
use shop_verse.Payments.Retry.{
  Clock, RefundGateway, is_stuck, stuck, retry_one, retry_each, is_exhausted, is_open_row, fail_row,
  mark_one, mark_each, mark_permanent_failures, run_once, max_refund_retries, retry_after_ms,
  retry_batch_size,
}
use shop_verse.Payments.Retry.Budget.{
  is_waiting, Progress, Attempted, retry_one_lem, retry_each_lem,
}
use shop_verse.Payments.Retry.Marks.{
  IsRetried, mark_one_rows, has_reference_self, mark_permanent_failures_lem,
}

List-cases :
    (xs : List RefundRequest)
    → (xs ≡ []) ⊎ ((y : RefundRequest) × (ys : List RefundRequest) × (xs ≡ y ∷ ys))
List-cases [] = inl refl
List-cases (y ∷ ys) = inr (y, ys, refl)

-- The sizes of the table and of the batch.
length-retry_each :
    (clock : Clock) (gateway : RefundGateway) (todo : List RefundRequest) (s : Shop)
    → length (retry_each clock gateway todo s).refunds ≡ length s.refunds
unfolding retry_each
length-retry_each clock gateway [] s = refl
length-retry_each clock gateway (r ∷ todo) s =
    let (f, a, e) = retry_one_lem (clock r) gateway r s in
    ground (
      arith,
      length-retry_each clock gateway todo (retry_one (clock r) gateway r s),
      e,
      length-update_where (has_reference r.reference) f s.refunds,
    )

length-mark_each :
    (clock : Clock) (todo : List RefundRequest) (s : Shop)
    → length (mark_each clock todo s).refunds ≡ length s.refunds
unfolding mark_each
length-mark_each clock [] s = refl
length-mark_each clock (r ∷ todo) s = ground (
  arith,
  length-mark_each clock todo (mark_one (clock r) r s),
  mark_one_rows (clock r) r s,
  length-update_where (is_open_row r.reference) (fail_row (clock r)) s.refunds,
)

-- Before a run a waiting row has an attempt left; it has had more than `n`, the last by `end`, or
-- `n`, the last by `before`.
abbrev IsQueued : (before end n : ℕ) → RefundRequest → Type 0
IsQueued before end n r =
    is_waiting r ≡ true
    → (r.retry_count < max_refund_retries)
      × (((n + 1 ≤ r.retry_count) × (r.updated_at ≤ end))
          ⊎ ((n ≤ r.retry_count) × (r.updated_at ≤ before)))

module _ (now before last end n : ℕ) (s : Shop) (small : length s.refunds ≤ retry_batch_size)
    (later : last ≤ end) (waits : All (IsQueued before last n) s.refunds) where
  abbrev selected : List RefundRequest
  selected = filter_where (is_stuck now) s.refunds

  -- The batch holds every stuck row.
  stuck_lem : stuck now s ≡ order_by (λ r. r.updated_at) selected
  stuck_lem = take-short retry_batch_size (order_by (λ r. r.updated_at) selected) (
      ground (
        arith,
        length-order_by (λ r. r.updated_at) selected,
        length-filter_where (is_stuck now) s.refunds,
      ))

  queued-Progress :
      (r : RefundRequest)
      → IsQueued before last n r
      → is_waiting r ≡ true
      → is_stuck now r ≡ false
      → Progress now before end n r
  queued-Progress r h w f = let (left, tried) = h w in ground (arith, later)

  todo_lem : All (Attempted now before end n (stuck now s)) s.refunds
  todo_lem =
      let every =
        any-filter_where (is_stuck now) (λ r. has_reference r.reference) s.refunds
          has_reference_self in
      All-zip (IsQueued before last n)
        (λ r. is_stuck now r ≡ true → any (has_reference r.reference) selected ≡ true)
        (Attempted now before end n (stuck now s)) s.refunds
        (λ r h found w. elim (Bool-cases (is_stuck now r)) [
          | inr fresh ↦ inl (queued-Progress r h w fresh)
          | inl due ↦ inr (
              ground (
                arith,
                found due,
                stuck_lem,
                any-order_by (λ q. q.updated_at) (has_reference r.reference) selected,
              ))
        ])
        waits every

  used_before : All (λ q. n ≤ q.retry_count) (stuck now s)
  used_before =
      let kept : All (λ q. n ≤ q.retry_count) selected =
        All-filter_where (λ q. n ≤ q.retry_count) (is_stuck now) s.refunds
          (All-weaken (IsQueued before last n) (λ q. is_stuck now q ≡ true → n ≤ q.retry_count)
            s.refunds (λ q h w. let (left, tried) = h (ground arith) in omega (arith, tried))
            waits) in
      subst (All (λ q. n ≤ q.retry_count)) (sym stuck_lem)
        (All-order_by (λ q. q.updated_at) (λ q. n ≤ q.retry_count) selected kept)

  -- A run uses up an attempt of every waiting row that is due.
  pub run_once_lem :
      (clock : Clock) (gateway : RefundGateway)
      → ((r : RefundRequest) → clock r ≤ end)
      → All (IsRetried now before end n) (run_once now clock gateway s).refunds
  unfolding run_once
  run_once_lem clock gateway early = elim (List-cases (stuck now s)) [
    | inl empty ↦
        let none_waits : All (IsRetried now before end n) s.refunds =
          All-zip (IsQueued before last n) (Attempted now before end n (stuck now s))
            (IsRetried now before end n) s.refunds
            (λ r h a w. elim (a w) [
              | inl tried ↦ ((h w).0, tried)
              | inr listed ↦ ground (arith, empty)
            ])
            waits todo_lem in
        let same : s ≡ run_once now clock gateway s = ground (arith, empty) in
        subst (λ (x : Shop). All (IsRetried now before end n) x.refunds) same none_waits
    | inr (r, rs, some_rows) ↦ ground (
      arith,
      mark_permanent_failures_lem now before end n clock (retry_each clock gateway (stuck now s) s)
          (retry_each_lem now before end n clock gateway (stuck now s) s early used_before
            todo_lem),
    )
  ]

length-run_once :
    (now : ℕ) (clock : Clock) (gateway : RefundGateway) (s : Shop)
    → length (run_once now clock gateway s).refunds ≡ length s.refunds
unfolding run_once mark_permanent_failures
length-run_once now clock gateway s = elim (List-cases (stuck now s)) [
  | inl empty ↦ ground arith
  | inr (r, rs, some_rows) ↦
      let after : Shop = retry_each clock gateway (stuck now s) s in
      ground (
        arith,
        length-mark_each clock (filter_where is_exhausted after.refunds) after,
        length-retry_each clock gateway (stuck now s) s,
      )
]

-- A waiting row has used at least `n` attempts, has one left, and was written by `t`.
abbrev pub IsWaitingBy : (t n : ℕ) → RefundRequest → Type 0
IsWaitingBy t n r =
    is_waiting r ≡ true
    → (n ≤ r.retry_count) × (r.retry_count < max_refund_retries) × (r.updated_at ≤ t)

-- One run of the cron: when it reads the stuck rows, when its last write is done, and the times and
-- the answers of Stripe in between.
pub record Run : Type 0 where
  pub started : ℕ
  pub ended : ℕ
  pub clock : Clock
  pub gateway : RefundGateway

abbrev pub run_all : List Run → Shop → Shop
run_all [] s = s
run_all (r ∷ rs) s = run_all rs (run_once r.started r.clock r.gateway s)

-- Each run starts after the last write of the run before it, and an hour or more after the last
-- write of the run before that, as hourly runs of some minutes do. A run an hour after the start of
-- the one before finds the rows that one wrote not yet due.
abbrev pub IsHourly : (before last : ℕ) → List Run → Type 0
IsHourly before last [] = Unit
IsHourly before last (r ∷ rs) =
    (before + retry_after_ms ≤ r.started)
    × (last ≤ r.started)
    × (r.started ≤ r.ended)
    × ((q : RefundRequest) → r.clock q ≤ r.ended)
    × IsHourly last r.ended rs

-- Two runs use up an attempt of every row that waits.
two_runs :
    (t n : ℕ) (a b : Run) (s : Shop)
    → length s.refunds ≤ retry_batch_size
    → t ≤ a.ended
    → ((q : RefundRequest) → a.clock q ≤ a.ended)
    → t + retry_after_ms ≤ b.started
    → a.ended ≤ b.ended
    → ((q : RefundRequest) → b.clock q ≤ b.ended)
    → All (IsWaitingBy t n) s.refunds
    → All (IsWaitingBy b.ended (n + 1)) (run_all (a ∷ b ∷ []) s).refunds
two_runs t n a b s small ta ca tb ab cb waits =
    let s1 : Shop = run_once a.started a.clock a.gateway s in
    let s2 : Shop = run_once b.started b.clock b.gateway s1 in
    let queued =
      All-weaken (IsWaitingBy t n) (IsQueued t t n) s.refunds
        (λ r h w. let (used, left, dated) = h w in (left, inr (used, dated))) waits in
    let first = run_once_lem a.started t t a.ended n s small ta queued a.clock a.gateway ca in
    let again =
      All-weaken (IsRetried a.started t a.ended n) (IsQueued t a.ended n) s1.refunds
        (λ r h w. let (left, tried) = h w in (left, omega (arith, tried))) first in
    let small1 : length s1.refunds ≤ retry_batch_size =
      omega (arith, small, length-run_once a.started a.clock a.gateway s) in
    let second =
      run_once_lem b.started t a.ended b.ended n s1 small1 ab again b.clock b.gateway cb in
    All-weaken (IsRetried b.started t b.ended n) (IsWaitingBy b.ended (n + 1)) s2.refunds
      (λ r h w.
        let (left, tried) = h w in (omega (arith, tried, tb), left, omega (arith, tried, tb)))
      second

length-run_two : (a b : Run) (s : Shop) → length (run_all (a ∷ b ∷ []) s).refunds ≡ length s.refunds
length-run_two a b s = omega (
  arith,
  length-run_once a.started a.clock a.gateway s,
  length-run_once b.started b.clock b.gateway (run_once a.started a.clock a.gateway s),
)

run_all-IsWaitingBy :
    (k before t n : ℕ) (runs : List Run) (s : Shop)
    → length runs ≡ 2 * k
    → IsHourly before t runs
    → length s.refunds ≤ retry_batch_size
    → All (IsWaitingBy t n) s.refunds
    → (u : ℕ) × All (IsWaitingBy u (k + n)) (run_all runs s).refunds
run_all-IsWaitingBy zero before t n [] s len timed small waits =
    (t, subst (λ m. All (IsWaitingBy t m) s.refunds) (omega arith) waits)
run_all-IsWaitingBy zero before t n (a ∷ runs) s len timed small waits = absurd (omega arith)
run_all-IsWaitingBy (suc k) before t n [] s len timed small waits = absurd (omega arith)
run_all-IsWaitingBy (suc k) before t n (a ∷ []) s len timed small waits = absurd (omega arith)
run_all-IsWaitingBy (suc k) before t n (a ∷ b ∷ runs) s len timed small waits =
    let (early, ta, sa, ca, (tb, ab, sb, cb, rest)) = timed in
    let s2 : Shop = run_all (a ∷ b ∷ []) s in
    let ends : t ≤ a.ended = omega arith in
    let order : a.ended ≤ b.ended = omega arith in
    let step = two_runs t n a b s small ends ca tb order cb waits in
    let small2 : length s2.refunds ≤ retry_batch_size =
      omega (arith, small, length-run_two a b s) in
    let fewer : length runs ≡ 2 * k = omega arith in
    let (u, all_used) =
      run_all-IsWaitingBy k a.ended b.ended (n + 1) runs s2 fewer rest small2 step in
    let same : k + (n + 1) ≡ suc k + n = omega arith in
    (u, subst (λ m. All (IsWaitingBy u m) (run_all runs s2).refunds) same all_used)

-- Of at most 50 refund requests, of which those that wait for Stripe (PROCESSING, to the original
-- payment) have attempts left and were written by `t`, none waits after ten runs of the cron,
-- whatever Stripe answers in each, if nothing else changes the requests in between. Each run starts
-- after the last write of the one before (the first after `t`) and an hour or more after the last
-- write of the one before that (the second an hour or more after `t`). A write of a run is dated
-- when it is made, at any time until the run has ended.
pub no_refund_waits :
    (t : ℕ) (runs : List Run) (s : Shop)
    → length runs ≡ 2 * max_refund_retries
    → IsHourly 0 t runs
    → length s.refunds ≤ retry_batch_size
    → All (IsWaitingBy t 0) s.refunds
    → All (λ r. is_waiting r ≡ false) (run_all runs s).refunds
no_refund_waits t runs s ten timed small waits =
    let (u, all_used) = run_all-IsWaitingBy max_refund_retries 0 t 0 runs s ten timed small waits in
    All-weaken (IsWaitingBy u max_refund_retries) (λ r. is_waiting r ≡ false)
      (run_all runs s).refunds
      (λ r h. elim (Bool-cases (is_waiting r)) [
        | inr done ↦ done
        | inl w ↦ let (used, left, dated) = h w in ground arith
      ])
      all_used

-- A run that finds no stuck row changes nothing: a PROCESSING row without attempts left stays so.
pub run_once-idle :
    (now : ℕ) (clock : Clock) (gateway : RefundGateway) (s : Shop)
    → stuck now s ≡ []
    → run_once now clock gateway s ≡ s
unfolding run_once
run_once-idle now clock gateway s h = ground arith
