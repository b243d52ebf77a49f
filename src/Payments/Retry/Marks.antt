-- ===== src/Payments/Retry/Marks.antt =====
-- The marking of refunds without attempts left in backend/src/payments/refund-retry.service.ts.
use shop_verse.Base.{
  ℕ, ◌<◌, ◌≡◌, ◌⊎◌, true, false, List, [], ◌∷◌, any, All, filter_where, update_where, ltb,
  if◌then◌else◌, arith, inl, inr, subst, sym, Bool-cases, All-weaken, All-update_where,
  any-filter_where, update_where-none,
}
use shop_verse.Orders.Tables.{Shop, RefundRequest}
use shop_verse.Payments.Refunds.{has_reference}
use shop_verse.Payments.Retry.{
  Clock, is_exhausted, is_open_row, fail_row, mark_one, mark_each, mark_permanent_failures,
  max_refund_retries,
}
use shop_verse.Payments.Retry.Budget.{is_waiting, Attempted, Progress, reference_sym}

-- After a run a waiting row has an attempt left, and has had one more or is not due.
abbrev pub IsRetried : (now before end n : ℕ) → RefundRequest → Type 0
IsRetried now before end n r =
    is_waiting r ≡ true → (r.retry_count < max_refund_retries) × Progress now before end n r

pub mark_one_rows :
    (at : ℕ) (read : RefundRequest) (s : Shop)
    → (mark_one at read s).refunds
      ≡ update_where (is_open_row read.reference) (fail_row at) s.refunds
unfolding mark_one
mark_one_rows at read s = elim (Bool-cases (any (is_open_row read.reference) s.refunds)) [
  | inl t ↦ ground arith
  | inr u ↦ ground (arith, update_where-none (is_open_row read.reference) (fail_row at) s.refunds u)
]

-- A waiting row without attempts left is still to be marked.
abbrev Unmarked : (now before end n : ℕ) → List RefundRequest → RefundRequest → Type 0
Unmarked now before end n todo r =
    is_waiting r ≡ true
    → Progress now before end n r
      × ((r.retry_count < max_refund_retries) ⊎ (any (has_reference r.reference) todo ≡ true))

pub has_reference_self : (r : RefundRequest) → has_reference r.reference r ≡ true
has_reference_self r = ground arith

abbrev Exhausted : List RefundRequest → RefundRequest → Type 0
Exhausted todo r = is_exhausted r ≡ true → any (has_reference r.reference) todo ≡ true

module _ (now before end n : ℕ) where
  mark_step :
      (at : ℕ) (read : RefundRequest) (todo : List RefundRequest) (r : RefundRequest)
      → Unmarked now before end n (read ∷ todo) r
      → Unmarked now before end n todo (if is_open_row read.reference r then fail_row at r else r)
  mark_step at read todo r h = elim (Bool-cases (is_open_row read.reference r)) [
    | inl t ↦ rw t (λ w. ground arith)
    | inr u ↦ rw u (λ w.
        let (tried, rest) = h w in
        let other : has_reference r.reference read ≡ false =
          elim (Bool-cases (has_reference r.reference read)) [
            | inl s ↦ ground (arith, reference_sym r read s)
            | inr k ↦ k
          ] in
        (tried, elim rest [ inl left ↦ inl left | inr still ↦ inr (ground (arith, other)) ]))
  ]

  mark_each_lem :
      (clock : Clock) (todo : List RefundRequest) (s : Shop)
      → All (Unmarked now before end n todo) s.refunds
      → All (Unmarked now before end n []) (mark_each clock todo s).refunds
  unfolding mark_each
  mark_each_lem clock [] s h = h
  mark_each_lem clock (read ∷ todo) s h = mark_each_lem clock todo (mark_one (clock read) read s) (
      subst (All (Unmarked now before end n todo)) (sym (mark_one_rows (clock read) read s)) (
        All-update_where (Unmarked now before end n (read ∷ todo)) (Unmarked now before end n todo)
          (is_open_row read.reference) (fail_row (clock read)) s.refunds
          (λ r. mark_step (clock read) read todo r) h))

  to_mark :
      (todo rs : List RefundRequest)
      → All (Attempted now before end n []) rs
      → All (Exhausted todo) rs
      → All (Unmarked now before end n todo) rs
  to_mark todo [] h k = tt
  to_mark todo (r ∷ rs) (h, hs) (k, ks) = (
    λ w. elim (h w) [
      | inr never ↦ ground arith
      | inl tried ↦ (
        tried,
        elim (Bool-cases (ltb r.retry_count max_refund_retries)) [
          | inl left ↦ inl (ground arith)
          | inr spent ↦ inr (k (ground arith))
        ],
      )
    ],
    to_mark todo rs hs ks,
  )

  pub mark_permanent_failures_lem :
      (clock : Clock) (s : Shop)
      → All (Attempted now before end n []) s.refunds
      → All (IsRetried now before end n) (mark_permanent_failures clock s).refunds
  unfolding mark_permanent_failures
  mark_permanent_failures_lem clock s h =
      let doomed : List RefundRequest = filter_where is_exhausted s.refunds in
      let every =
        any-filter_where is_exhausted (λ r. has_reference r.reference) s.refunds
          has_reference_self in
      let marked = mark_each_lem clock doomed s (to_mark doomed s.refunds h every) in
      All-weaken (Unmarked now before end n []) (IsRetried now before end n)
        (mark_each clock doomed s).refunds
        (λ r u w.
          let (tried, rest) = u w in
          (elim rest [ inl left ↦ left | inr never ↦ ground arith ], tried))
        marked
