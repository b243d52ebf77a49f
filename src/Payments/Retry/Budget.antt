-- ===== src/Payments/Retry/Budget.antt =====
-- What one run of the cron of backend/src/payments/refund-retry.service.ts makes of a row.
use shop_verse.Base.{
  ℕ, ◌+◌, ◌≤◌, ◌<◌, ◌≡◌, ◌⊎◌, refl, Bool, true, false, ◌&&◌, List, [], ◌∷◌, any, All, update_where,
  if◌then◌else◌, arith, inl, inr, subst, sym, Bool-cases, Option-cases, All-update_where,
}
use shop_verse.Orders.Tables.{Shop, RefundRequest}
use shop_verse.Payments.Refunds.{has_reference}
use shop_verse.Payments.Retry.{
  Clock, RefundGateway, retry_after_ms, is_in_process, is_to_gateway, payment_of, give_up, recover,
  count_attempt, retry_one, retry_each,
}

-- A row that still waits for Stripe.
abbrev pub is_waiting : RefundRequest → Bool
is_waiting r = is_in_process r && is_to_gateway r

-- What every attempt does to a row, whatever Stripe says.
pub record IsAttempt (at : ℕ) (read : RefundRequest) (f : RefundRequest → RefundRequest)
    : Type 0 where
  pub same_reference : (r : RefundRequest) → (f r).reference ≡ r.reference
  pub counted : (r : RefundRequest) → (f r).retry_count ≡ read.retry_count + 1
  pub dated : (r : RefundRequest) → (f r).updated_at ≡ at

pub retry_one_lem :
    (at : ℕ) (gateway : RefundGateway) (read : RefundRequest) (s : Shop)
    → (f : RefundRequest → RefundRequest) × IsAttempt at read f
      × ((retry_one at gateway read s).refunds
          ≡ update_where (has_reference read.reference) f s.refunds)
unfolding retry_one
retry_one_lem at gateway read s = elim (Option-cases (payment_of read.order_id s)) [
  | inl n ↦ (
    give_up at read,
    record { same_reference = λ r. refl; counted = λ r. refl; dated = λ r. refl },
    ground arith,
  )
  | inr (p, e) ↦ elim (Option-cases (gateway read.reference (read.retry_count + 1))) [
    | inl n ↦ (
      count_attempt at read,
      record { same_reference = λ r. refl; counted = λ r. refl; dated = λ r. refl },
      ground arith,
    )
    | inr (id, g) ↦ (
      recover at id read,
      record { same_reference = λ r. refl; counted = λ r. refl; dated = λ r. refl },
      ground arith,
    )
  ]
]

pub reference_sym :
    (a b : RefundRequest) → has_reference a.reference b ≡ true → has_reference b.reference a ≡ true
reference_sym a b h = ground arith

-- A row has had an attempt more than `n`, or is not due: it has had `n`, was written by `before`,
-- and less than an hour before `now`.
abbrev pub Progress : (now before end n : ℕ) → RefundRequest → Type 0
Progress now before end n r =
    ((n + 1 ≤ r.retry_count) × (r.updated_at ≤ end))
    ⊎ ((n ≤ r.retry_count) × (r.updated_at ≤ before) × (now < r.updated_at + retry_after_ms))

-- A waiting row has had its attempt of this run, or is still to have it, or is not due.
abbrev pub Attempted : (now before end n : ℕ) → List RefundRequest → RefundRequest → Type 0
Attempted now before end n todo r =
    is_waiting r ≡ true
    → Progress now before end n r ⊎ (any (has_reference r.reference) todo ≡ true)

module _ (now before end n : ℕ) where
  attempt_step :
      (at : ℕ) (read : RefundRequest) (todo : List RefundRequest)
      (f : RefundRequest → RefundRequest) (r : RefundRequest)
      → IsAttempt at read f
      → at ≤ end
      → n ≤ read.retry_count
      → Attempted now before end n (read ∷ todo) r
      → Attempted now before end n todo (if has_reference read.reference r then f r else r)
  attempt_step at read todo f r a early b h = elim (Bool-cases (has_reference read.reference r)) [
    | inl t ↦ rw t (λ w. inl (inl (omega (arith, a.counted r, b), omega (arith, a.dated r, early))))
    | inr u ↦
        let other : has_reference r.reference read ≡ false =
          elim (Bool-cases (has_reference r.reference read)) [
            | inl s ↦ ground (arith, reference_sym r read s)
            | inr k ↦ k
          ] in
        rw u (λ w. elim (h w) [ inl done ↦ inl done | inr still ↦ inr (ground (arith, other)) ])
  ]

  pub retry_each_lem :
      (clock : Clock) (gateway : RefundGateway) (todo : List RefundRequest) (s : Shop)
      → ((r : RefundRequest) → clock r ≤ end)
      → All (λ q. n ≤ q.retry_count) todo
      → All (Attempted now before end n todo) s.refunds
      → All (Attempted now before end n []) (retry_each clock gateway todo s).refunds
  unfolding retry_each
  retry_each_lem clock gateway [] s early b h = h
  retry_each_lem clock gateway (read ∷ todo) s early (b, bs) h =
      let (f, a, e) = retry_one_lem (clock read) gateway read s in
      retry_each_lem clock gateway todo (retry_one (clock read) gateway read s) early bs (
        subst (All (Attempted now before end n todo)) (sym e) (
          All-update_where (Attempted now before end n (read ∷ todo))
            (Attempted now before end n todo) (has_reference read.reference) f s.refunds
            (λ r. attempt_step (clock read) read todo f r a (early read) b) h))
