-- ===== src/Payments/Retry.antt =====
-- backend/src/payments/refund-retry.service.ts: one run of the cron, under its lock. A row is
-- updated by its key. The spans, the metrics and the log are left out.
pub mod Budget
pub mod Marks
pub mod Settled
use shop_verse.Base.{
  ℕ, ◌+◌, Bool, true, false, not, ◌&&◌, Option, none, some, List, [], ◌∷◌, any, take, order_by,
  find_first, filter_where, update_where, leb, ltb, ◌==◌, if◌then◌else◌,
}
use shop_verse.Wallet.Tables.{Reference}
use shop_verse.Orders.Tables.{
  Shop, Order, RefundRequest, RefundRequestStatus, RefundDestination, original_payment, to_wallet,
  in_process, completed, failed, requested, approved, rejected, cancelling, is_order,
}
use shop_verse.Payments.Refunds.{has_reference}
use shop_verse.Payments.Webhook.{track}

abbrev pub max_refund_retries : ℕ
max_refund_retries = 5

abbrev pub retry_after_ms : ℕ
retry_after_ms = 3600000

abbrev pub retry_batch_size : ℕ
retry_batch_size = 50

-- Stripe, by the reference and the attempt, which make up the idempotency key.
abbrev pub RefundGateway : Type 0
RefundGateway = Reference → (attempt : ℕ) → Option ℕ

-- The time of the write that follows a row as it was read: `updatedAt` is set by the write, not by
-- the run that read the row before.
abbrev pub Clock : Type 0
Clock = RefundRequest → ℕ

abbrev pub is_in_process : RefundRequest → Bool
is_in_process r = elim r.status [ in_process ↦ true | _ ↦ false ]

abbrev pub is_to_gateway : RefundRequest → Bool
is_to_gateway r = elim r.destination [ original_payment ↦ true | to_wallet ↦ false ]

-- `updatedAt <= now - RETRY_AFTER_MS`, written as a sum.
abbrev pub is_stuck : (now : ℕ) → RefundRequest → Bool
is_stuck now r =
    is_in_process r
    && is_to_gateway r
    && leb (r.updated_at + retry_after_ms) now
    && ltb r.retry_count max_refund_retries

abbrev pub stuck : (now : ℕ) → Shop → List RefundRequest
stuck now s =
    take retry_batch_size (order_by (λ r. r.updated_at) (filter_where (is_stuck now) s.refunds))

abbrev pub payment_of : ℕ → Shop → Option ℕ
payment_of order s = elim (find_first (is_order order) s.orders) [
  | none ↦ none
  | some o ↦ o.payment_id
]

-- The three updates of `retryOne`: on the row as it is, with the count of the row as it was read.
abbrev pub give_up : (at : ℕ) → RefundRequest → RefundRequest → RefundRequest
give_up at read r = record r {
  status = failed;
  retry_count = read.retry_count + 1;
  updated_at = at;
}

abbrev pub recover : (at id : ℕ) → RefundRequest → RefundRequest → RefundRequest
recover at id read r = record r {
  gateway_ref = some id;
  status = completed;
  retry_count = read.retry_count + 1;
  updated_at = at;
}

abbrev pub count_attempt : (at : ℕ) → RefundRequest → RefundRequest → RefundRequest
count_attempt at read r = record r { retry_count = read.retry_count + 1; updated_at = at }

abbrev pub on_row : (RefundRequest → RefundRequest) → RefundRequest → Shop → Shop
on_row f read s = record s { refunds = update_where (has_reference read.reference) f s.refunds }

unfoldable pub retry_one : (at : ℕ) → RefundGateway → RefundRequest → Shop → Shop
retry_one at gateway read s = elim (payment_of read.order_id s) [
  | none ↦ on_row (give_up at read) read s
  | some payment ↦ elim (gateway read.reference (read.retry_count + 1)) [
    | some id ↦ track at read.order_id cancelling (on_row (recover at id read) read s)
    | none ↦ on_row (count_attempt at read) read s
  ]
]

unfoldable pub retry_each : Clock → RefundGateway → List RefundRequest → Shop → Shop
retry_each clock gateway [] s = s
retry_each clock gateway (r ∷ rs) s = retry_each clock gateway rs (retry_one (clock r) gateway r s)

-- Rows that are still PROCESSING and have no attempt left.
abbrev pub is_exhausted : RefundRequest → Bool
is_exhausted r = is_in_process r && leb max_refund_retries r.retry_count

abbrev pub is_open_row : Reference → RefundRequest → Bool
is_open_row ref r = has_reference ref r && is_in_process r

abbrev pub fail_row : (at : ℕ) → RefundRequest → RefundRequest
fail_row at r = record r { status = failed; updated_at = at }

unfoldable pub mark_one : (at : ℕ) → RefundRequest → Shop → Shop
mark_one at read s =
    let marked : Shop = record s {
      refunds = update_where (is_open_row read.reference) (fail_row at) s.refunds;
    } in
    if any (is_open_row read.reference) s.refunds
    then track at read.order_id cancelling marked
    else s

unfoldable pub mark_each : Clock → List RefundRequest → Shop → Shop
mark_each clock [] s = s
mark_each clock (r ∷ rs) s = mark_each clock rs (mark_one (clock r) r s)

unfoldable pub mark_permanent_failures : Clock → Shop → Shop
mark_permanent_failures clock s = mark_each clock (filter_where is_exhausted s.refunds) s

-- The cutoff is an hour before `now`, the time at which the run reads the stuck rows. A run that
-- finds none ends before it marks.
unfoldable pub run_once : (now : ℕ) → Clock → RefundGateway → Shop → Shop
run_once now clock gateway s = elim (stuck now s) [
  | [] ↦ s
  | r ∷ rs ↦ mark_permanent_failures clock (retry_each clock gateway (r ∷ rs) s)
]
