-- ===== src/Payments/Refunds.antt =====
-- backend/src/payments/payments.service.ts: refundStripePayment, in the steps between which other
-- requests can run. The answer of Stripe is an argument: the id of its refund, or a throw.
pub mod Claims
pub mod Outcome
use shop_verse.Base.{
  ℕ, ◌+◌, Bool, true, false, not, ◌&&◌, ◌||◌, Option, none, some, List, [], ◌∷◌, find_first,
  replace_first, ◌==◌, if◌then◌else◌, Result, ok, err, Tx, Action, ◌>>=◌, ◌>>◌, pure, throw_if,
  bad_request, check_violation,
}
use shop_verse.Wallet.Tables.{Reference, refund_stripe, is_same_reference}
use shop_verse.Orders.Tables.{
  Shop, Order, OrderStatus, RefundRequest, RefundRequestStatus, original_payment, in_process,
  completed, failed, cancelling, refunded, paid, payment_code, is_status, is_order, set_status,
}
use shop_verse.Orders.Lifecycle.{find_own}
use shop_verse.Payments.Intents.{is_paid}

abbrev pub has_reference : Reference → RefundRequest → Bool
has_reference ref r = is_same_reference ref r.reference

abbrev pub is_unset : Option ℕ → Bool
is_unset none = true
is_unset (some p) = false

-- The checks, on the order that is read first.
unfoldable pub check_refund : (user order : ℕ) → Tx Shop Order
check_refund user order = do
  o ← find_own user order
  throw_if (is_unset o.payment_id) bad_request
  throw_if (not (is_paid o)) bad_request
  throw_if (is_status o.status cancelling || is_status o.status refunded) bad_request
  pure o

-- order.updateMany where the id, the status that was read, and PAID.
unfoldable pub claim_refund : (now : ℕ) → Order → Tx Shop (Unit {0})
claim_refund now o s = elim (find_first (is_order o.id) s.orders) [
  | none ↦ err bad_request
  | some x ↦
      if is_status x.status o.status && is_paid x
      then ok (
        tt,
        record s {
          orders =
              replace_first (is_order o.id) (record x { status = cancelling; updated_at = now })
                s.orders;
        },
      )
      else err bad_request
]

abbrev pub new_request : (now : ℕ) → Order → RefundRequest
new_request now o = record {
  order_id = o.id;
  order_item_id = none;
  amount = o.total;
  status = in_process;
  destination = original_payment;
  gateway_ref = none;
  reference = refund_stripe o.id;
  retry_count = 0;
  updated_at = now;
}

-- What refundRequest.upsert by reference writes; a row that is there is taken up once more.
unfoldable pub put_request : (now : ℕ) → Order → Shop → Shop
put_request now o s = elim (find_first (has_reference (refund_stripe o.id)) s.refunds) [
  | none ↦ record s { refunds = new_request now o ∷ s.refunds }
  | some r ↦ record s {
    refunds =
        replace_first (has_reference (refund_stripe o.id))
          (record r { status = in_process; retry_count = r.retry_count + 1; updated_at = now })
          s.refunds;
  }
]

-- The upsert. The table has a CHECK that the amount is positive, on the row to be created.
unfoldable pub start_request : (now : ℕ) → Order → Tx Shop (Unit {0})
start_request now o s = if o.total == 0 then err check_violation else ok (tt, put_request now o s)

unfoldable pub update_request : (RefundRequest → RefundRequest) → Reference → Shop → Shop
update_request f ref s = elim (find_first (has_reference ref) s.refunds) [
  | none ↦ s
  | some r ↦ record s { refunds = replace_first (has_reference ref) (f r) s.refunds }
]

-- The way back: where the status is still CANCELLING.
unfoldable pub restore_status : (now : ℕ) → Order → Shop → Shop
restore_status now o s = elim (find_first (is_order o.id) s.orders) [
  | none ↦ s
  | some x ↦
      if is_status x.status cancelling
      then record s {
        orders =
            replace_first (is_order o.id) (record x { status = o.status; updated_at = now })
              s.orders;
      }
      else s
]

-- After the call of Stripe.
unfoldable pub finish_refund : (now : ℕ) → Order → Option ℕ → Action Shop ℕ
finish_refund now o none s = (
  err bad_request,
  update_request (λ r. record r { status = failed; updated_at = now }) (refund_stripe o.id)
      (restore_status now o s),
)
finish_refund now o (some id) s =
    let done : Shop =
      update_request (λ r. record r { status = completed; gateway_ref = some id; updated_at = now })
        (refund_stripe o.id) s in
    (
      ok id,
      record done {
        tracking =
            record { order_id = o.id; status = cancelling; created_at = now } ∷ done.tracking;
      },
    )

unfoldable pub refund_stripe_payment : (now user order : ℕ) → Option ℕ → Action Shop ℕ
refund_stripe_payment now user order answer s = elim (check_refund user order s) [
  | err e ↦ (err e, s)
  | ok (o, t) ↦ elim (claim_refund now o t) [
    | err e ↦ (err e, t)
    | ok (u, t') ↦ elim (start_request now o t') [
      | err e ↦ (err e, t')
      | ok (v, started) ↦ finish_refund now o answer started
    ]
  ]
]
