-- ===== src/Payments/Webhook.antt =====
-- backend/src/payments/payments.service.ts: handleWebhook, on the event that Stripe's library made
-- of the request. The claw-back of points after a refund is started and not waited for; it is left
-- out.
pub mod Captures
pub mod MoneyOnly
pub mod Invariants
pub mod Currencies
pub mod Refunded
use shop_verse.Base.{
  ℕ, ◌+◌, ◌*◌, Bool, true, false, not, ◌&&◌, ◌||◌, Option, none, some, List, [], ◌∷◌, any, map,
  find_first, filter_where, update_where, ltb, ◌==◌, if◌then◌else◌, Result, ok, err, Error, Tx,
  Action, ◌>>=◌, ◌>>◌, pure, transact, unique_violation, bad_request,
}
use shop_verse.Wallet.Tables.{named, wallet_reversal, refund_order, refund_chargeback, credit_type}
use shop_verse.Wallet.{credit, debit, belongs}
use shop_verse.Orders.Tables.{
  Shop, Order, OrderStatus, PaymentReconciliation, PaymentStatus, paid, unpaid, fully_refunded,
  confirmed, pending, cancelling, refunded, resolved, payment_code, update_order, add_tracking,
}
use shop_verse.Orders.Settlement.{has_ref, is_for, distance, verdict, find_order}

-- The order of an intent is the number in its metadata, if it is one and not 0.
pub data StripeEvent : Type 0 where
  payment_succeeded : (intent amount : ℕ) → (order : Option ℕ) → StripeEvent
  payment_failed : (order : Option ℕ) → StripeEvent
  dispute_created : (intent : Option ℕ) → StripeEvent
  charge_refunded : (intent : Option ℕ) → StripeEvent
  other_event : StripeEvent

-- The webhook divides the amount of the intent by 100, whatever the currency.
abbrev pub captured : (intent amount : ℕ) → Order → PaymentReconciliation
captured intent amount o = record {
  gateway_ref = named intent;
  order_id = some o.id;
  gateway_amount = amount * 10000;
  internal_amount = some o.total;
  discrepancy = none;
  status = verdict (distance (amount * 10000) o.total);
}

-- paymentReconciliation.create; `gatewayRef` and `orderId` are unique.
unfoldable pub create_reconciliation : PaymentReconciliation → Tx Shop (Unit {0})
create_reconciliation r s =
    if any (has_ref r.gateway_ref) s.reconciliations || any (is_for r.order_id) s.reconciliations
    then err unique_violation
    else ok (tt, record s { reconciliations = r ∷ s.reconciliations })

unfoldable pub capture : (now intent amount : ℕ) → Order → Tx Shop (Unit {0})
capture now intent amount o = do
  create_reconciliation (captured intent amount o)
  update_order now o.id (λ x. record x { payment_status = paid; status = confirmed })
  add_tracking (record { order_id = o.id; status = confirmed; created_at = now })

-- A unique violation is a delivery that was handled before.
abbrev pub ignore_duplicate : Result (Unit {0}) × Shop → Result (Unit {0}) × Shop
ignore_duplicate (ok u, s) = (ok u, s)
ignore_duplicate (err e, s) = elim e [ unique_violation ↦ (ok tt, s) | other ↦ (err other, s) ]

unfoldable pub on_succeeded : (now intent amount : ℕ) → Option ℕ → Action Shop (Unit {0})
on_succeeded now intent amount order s = elim (find_order order s) [
  | none ↦ (ok tt, s)
  | some o ↦ ignore_duplicate (transact (capture now intent amount o) s)
]

abbrev pub forget : {A : Type 0} → Result A → Result (Unit {0})
forget (ok a) = ok tt
forget (err e) = err e

-- The wallet's part of a payment is given back.
unfoldable pub reverse_wallet : Order → Action Shop (Unit {0})
reverse_wallet o s = elim o.user_id [
  | none ↦ (ok tt, s)
  | some user ↦
      let (answer, b) = credit user o.wallet_amount_used (wallet_reversal o.id) s.books in
      if ltb 0 o.wallet_amount_used then (forget answer, record s { books = b }) else (ok tt, s)
]

abbrev pub track : (now order : ℕ) → OrderStatus → Shop → Shop
track now order status s = record s {
  tracking = record { order_id = order; status = status; created_at = now } ∷ s.tracking;
}

-- The order becomes UNPAID before the wallet is credited; no transaction holds the two together.
unfoldable pub on_failed : (now : ℕ) → Option ℕ → Action Shop (Unit {0})
on_failed now none s = (ok tt, s)
on_failed now (some id) s =
    elim (update_order now id (λ x. record x { payment_status = unpaid }) s) [
      | err e ↦ (err e, s)
      | ok (o, s') ↦ reverse_wallet o (track now id pending s')
    ]

abbrev pub is_paid_by : ℕ → Order → Bool
is_paid_by intent o = elim o.payment_id [ none ↦ false | some p ↦ intent == p ]

-- The debit of what a refund to the wallet had credited; its failure is logged.
unfoldable pub claw_back : (user order : ℕ) → Shop → Shop
claw_back user order s =
    elim (find_first (belongs s.books user (refund_order order) credit_type) s.books.transactions) [
      | none ↦ s
      | some t ↦ record s { books = (debit user t.amount (refund_chargeback order) s.books).1 }
    ]

unfoldable pub dispute_one : (now : ℕ) → Order → Shop → Shop
dispute_one now o s = elim o.user_id [
  | none ↦ s
  | some user ↦ track now o.id cancelling (claw_back user o.id s)
]

unfoldable pub dispute_all : (now : ℕ) → List Order → Shop → Shop
dispute_all now [] s = s
dispute_all now (o ∷ rest) s = dispute_all now rest (dispute_one now o s)

unfoldable pub on_dispute : (now : ℕ) → Option ℕ → Shop → Shop
on_dispute now none s = s
on_dispute now (some intent) s = dispute_all now (filter_where (is_paid_by intent) s.orders) s

abbrev pub is_refunded_order : Order → Bool
is_refunded_order o = payment_code o.payment_status == payment_code fully_refunded

abbrev pub is_due : ℕ → Order → Bool
is_due id o = id == o.id && not (is_refunded_order o)

abbrev pub as_refunded : (now : ℕ) → Order → Order
as_refunded now o = record o {
  payment_status = fully_refunded;
  status = refunded;
  updated_at = now;
}

abbrev pub resolve : PaymentReconciliation → PaymentReconciliation
resolve r = record r { status = resolved }

-- updateMany by id where the order is not REFUNDED; then the reconciliations of the order.
unfoldable pub refund_one : (now id : ℕ) → Shop → Shop
refund_one now id s =
    if any (is_due id) s.orders
    then record s {
      orders = update_where (is_due id) (as_refunded now) s.orders;
      reconciliations = update_where (is_for (some id)) resolve s.reconciliations;
    }
    else s

unfoldable pub refund_all : (now : ℕ) → List ℕ → Shop → Shop
refund_all now [] s = s
refund_all now (id ∷ ids) s = refund_all now ids (refund_one now id s)

abbrev pub is_refundable : ℕ → Order → Bool
is_refundable intent o = is_paid_by intent o && not (is_refunded_order o)

unfoldable pub on_refunded : (now : ℕ) → Option ℕ → Shop → Shop
on_refunded now none s = s
on_refunded now (some intent) s =
    refund_all now (map (λ o. o.id) (filter_where (is_refundable intent) s.orders)) s

-- A request that Stripe's library rejects has no event.
unfoldable pub handle_webhook : (now : ℕ) → Option StripeEvent → Action Shop (Unit {0})
handle_webhook now none s = (err bad_request, s)
handle_webhook now (some event) s = elim event [
  | payment_succeeded intent amount order ↦ on_succeeded now intent amount order s
  | payment_failed order ↦ on_failed now order s
  | dispute_created intent ↦ (ok tt, on_dispute now intent s)
  | charge_refunded intent ↦ (ok tt, on_refunded now intent s)
  | other_event ↦ (ok tt, s)
]
