-- ===== src/Payments/Tests.antt =====
-- An order that is paid, refunded and disputed.
use shop_verse.Base.{
  codes, ℕ, zero, suc, ◌+◌, ◌*◌, ◌≤◌, ◌<◌, ◌≡◌, ◌⊎◌, check_violation, refl, false, none, some, List,
  [], ◌∷◌, All, arith, ok, err, bad_request, filter_where,
}
use shop_verse.Wallet.Tables.{
  upsert_wallet, create_transaction, Books, Wallet, credit_type, refund_order, refund_stripe,
  wallet_credit,
}
use shop_verse.Wallet.Conservation
use shop_verse.Wallet.{credit, credit_transaction}
use shop_verse.Orders.Tables.{
  update_order, Shop, Order, RefundRequest, pending, confirmed, unpaid, paid, stripe,
  original_payment, in_process, matched,
}
use shop_verse.Orders.Lifecycle.{find_own}
use shop_verse.Orders.Placement.Invariants.{IsWellFormed}
use shop_verse.Payments.Currency.{
  to_lower, is_zero_decimal, is_three_decimal, to_minor_units, minor_unit, to_minor_units_nearest,
}
use shop_verse.Payments.Intents.{charge_for, currency_of, first_key, Intent}
use shop_verse.Payments.Webhook.{
  payment_failed, dispute_created, charge_refunded, captured, on_failed, reverse_wallet,
  on_succeeded, on_refunded, is_refundable, handle_webhook,
}
use shop_verse.Payments.Webhook.Captures.{captured_once}
use shop_verse.Payments.Webhook.Invariants.{Delivery, deliver_all, deliver_all-IsWellFormed}
use shop_verse.Payments.Webhook.Currencies.{captured_verdict}
use shop_verse.Payments.Webhook.Refunded.{refunded_again}
use shop_verse.Payments.Refunds.{check_refund, claim_refund, refund_stripe_payment}
use shop_verse.Payments.Refunds.Claims.{claimed_once}
use shop_verse.Payments.Refunds.Outcome.{Ends, IsUnstarted, refund_outcome}
use shop_verse.Payments.Retry.{
  RefundGateway, retry_one, retry_each, mark_each, mark_permanent_failures, run_once,
}
use shop_verse.Payments.Retry.Budget.{is_waiting}
use shop_verse.Payments.Retry.Settled.{Run, IsHourly, run_all, no_refund_waits, run_once-idle}

abbrev purchase : Order
purchase = record {
  id = 42;
  user_id = some 7;
  status = confirmed;
  payment_method = stripe;
  payment_status = paid;
  subtotal = 12340000;
  discount_amount = 0;
  shipping_fee = 0;
  tax_amount = 0;
  total = 12340000;
  wallet_amount_used = 2000000;
  currency = "USD";
  coupon_code = none;
  payment_id = some 900;
  updated_at = 10;
}

abbrev purse : Wallet
purse = record { id = 1; user_id = 7; balance = 5000000 }

abbrev books : Books
books = record {
  wallets = purse ∷ [];
  next_wallet = 2;
  transactions =
      record {
        wallet_id = 1;
        amount = 5000000;
        type = credit_type;
        reference = refund_order 42;
        balance_after = 5000000;
      }
      ∷ [];
  ledger =
      record {
        type = wallet_credit;
        debit_amount = 0;
        credit_amount = 5000000;
        reference = refund_order 42;
      }
      ∷ [];
}

abbrev shop : Shop
shop = record {
  stock = record { inventory = []; variants = []; default_warehouse = some 1 };
  books = books;
  orders = purchase ∷ [];
  items = [];
  tracking = [];
  returns = [];
  refunds = [];
  reconciliations = [];
  reservations = [];
  next_reservation = 1;
  promotions = record { coupons = []; usages = []; delivered_orders = λ u. 0 };
  next_order = 43;
  next_item = 1;
}

abbrev unpaid_shop : Shop
unpaid_shop = record shop {
  orders = record purchase { payment_status = unpaid; status = pending } ∷ [];
}

to_minor_units_nearest_run :
    (2 * (to_minor_units 12340000 (codes "jpy") * minor_unit (codes "jpy"))
      ≤ 2 * 12340000 + minor_unit (codes "jpy"))
    × (2 * 12340000
        < 2 * (to_minor_units 12340000 (codes "jpy") * minor_unit (codes "jpy"))
          + minor_unit (codes "jpy"))
to_minor_units_nearest_run = to_minor_units_nearest 12340000 (codes "jpy")

yen : to_minor_units 12340000 (codes "jpy") ≡ 12
unfolding to_minor_units is_zero_decimal
yen = refl

dinars : to_minor_units 12340000 (codes "kwd") ≡ 12340
unfolding to_minor_units is_zero_decimal is_three_decimal
dinars = refl

abbrev intent : Intent
intent = record {
  charge =
      charge_for none (first_key 42)
        (record purchase { payment_status = unpaid; status = pending });
  payment_id = 901;
}

-- The wallet has paid 2.00 of the 12.34, and 12.34 is charged.
charged_in_full : intent.charge.amount ≡ 1234
unfolding to_lower to_minor_units is_zero_decimal is_three_decimal
charged_in_full = refl

captured_once_example :
    let after = (on_succeeded 100 900 1234 (some 42) unpaid_shop).1 in
    ((on_succeeded 100 900 1234 (some 42) unpaid_shop).0 ≡ ok tt)
    × (on_succeeded 200 900 1234 (some 42) after ≡ (ok tt, after))
captured_once_example = captured_once 100 200 900 1234 (some 42) unpaid_shop

books-IsSound : Conservation.IsSound books
books-IsSound = (
  record {
    conserved = λ i. ground arith;
    credits_booked = refl;
    debits_booked = refl;
    once = λ i ref ty. ground arith;
  },
  ground arith,
)

shop-IsWellFormed : IsWellFormed shop
shop-IsWellFormed = record {
  reserved = record {
    consistent = record { within = tt; cached = λ v. tt };
    backed = λ wh v. omega arith;
  };
  booked = books-IsSound;
  limited = record { uses = tt; once = λ c u. omega arith };
}

abbrev deliveries : List Delivery
deliveries =
    record { now = 20; event = some (payment_failed (some 42)) }
    ∷ record { now = 30; event = some (dispute_created (some 900)) }
    ∷ record { now = 40; event = some (charge_refunded (some 900)) }
    ∷ []

deliver_all-IsWellFormed_example : IsWellFormed (deliver_all deliveries shop)
deliver_all-IsWellFormed_example = deliver_all-IsWellFormed deliveries shop shop-IsWellFormed

us_dollars : is_zero_decimal (currency_of none purchase) ≡ false
unfolding is_zero_decimal to_lower
us_dollars = refl

us_cents : is_three_decimal (currency_of none purchase) ≡ false
unfolding is_three_decimal to_lower
us_cents = refl

captured_verdict_example :
    (captured 900 (charge_for none (first_key 42) purchase).amount purchase).status ≡ matched
captured_verdict_example = (captured_verdict 900 none (first_key 42) purchase).0 us_dollars us_cents

refunded_again_example :
    let after = on_refunded 50 (some 900) shop in
    (filter_where (is_refundable 900) after.orders ≡ []) × (on_refunded 60 (some 900) after ≡ after)
refunded_again_example = refunded_again 50 60 900 shop

checked : check_refund 7 42 shop ≡ ok (purchase, shop)
unfolding check_refund find_own
checked = refl

claimed_once_example :
    (s1 : Shop) × (claim_refund 50 purchase shop ≡ ok (tt, s1))
    × (claim_refund 51 purchase s1 ≡ err bad_request)
claimed_once_example = claimed_once 50 51 7 42 shop purchase checked

refund_outcome_example :
    (((refund_stripe_payment 50 7 42 none shop).0 ≡ err check_violation)
      × IsUnstarted 50 purchase shop (refund_stripe_payment 50 7 42 none shop).1)
    ⊎ ((0 < purchase.total)
        × (r : RefundRequest) × Ends 50 none purchase r (refund_stripe_payment 50 7 42 none shop))
refund_outcome_example = refund_outcome 50 7 42 none shop purchase checked

abbrev lost : RefundRequest
lost = record {
  order_id = 42;
  order_item_id = none;
  amount = 12340000;
  status = in_process;
  destination = original_payment;
  gateway_ref = none;
  reference = refund_stripe 42;
  retry_count = 1;
  updated_at = 100;
}

abbrev waiting_shop : Shop
waiting_shop = record shop { refunds = lost ∷ [] }

-- Stripe is down.
abbrev down : RefundGateway
down ref attempt = none

-- The run at 15 minutes past an hour, whose writes are made a second after it has read the rows.
abbrev run_of : (hour : ℕ) → Run
run_of hour = record {
  started = hour * 3600000 + 900000;
  ended = hour * 3600000 + 955000;
  clock = λ r. hour * 3600000 + 901000;
  gateway = down;
}

abbrev runs_from : (count hour : ℕ) → List Run
runs_from zero hour = []
runs_from (suc n) hour = run_of hour ∷ runs_from n (hour + 1)

runs_from-IsHourly :
    (count hour before last : ℕ)
    → before + 2700000 ≤ hour * 3600000
    → last ≤ hour * 3600000 + 900000
    → IsHourly before last (runs_from count hour)
runs_from-IsHourly zero hour before last h k = tt
runs_from-IsHourly (suc n) hour before last h k = (
  omega (arith, h),
  k,
  omega arith,
  (λ q. omega arith),
  runs_from-IsHourly n (hour + 1) last (hour * 3600000 + 955000) (omega (arith, k)) (omega arith),
)

no_refund_waits_example :
    All (λ r. is_waiting r ≡ false) (run_all (runs_from 10 2) waiting_shop).refunds
no_refund_waits_example =
    no_refund_waits 100 (runs_from 10 2) waiting_shop refl
      (runs_from-IsHourly 10 2 0 100 (omega arith) (omega arith)) (omega arith)
      ((λ w. (omega arith, omega arith, omega arith)), tt)

-- The row that a run has written is not due in the run of the next hour, and due in the one after.
every_other_run :
    ((run_all (runs_from 1 2) waiting_shop).refunds
      ≡ record lost { retry_count = 2; updated_at = 8101000 } ∷ [])
    × ((run_all (runs_from 2 2) waiting_shop).refunds
        ≡ record lost { retry_count = 2; updated_at = 8101000 } ∷ [])
    × ((run_all (runs_from 3 2) waiting_shop).refunds
        ≡ record lost { retry_count = 3; updated_at = 15301000 } ∷ [])
unfolding run_once retry_each retry_one mark_permanent_failures mark_each
every_other_run = (refl, refl, refl)

-- A row whose attempts were used up by hand, and nothing else that is stuck.
forgotten :
    run_once 9000000
      (λ r. 9000001)
      down
      (record shop { refunds = record lost { retry_count = 5 } ∷ [] })
    ≡ record shop { refunds = record lost { retry_count = 5 } ∷ [] }
forgotten =
    run_once-idle 9000000 (λ r. 9000001) down
      (record shop { refunds = record lost { retry_count = 5 } ∷ [] }) refl

-- The failure of an earlier intent, delivered after the order was paid by another.
late_failure :
    (handle_webhook 50 (some (payment_failed (some 42))) shop).1.orders
    ≡ record purchase { payment_status = unpaid; updated_at = 50 } ∷ []
unfolding handle_webhook on_failed update_order reverse_wallet credit credit_transaction
    upsert_wallet create_transaction
late_failure = refl
