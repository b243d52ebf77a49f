-- ===== src/Payments/Webhook/Currencies.antt =====
-- The amount that an intent asks for against the amount that the webhook records, by currency
-- (backend/src/payments/payments.service.ts).
use shop_verse.Base.{Text, ℕ, ◌≤◌, ◌≡◌, true, false, Option, arith}
use shop_verse.Orders.Tables.{Order, matched, discrepant}
use shop_verse.Payments.Currency.{is_zero_decimal, is_three_decimal, to_minor_units_nearest}
use shop_verse.Payments.Intents.{charge_for, currency_of, IntentKey}
use shop_verse.Payments.Webhook.{captured}

-- The charge for an order in a currency of two decimals, paid in full, is recorded as MATCHED. In a
-- currency without decimals it is a DISCREPANCY from a total of 1 on, and in one of three decimals
-- from a total of 0.01 on.
pub captured_verdict :
    (intent : ℕ) (currency : Option Text) (key : IntentKey) (o : Order)
    → let cur = currency_of currency o in
      let row = captured intent (charge_for currency key o).amount o in
      (is_zero_decimal cur ≡ false → is_three_decimal cur ≡ false → row.status ≡ matched)
      × (is_zero_decimal cur ≡ true → 1000000 ≤ o.total → row.status ≡ discrepant)
      × (is_zero_decimal cur ≡ false
          → is_three_decimal cur ≡ true
          → 10000 ≤ o.total
          → row.status ≡ discrepant)
captured_verdict intent currency key o =
    let near = to_minor_units_nearest o.total (currency_of currency o) in
    (
      λ z t. ground (arith, rw (z, t) at near),
      λ z h. ground (arith, rw z at near),
      λ z t h. ground (arith, rw (z, t) at near),
    )
