-- ===== src/Payments/Intents.antt =====
-- backend/src/payments/payments.service.ts: createPaymentIntent and retryPayment.
use shop_verse.Base.{
  Text, codes, ℕ, Bool, Option, none, some, ◌==◌, Tx, ◌>>=◌, ◌>>◌, pure, throw_if, or_throw,
  bad_request, fault,
}
use shop_verse.Orders.Tables.{Shop, Order, paid, payment_code, update_order}
use shop_verse.Orders.Lifecycle.{find_own}
use shop_verse.Payments.Currency.{to_lower, to_minor_units}

-- The idempotency keys `order:<id>` and `order:<id>:retry:<now>`. A plugin's gateway gets none.
pub data IntentKey : Type 0 where
  no_key : IntentKey
  first_key : (order : ℕ) → IntentKey
  retry_key : (order now : ℕ) → IntentKey

-- What a gateway is asked for.
pub record Charge : Type 0 where
  pub order : ℕ
  pub amount : ℕ
  pub currency : Text
  pub key : IntentKey

-- The answer of a gateway: the id of the intent, or a throw.
abbrev pub Gateway : Type 0
Gateway = Charge → Option ℕ

pub record Intent : Type 0 where
  pub charge : Charge
  pub payment_id : ℕ

abbrev pub is_paid : Order → Bool
is_paid o = payment_code o.payment_status == payment_code paid

-- The currency of the request, or else the order's.
abbrev pub currency_of : Option Text → Order → Text
currency_of none o = to_lower (codes o.currency)
currency_of (some c) o = to_lower c

abbrev pub charge_for : Option Text → IntentKey → Order → Charge
charge_for currency key o = record {
  order = o.id;
  amount = to_minor_units o.total (currency_of currency o);
  currency = currency_of currency o;
  key = key;
}

-- The call of the gateway and the update of `paymentId`.
unfoldable pub open_intent : (now : ℕ) → Gateway → Charge → Tx Shop Intent
open_intent now gateway charge = do
  id ← λ s. or_throw (gateway charge) fault s
  update_order now charge.order (λ o. record o { payment_id = some id })
  pure (record { charge = charge; payment_id = id })

-- The plugin's gateway takes the charge if there is one, and Stripe otherwise.
unfoldable pub create_payment_intent :
    (now : ℕ) → Option Gateway → Gateway → (user order : ℕ) → Option Text → Tx Shop Intent
create_payment_intent now plugin stripe user order currency = do
  o ← find_own user order
  throw_if (is_paid o) bad_request
  elim plugin [
    | some gateway ↦ open_intent now gateway (charge_for currency no_key o)
    | none ↦ open_intent now stripe (charge_for currency (first_key order) o)
  ]

-- The old intent is cancelled at Stripe, and a failure of that is ignored.
unfoldable pub retry_payment : (now : ℕ) → Gateway → (user order : ℕ) → Option Text → Tx Shop Intent
retry_payment now stripe user order currency = do
  o ← find_own user order
  throw_if (is_paid o) bad_request
  open_intent now stripe (charge_for currency (retry_key order now) o)
