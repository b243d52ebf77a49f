-- ===== src/Orders/Settlement.antt =====
-- backend/src/wallet/wallet.service.ts: the reconciliation of payments with orders. An order id of
-- 0, which no order has, is `none`.
pub mod Cod
use shop_verse.Base.{
  ℕ, ◌+◌, ◌-◌, Bool, true, false, not, ◌&&◌, ◌||◌, Option, none, some, List, [], ◌∷◌, find_first,
  ltb, replace_first, any, ◌==◌, if◌then◌else◌, Result, ok, err, Tx, ◌>>=◌, ◌>>◌, pure, throw_if,
  or_throw, not_found, bad_request, unique_violation,
}
use shop_verse.Wallet.Tables.{
  Reference, LedgerEntry, cod_confirm, order_payment, is_same_reference, create_entry,
}
use shop_verse.Orders.Tables.{
  Shop, Order, PaymentReconciliation, ReconcileStatus, awaiting, matched, discrepant, delivered,
  paid, payment_code, is_cod, is_order, on_books, update_order,
}

abbrev pub has_ref : Reference → PaymentReconciliation → Bool
has_ref ref r = is_same_reference ref r.gateway_ref

abbrev pub is_for : Option ℕ → PaymentReconciliation → Bool
is_for none r = false
is_for (some o) r = elim r.order_id [ none ↦ false | some x ↦ o == x ]

-- paymentReconciliation.upsert by `gatewayRef`; a row that is created has an order of its own.
unfoldable pub upsert_reconciliation :
    PaymentReconciliation
    → (PaymentReconciliation → PaymentReconciliation)
    → Tx Shop PaymentReconciliation
upsert_reconciliation r f s = elim (find_first (has_ref r.gateway_ref) s.reconciliations) [
  | some x ↦ ok (
    f x,
    record s { reconciliations = replace_first (has_ref r.gateway_ref) (f x) s.reconciliations },
  )
  | none ↦
      if any (is_for r.order_id) s.reconciliations
      then err unique_violation
      else ok (r, record s { reconciliations = r ∷ s.reconciliations })
]

abbrev pub distance : ℕ → ℕ → ℕ
distance a b = (a - b) + (b - a)

-- A discrepancy of less than 0.01 is none.
abbrev pub cent : ℕ
cent = 10000

abbrev pub verdict : ℕ → ReconcileStatus
verdict d = if ltb d cent then matched else discrepant

abbrev pub assess : Reference → Option ℕ → ℕ → Option Order → PaymentReconciliation
assess ref order amount none = record {
  gateway_ref = ref;
  order_id = order;
  gateway_amount = amount;
  internal_amount = none;
  discrepancy = none;
  status = awaiting;
}
assess ref order amount (some o) = record {
  gateway_ref = ref;
  order_id = order;
  gateway_amount = amount;
  internal_amount = some o.total;
  discrepancy = some (distance amount o.total);
  status = verdict (distance amount o.total);
}

abbrev pub find_order : Option ℕ → Shop → Option Order
find_order none s = none
find_order (some i) s = find_first (is_order i) s.orders

-- An update leaves out what is `undefined`, so an amount that is not known keeps its old value.
abbrev pub keep_known : Option ℕ → Option ℕ → Option ℕ
keep_known none old = old
keep_known (some n) old = some n

abbrev pub reassess : PaymentReconciliation → PaymentReconciliation → PaymentReconciliation
reassess r x = record x {
  gateway_amount = r.gateway_amount;
  internal_amount = keep_known r.internal_amount x.internal_amount;
  discrepancy = keep_known r.discrepancy x.discrepancy;
  status = r.status;
}

unfoldable pub record_gateway_payment : Reference → Option ℕ → ℕ → Tx Shop PaymentReconciliation
record_gateway_payment ref order amount s =
    let r = assess ref order amount (find_order order s) in upsert_reconciliation r (reassess r) s

abbrev pub cod_reconciliation : Order → PaymentReconciliation
cod_reconciliation o = record {
  gateway_ref = cod_confirm o.id;
  order_id = some o.id;
  gateway_amount = o.total;
  internal_amount = some o.total;
  discrepancy = some 0;
  status = matched;
}

abbrev pub cod_entry : Order → LedgerEntry
cod_entry o = record {
  type = order_payment;
  debit_amount = 0;
  credit_amount = o.total;
  reference = cod_confirm o.id;
}

-- The transaction of `confirmCODDelivery`, on the order that was read before it.
unfoldable pub write_cod : (now : ℕ) → Order → Tx Shop (Unit {0})
write_cod now o = do
  update_order now o.id (λ x. record x { payment_status = paid; status = delivered })
  upsert_reconciliation (cod_reconciliation o) (λ x. record x { status = matched })
  on_books (create_entry (cod_entry o))

abbrev pub is_paid : Order → Bool
is_paid o = payment_code o.payment_status == payment_code paid

unfoldable pub confirm_cod_delivery : (now order : ℕ) → Tx Shop (Unit {0})
confirm_cod_delivery now order = do
  o ← λ s. or_throw (find_first (is_order order) s.orders) not_found s
  throw_if (not (is_cod o.payment_method)) bad_request
  throw_if (is_paid o) bad_request
  write_cod now o
