-- ===== src/Orders/Settlement/Cod.antt =====
-- What the settlement of payments in backend/src/wallet/wallet.service.ts records.
use shop_verse.Base.{
  ℕ, ◌+◌, ◌≡◌, ◌<◌, ◌↔◌, refl, true, false, Option, none, some, find_first, replace_first, any,
  sum_by, arith, ok, err, inl, inr, subst, sym, Option-cases, Bool-cases, Result-cases, bad_request,
  find_first-test, find_first-replace_first_self,
}
use shop_verse.Wallet.Tables.{Reference, LedgerEntry, order_payment}
use shop_verse.Orders.Tables.{
  Shop, Order, PaymentReconciliation, matched, delivered, paid, is_cod, is_order, update_order,
}
use shop_verse.Orders.Settlement.{
  cent, upsert_reconciliation, has_ref, is_for, record_gateway_payment, assess, find_order, verdict,
  distance, cod_reconciliation, write_cod, is_paid, confirm_cod_delivery,
}

abbrev pub payment_of : LedgerEntry → ℕ
payment_of e = elim e.type [ order_payment ↦ e.credit_amount | _ ↦ 0 ]

upsert_reconciliation_keeps :
    (r x : PaymentReconciliation) (f : PaymentReconciliation → PaymentReconciliation) (s s' : Shop)
    → upsert_reconciliation r f s ≡ ok (x, s')
    → (s'.orders ≡ s.orders) × (s'.books ≡ s.books)
unfolding upsert_reconciliation
upsert_reconciliation_keeps r x f s s' e =
    elim (Option-cases (find_first (has_ref r.gateway_ref) s.reconciliations)) [
      | inr (y, h) ↦ ground arith
      | inl n ↦ elim (Bool-cases (any (is_for r.order_id) s.reconciliations)) [
        | inl taken ↦ ground arith
        | inr free ↦ ground arith
      ]
    ]

-- A confirmation succeeds only for a COD order that is not paid. It books the order's total as one
-- payment, leaves the order PAID and DELIVERED, and a second confirmation is a bad request.
pub confirmed_once :
    (now later : ℕ) (s s' : Shop) (o : Order)
    → find_first (is_order o.id) s.orders ≡ some o
    → confirm_cod_delivery now o.id s ≡ ok (tt, s')
    → (is_cod o.payment_method ≡ true)
      × (is_paid o ≡ false)
      × (sum_by payment_of s'.books.ledger ≡ sum_by payment_of s.books.ledger + o.total)
      × (find_first (is_order o.id) s'.orders
          ≡ some (record o { payment_status = paid; status = delivered; updated_at = now }))
      × (confirm_cod_delivery later o.id s' ≡ err bad_request)
unfolding confirm_cod_delivery write_cod update_order
confirmed_once now later s s' o pk e =
    let after : Order = record o { payment_status = paid; status = delivered; updated_at = now } in
    let s1 : Shop = record s { orders = replace_first (is_order o.id) after s.orders } in
    let settle : PaymentReconciliation → PaymentReconciliation =
      λ x. record x { status = matched } in
    elim (Bool-cases (is_cod o.payment_method)) [
      | inr other ↦ ground arith
      | inl cash ↦ elim (Bool-cases (is_paid o)) [
        | inl done ↦ ground arith
        | inr due ↦ elim (Result-cases (upsert_reconciliation (cod_reconciliation o) settle s1)) [
          | inr (x, u) ↦ ground arith
          | inl ((x, s2), u) ↦
              let (orders, books) =
                upsert_reconciliation_keeps (cod_reconciliation o) x settle s1 s2 u in
              let reads : find_first (is_order o.id) s1.orders ≡ some after =
                find_first-replace_first_self (is_order o.id) after s.orders o pk
                  (find_first-test (is_order o.id) s.orders o pk) in
              (
                cash,
                due,
                ground (arith, books),
                ground (arith, orders, reads),
                ground (arith, orders, reads),
              )
        ]
      ]
    ]

verdict_iff : (a b : ℕ) → (verdict (distance a b) ≡ matched) ↔ ((a < b + cent) × (b < a + cent))
verdict_iff a b = ground arith

assess_amount :
    (ref : Reference) (order : Option ℕ) (amount : ℕ) (o : Option Order)
    → (assess ref order amount o).gateway_amount ≡ amount
assess_amount ref order amount none = refl
assess_amount ref order amount (some o) = refl

-- What a payment is recorded as, whether its reference was known or not.
recorded_status :
    (ref : Reference) (order : Option ℕ) (amount : ℕ) (s s' : Shop) (r : PaymentReconciliation)
    → record_gateway_payment ref order amount s ≡ ok (r, s')
    → (r.status ≡ (assess ref order amount (find_order order s)).status)
      × (r.gateway_amount ≡ amount)
unfolding record_gateway_payment upsert_reconciliation
recorded_status ref order amount s s' r e =
    let x : PaymentReconciliation = assess ref order amount (find_order order s) in
    let keeps : x.gateway_amount ≡ amount = assess_amount ref order amount (find_order order s) in
    elim (Option-cases (find_first (has_ref x.gateway_ref) s.reconciliations)) [
      | inr (y, h) ↦ ground (arith, keeps)
      | inl n ↦ elim (Bool-cases (any (is_for x.order_id) s.reconciliations)) [
        | inl taken ↦ ground arith
        | inr free ↦ ground (arith, keeps)
      ]
    ]

-- A gateway payment for an order that exists is recorded with the amount that was paid, and as
-- MATCHED exactly if that is within a cent of the order's total, whether its reference is new or
-- known.
pub recorded_as_matched :
    (ref : Reference) (i amount : ℕ) (s s' : Shop) (r : PaymentReconciliation) (o : Order)
    → find_first (is_order i) s.orders ≡ some o
    → record_gateway_payment ref (some i) amount s ≡ ok (r, s')
    → (r.gateway_amount ≡ amount)
      × ((r.status ≡ matched) ↔ ((amount < o.total + cent) × (o.total < amount + cent)))
recorded_as_matched ref i amount s s' r o h e =
    let (status, paid_amount) = recorded_status ref (some i) amount s s' r e in
    (
      paid_amount,
      subst (λ st. (st ≡ matched) ↔ ((amount < o.total + cent) × (o.total < amount + cent)))
          (sym (rw h at status)) (verdict_iff amount o.total),
    )
