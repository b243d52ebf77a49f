-- ===== src/Payments/Webhook/Captures.antt =====
-- The deliveries of `payment_intent.succeeded` to backend/src/payments/payments.service.ts.
use shop_verse.Base.{
  ℕ, ◌≡◌, ◌⊎◌, refl, true, ◌||◌, Option, none, some, ◌∷◌, any, find_first, find_first-test,
  replace_first, arith, ok, err, inl, inr, Bool-cases, Option-cases, Result-cases, transact,
  unique_violation, unique_violation,
}
use shop_verse.Wallet.Tables.{named}
use shop_verse.Orders.Tables.{
  is_order, PaymentReconciliation, paid, confirmed, Shop, Order, update_order,
}
use shop_verse.Orders.Writes.{update_order_lem}
use shop_verse.Orders.Settlement.{has_ref, is_for, find_order}
use shop_verse.Payments.Webhook.{captured, create_reconciliation, capture, on_succeeded}

abbrev pub paid_order : Order → Order
paid_order x = record x { payment_status = paid; status = confirmed }

create_reconciliation-taken :
    (r : PaymentReconciliation) (s : Shop)
    → any (has_ref r.gateway_ref) s.reconciliations ≡ true
    → create_reconciliation r s ≡ err unique_violation
unfolding create_reconciliation
create_reconciliation-taken r s h = rw h refl

create_reconciliation-cases :
    (r : PaymentReconciliation) (s : Shop)
    → (create_reconciliation r s ≡ err unique_violation)
      ⊎ (create_reconciliation r s ≡ ok (tt, record s { reconciliations = r ∷ s.reconciliations }))
unfolding create_reconciliation
create_reconciliation-cases r s =
    elim (Bool-cases (
      any (has_ref r.gateway_ref) s.reconciliations || any (is_for r.order_id) s.reconciliations)) [
        | inl taken ↦ inl (rw taken refl)
        | inr free ↦ inr (rw free refl)
      ]

capture-refused :
    (now intent amount : ℕ) (o : Order) (s : Shop)
    → create_reconciliation (captured intent amount o) s ≡ err unique_violation
    → transact (capture now intent amount o) s ≡ (err unique_violation, s)
unfolding capture
capture-refused now intent amount o s h = ground arith

-- What a capture leaves alone, and the claim that it leaves behind.
pub record IsCaptured (intent : ℕ) (s s' : Shop) : Type 0 where
  pub claimed : any (has_ref (named intent)) s'.reconciliations ≡ true
  pub stock : s'.stock ≡ s.stock
  pub books : s'.books ≡ s.books
  pub reservations : s'.reservations ≡ s.reservations
  pub promotions : s'.promotions ≡ s.promotions
  pub next_reservation : s'.next_reservation ≡ s.next_reservation

has_ref_self :
    (intent : ℕ) (r : PaymentReconciliation)
    → r.gateway_ref ≡ named intent
    → has_ref (named intent) r ≡ true
has_ref_self intent r h = ground arith

capture_lem :
    (now intent amount : ℕ) (o : Order) (s s' : Shop) (u : Unit {0})
    → capture now intent amount o s ≡ ok (u, s')
    → IsCaptured intent s s'
unfolding capture
capture_lem now intent amount o s s' u e =
    let r = captured intent amount o in
    let s1 : Shop = record s { reconciliations = r ∷ s.reconciliations } in
    elim (create_reconciliation-cases r s) [
      | inl taken ↦ ground arith
      | inr free ↦ elim (Result-cases (update_order now o.id paid_order s1)) [
        | inr (x, v) ↦ ground arith
        | inl ((o', s2), v) ↦
            let (before, f, eo, es) = update_order_lem now o.id paid_order s1 o' s2 v in
            record {
              claimed = ground (arith, es, has_ref_self intent r refl);
              stock = ground (arith, es);
              books = ground (arith, es);
              reservations = ground (arith, es);
              promotions = ground (arith, es);
              next_reservation = ground (arith, es);
            }
      ]
    ]

update_order-found :
    (now id : ℕ) (f : Order → Order) (s : Shop) (o : Order)
    → find_first (is_order id) s.orders ≡ some o
    → (o' : Order) × (s' : Shop) × (update_order now id f s ≡ ok (o', s'))
unfolding update_order
update_order-found now id f s o h = (
  record (f o) { updated_at = now },
  record s { orders = replace_first (is_order id) (record (f o) { updated_at = now }) s.orders },
  ground arith,
)

capture-free :
    (now intent amount : ℕ) (o x : Order) (s : Shop)
    → create_reconciliation (captured intent amount o) s
      ≡ ok (tt, record s { reconciliations = captured intent amount o ∷ s.reconciliations })
    → find_first (is_order o.id) s.orders ≡ some x
    → (s' : Shop) × (capture now intent amount o s ≡ ok (tt, s'))
unfolding capture
capture-free now intent amount o x s free h =
    let s1 : Shop = record s { reconciliations = captured intent amount o ∷ s.reconciliations } in
    let (o', s2, e) = update_order-found now o.id paid_order s1 x h in
    (
      record s2 {
        tracking = record { order_id = o.id; status = confirmed; created_at = now } ∷ s2.tracking;
      },
      ground (arith, e),
    )

-- An intent with no order, one that has been seen before, and a new one.
pub on_succeeded-cases :
    (now intent amount : ℕ) (order : Option ℕ) (s : Shop)
    → (find_order order s ≡ none) × (on_succeeded now intent amount order s ≡ (ok tt, s))
      ⊎ ((o : Order) × (find_order order s ≡ some o)
          × (create_reconciliation (captured intent amount o) s ≡ err unique_violation)
          × (on_succeeded now intent amount order s ≡ (ok tt, s)))
      ⊎ ((s' : Shop) × (on_succeeded now intent amount order s ≡ (ok tt, s'))
          × IsCaptured intent s s')
unfolding on_succeeded
on_succeeded-cases now intent amount none s = inl (refl, refl)
on_succeeded-cases now intent amount (some i) s =
    elim (Option-cases (find_first (is_order i) s.orders)) [
      | inl n ↦ inl (n, ground arith)
      | inr (o, f) ↦ elim (create_reconciliation-cases (captured intent amount o) s) [
        | inl taken ↦
            inr (inl (o, f, taken, ground (arith, capture-refused now intent amount o s taken)))
        | inr free ↦
            let same : find_first (is_order o.id) s.orders ≡ some o =
              ground (arith, find_first-test (is_order i) s.orders o f) in
            let (s', e) = capture-free now intent amount o o s free same in
            inr (inr (s', ground arith, capture_lem now intent amount o s s' tt e))
      ]
    ]

on_succeeded-again :
    (now intent amount : ℕ) (order : Option ℕ) (s : Shop)
    → any (has_ref (named intent)) s.reconciliations ≡ true
    → on_succeeded now intent amount order s ≡ (ok tt, s)
unfolding on_succeeded
on_succeeded-again now intent amount order s h = elim (Option-cases (find_order order s)) [
  | inl n ↦ ground arith
  | inr (o, f) ↦
      let taken = create_reconciliation-taken (captured intent amount o) s h in
      ground (arith, capture-refused now intent amount o s taken)
]

on_succeeded-none :
    (now intent amount : ℕ) (order : Option ℕ) (s : Shop)
    → find_order order s ≡ none
    → on_succeeded now intent amount order s ≡ (ok tt, s)
unfolding on_succeeded
on_succeeded-none now intent amount order s h = ground arith

on_succeeded-refused :
    (now intent amount : ℕ) (order : Option ℕ) (o : Order) (s : Shop)
    → find_order order s ≡ some o
    → create_reconciliation (captured intent amount o) s ≡ err unique_violation
    → on_succeeded now intent amount order s ≡ (ok tt, s)
unfolding on_succeeded
on_succeeded-refused now intent amount order o s f h =
    ground (arith, capture-refused now intent amount o s h)

-- A delivery of `payment_intent.succeeded` is always answered with success, and to deliver it
-- again, at any time, changes nothing: no second reconciliation, status or tracking event.
pub captured_once :
    (now later intent amount : ℕ) (order : Option ℕ) (s : Shop)
    → let after = (on_succeeded now intent amount order s).1 in
      ((on_succeeded now intent amount order s).0 ≡ ok tt)
      × (on_succeeded later intent amount order after ≡ (ok tt, after))
captured_once now later intent amount order s =
    elim (on_succeeded-cases now intent amount order s) [
      | inl (n, e) ↦ (ground arith, ground (arith, on_succeeded-none later intent amount order s n))
      | inr (inl (o, f, taken, e)) ↦
          (ground arith, ground (arith, on_succeeded-refused later intent amount order o s f taken))
      | inr (inr (s', e, c)) ↦
          (ground arith, ground (arith, on_succeeded-again later intent amount order s' c.claimed))
    ]
