-- ===== src/Payments/Webhook/Invariants.antt =====
-- What every event keeps (backend/src/payments/payments.service.ts).
use shop_verse.Base.{
  ℕ, refl, Option, none, some, List, [], ◌∷◌, any, map, find_first, filter_where, update_where, ltb,
  arith, inl, inr, subst, sym, Bool-cases, Option-cases, Result-cases,
}
use shop_verse.Wallet.Tables.{Books, wallet_reversal, refund_order, refund_chargeback, credit_type}
use shop_verse.Wallet.{credit, debit, belongs}
use shop_verse.Wallet.Conservation
use shop_verse.Wallet.Conservation.{crediting, debiting, serve-IsSound}
use shop_verse.Orders.Tables.{Shop, Order, update_order, pending, cancelling, unpaid}
use shop_verse.Orders.Placement.Invariants.{IsWellFormed}
use shop_verse.Orders.Settlement.{is_for}
use shop_verse.Payments.Webhook.{
  StripeEvent, payment_succeeded, payment_failed, dispute_created, charge_refunded, other_event,
  on_succeeded, reverse_wallet, track, on_failed, claw_back, dispute_one, dispute_all, on_dispute,
  refund_one, refund_all, on_refunded, handle_webhook, is_paid_by, is_refundable, is_due,
  as_refunded, resolve,
}
use shop_verse.Payments.Webhook.Captures.{on_succeeded-cases}
use shop_verse.Payments.Webhook.MoneyOnly.{
  IsMoneyOnly, IsMoneyOnly-refl, IsMoneyOnly-trans, IsMoneyOnly-IsWellFormed,
  with_books-IsMoneyOnly, track-IsMoneyOnly, update_order-IsMoneyOnly,
}

on_succeeded-IsMoneyOnly :
    (now intent amount : ℕ) (order : Option ℕ) (s : Shop)
    → IsMoneyOnly s (on_succeeded now intent amount order s).1
on_succeeded-IsMoneyOnly now intent amount order s =
    elim (on_succeeded-cases now intent amount order s) [
      | inl (n, e) ↦ IsMoneyOnly-refl s (on_succeeded now intent amount order s).1 (ground arith)
      | inr (inl (o, f, taken, e)) ↦
          IsMoneyOnly-refl s (on_succeeded now intent amount order s).1 (ground arith)
      | inr (inr (s', e, c)) ↦
          let kept : IsMoneyOnly s s' = record {
            stock = c.stock;
            reservations = c.reservations;
            next_reservation = c.next_reservation;
            promotions = c.promotions;
            booked = λ h. subst Conservation.IsSound (sym c.books) h;
          } in
          subst (IsMoneyOnly s) (ground arith) kept
    ]

reverse_wallet-IsMoneyOnly : (o : Order) (s : Shop) → IsMoneyOnly s (reverse_wallet o s).1
unfolding reverse_wallet
reverse_wallet-IsMoneyOnly o s = elim (Option-cases o.user_id) [
  | inl n ↦ IsMoneyOnly-refl s (reverse_wallet o s).1 (ground arith)
  | inr (user, f) ↦
      let used : ℕ = o.wallet_amount_used in
      let b : Books = (credit user used (wallet_reversal o.id) s.books).1 in
      elim (Bool-cases (ltb 0 used)) [
        | inl t ↦ subst (IsMoneyOnly s) (ground arith) (
            with_books-IsMoneyOnly s b
              (serve-IsSound (crediting user used (wallet_reversal o.id)) s.books))
        | inr z ↦ IsMoneyOnly-refl s (reverse_wallet o s).1 (ground arith)
      ]
]

claw_back-IsMoneyOnly : (user order : ℕ) (s : Shop) → IsMoneyOnly s (claw_back user order s)
unfolding claw_back
claw_back-IsMoneyOnly user order s =
    elim (Option-cases
      (find_first (belongs s.books user (refund_order order) credit_type) s.books.transactions)) [
        | inl n ↦ IsMoneyOnly-refl s (claw_back user order s) (ground arith)
        | inr (t, f) ↦
            let b : Books = (debit user t.amount (refund_chargeback order) s.books).1 in
            subst (IsMoneyOnly s) (ground arith) (
              with_books-IsMoneyOnly s b
                (serve-IsSound (debiting user t.amount (refund_chargeback order)) s.books))
      ]

on_failed-IsMoneyOnly :
    (now : ℕ) (order : Option ℕ) (s : Shop) → IsMoneyOnly s (on_failed now order s).1
unfolding on_failed
on_failed-IsMoneyOnly now none s = IsMoneyOnly-refl s s refl
on_failed-IsMoneyOnly now (some id) s =
    let mark : Order → Order = λ x. record x { payment_status = unpaid } in
    elim (Result-cases (update_order now id mark s)) [
      | inr (e, q) ↦ IsMoneyOnly-refl s (on_failed now (some id) s).1 (ground arith)
      | inl ((o, s1), q) ↦
          let s2 : Shop = track now id pending s1 in
          let m1 = update_order-IsMoneyOnly now id mark s s1 o q in
          let m2 = IsMoneyOnly-trans s s1 s2 m1 (track-IsMoneyOnly now id pending s1) in
          let m3 =
            IsMoneyOnly-trans s s2 (reverse_wallet o s2).1 m2 (reverse_wallet-IsMoneyOnly o s2) in
          subst (IsMoneyOnly s) (ground arith) m3
    ]

dispute_one-IsMoneyOnly : (now : ℕ) (o : Order) (s : Shop) → IsMoneyOnly s (dispute_one now o s)
unfolding dispute_one
dispute_one-IsMoneyOnly now o s = elim (Option-cases o.user_id) [
  | inl n ↦ IsMoneyOnly-refl s (dispute_one now o s) (ground arith)
  | inr (user, f) ↦
      let s1 : Shop = claw_back user o.id s in
      let m =
        IsMoneyOnly-trans s s1 (track now o.id cancelling s1) (claw_back-IsMoneyOnly user o.id s)
          (track-IsMoneyOnly now o.id cancelling s1) in
      subst (IsMoneyOnly s) (ground arith) m
]

dispute_all-IsMoneyOnly :
    (now : ℕ) (os : List Order) (s : Shop) → IsMoneyOnly s (dispute_all now os s)
unfolding dispute_all
dispute_all-IsMoneyOnly now [] s = IsMoneyOnly-refl s s refl
dispute_all-IsMoneyOnly now (o ∷ rest) s =
    let s1 : Shop = dispute_one now o s in
    IsMoneyOnly-trans s s1 (dispute_all now rest s1) (dispute_one-IsMoneyOnly now o s)
      (dispute_all-IsMoneyOnly now rest s1)

refund_one-IsMoneyOnly : (now id : ℕ) (s : Shop) → IsMoneyOnly s (refund_one now id s)
unfolding refund_one
refund_one-IsMoneyOnly now id s = elim (Bool-cases (any (is_due id) s.orders)) [
  | inr n ↦ IsMoneyOnly-refl s (refund_one now id s) (ground arith)
  | inl t ↦
      let s1 : Shop = record s {
        orders = update_where (is_due id) (as_refunded now) s.orders;
        reconciliations = update_where (is_for (some id)) resolve s.reconciliations;
      } in
      let kept : IsMoneyOnly s s1 = record {
        stock = refl;
        reservations = refl;
        next_reservation = refl;
        promotions = refl;
        booked = λ h. h;
      } in
      subst (IsMoneyOnly s) (ground arith) kept
]

refund_all-IsMoneyOnly : (now : ℕ) (ids : List ℕ) (s : Shop) → IsMoneyOnly s (refund_all now ids s)
unfolding refund_all
refund_all-IsMoneyOnly now [] s = IsMoneyOnly-refl s s refl
refund_all-IsMoneyOnly now (id ∷ ids) s =
    let s1 : Shop = refund_one now id s in
    IsMoneyOnly-trans s s1 (refund_all now ids s1) (refund_one-IsMoneyOnly now id s)
      (refund_all-IsMoneyOnly now ids s1)

handle_webhook-IsMoneyOnly :
    (now : ℕ) (event : Option StripeEvent) (s : Shop) → IsMoneyOnly s (handle_webhook now event s).1
unfolding handle_webhook on_dispute on_refunded
handle_webhook-IsMoneyOnly now none s = IsMoneyOnly-refl s s refl
handle_webhook-IsMoneyOnly now (some (payment_succeeded intent amount order)) s =
    on_succeeded-IsMoneyOnly now intent amount order s
handle_webhook-IsMoneyOnly now (some (payment_failed order)) s = on_failed-IsMoneyOnly now order s
handle_webhook-IsMoneyOnly now (some (dispute_created none)) s = IsMoneyOnly-refl s s refl
handle_webhook-IsMoneyOnly now (some (dispute_created (some i))) s =
    dispute_all-IsMoneyOnly now (filter_where (is_paid_by i) s.orders) s
handle_webhook-IsMoneyOnly now (some (charge_refunded none)) s = IsMoneyOnly-refl s s refl
handle_webhook-IsMoneyOnly now (some (charge_refunded (some i))) s =
    refund_all-IsMoneyOnly now (map (λ o. o.id) (filter_where (is_refundable i) s.orders)) s
handle_webhook-IsMoneyOnly now (some other_event) s = IsMoneyOnly-refl s s refl

-- A delivery of a webhook: when, and the event if the signature is good.
pub record Delivery : Type 0 where
  pub now : ℕ
  pub event : Option StripeEvent

abbrev pub deliver_all : List Delivery → Shop → Shop
deliver_all [] s = s
deliver_all (d ∷ ds) s = deliver_all ds (handle_webhook d.now d.event s).1

-- Any sequence of webhooks, in any order, repeated or forged, keeps the books of the wallets
-- balanced and the invariants of the stock, the reservations and the coupons.
pub deliver_all-IsWellFormed :
    (ds : List Delivery) (s : Shop) → IsWellFormed s → IsWellFormed (deliver_all ds s)
deliver_all-IsWellFormed [] s h = h
deliver_all-IsWellFormed (d ∷ ds) s h =
    let s1 : Shop = (handle_webhook d.now d.event s).1 in
    deliver_all-IsWellFormed ds s1
      (IsMoneyOnly-IsWellFormed s s1 (handle_webhook-IsMoneyOnly d.now d.event s) h)
