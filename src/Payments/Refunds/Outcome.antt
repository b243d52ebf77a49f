-- ===== src/Payments/Refunds/Outcome.antt =====
-- How a refund to the original payment ends (backend/src/payments/payments.service.ts).
use shop_verse.Base.{
  ℕ, ◌+◌, ◌<◌, ◌≡◌, ◌⊎◌, ◌==◌, Bool-cases, check_violation, refl, true, Option, none, some,
  find_first, arith, Result, ok, err, inl, inr, subst, Option-cases, bad_request, find_first-test,
  find_first-replace_first_self,
}
use shop_verse.Wallet.Tables.{Reference, refund_stripe}
use shop_verse.Orders.Tables.{
  Shop, Order, RefundRequest, cancelling, completed, failed, in_process, is_order,
}
use shop_verse.Payments.Refunds.{
  has_reference, check_refund, put_request, start_request, update_request, restore_status,
  finish_refund, refund_stripe_payment, new_request,
}
use shop_verse.Payments.Refunds.Claims.{check_refund_lem, claimed, claim_refund-found}

has_reference-new :
    (now : ℕ) (o : Order) → has_reference (refund_stripe o.id) (new_request now o) ≡ true
has_reference-new now o = ground arith

-- The request of the order is there when Stripe is called, and IN_PROCESS; the orders are as
-- before.
put_request_lem :
    (now : ℕ) (o : Order) (s : Shop)
    → (r : RefundRequest) × (find_first
          (has_reference (refund_stripe o.id))
          (put_request now o s).refunds
        ≡ some r)
      × (has_reference (refund_stripe o.id) r ≡ true)
      × (r.status ≡ in_process)
      × ((put_request now o s).orders ≡ s.orders)
unfolding put_request
put_request_lem now o s =
    let ref = refund_stripe o.id in
    elim (Option-cases (find_first (has_reference ref) s.refunds)) [
      | inl n ↦ (
        new_request now o,
        ground (arith, has_reference-new now o),
        has_reference-new now o,
        refl,
        ground arith,
      )
      | inr (r, f) ↦
          let r' : RefundRequest = record r {
            status = in_process;
            retry_count = r.retry_count + 1;
            updated_at = now;
          } in
          let own : has_reference ref r' ≡ true =
            ground (arith, find_first-test (has_reference ref) s.refunds r f) in
          (
            r',
            ground (arith, find_first-replace_first_self (has_reference ref) r' s.refunds r f own),
            own,
            refl,
            ground arith,
          )
    ]

update_request_lem :
    (f : RefundRequest → RefundRequest) (ref : Reference) (s : Shop) (r : RefundRequest)
    → find_first (has_reference ref) s.refunds ≡ some r
    → has_reference ref (f r) ≡ true
    → (find_first (has_reference ref) (update_request f ref s).refunds ≡ some (f r))
      × ((update_request f ref s).orders ≡ s.orders)
unfolding update_request
update_request_lem f ref s r e own = (
  ground (arith, find_first-replace_first_self (has_reference ref) (f r) s.refunds r e own),
  ground arith,
)

restore_status_lem :
    (now : ℕ) (o x : Order) (s : Shop)
    → find_first (is_order o.id) s.orders ≡ some x
    → x.id ≡ o.id
    → x.status ≡ cancelling
    → (find_first (is_order o.id) (restore_status now o s).orders
        ≡ some (record x { status = o.status; updated_at = now }))
      × ((restore_status now o s).refunds ≡ s.refunds)
unfolding restore_status
restore_status_lem now o x s f k c =
    let y : Order = record x { status = o.status; updated_at = now } in
    (
      ground (arith, find_first-replace_first_self (is_order o.id) y s.orders x f (ground arith)),
      ground arith,
    )

-- What a refund leaves: the order, and the request with the reference of the order.
pub record IsAnswered (s : Shop) (order : Order) (r : RefundRequest) : Type 0 where
  pub order_row : find_first (is_order order.id) s.orders ≡ some order
  pub request_row : find_first (has_reference (refund_stripe order.id)) s.refunds ≡ some r

-- How the call ends, by the answer of Stripe.
abbrev pub Ends : (now : ℕ) → Option ℕ → Order → RefundRequest → Result ℕ × Shop → Type 0
Ends now (some id) o r (answer, s) =
    (answer ≡ ok id)
    × IsAnswered s (record o { status = cancelling; updated_at = now }) r
    × (r.status ≡ completed)
    × (r.gateway_ref ≡ some id)
Ends now none o r (answer, s) =
    (answer ≡ err bad_request)
    × IsAnswered s (record o { updated_at = now }) r
    × (r.status ≡ failed)

-- The two ways to end a refund that was claimed and started.
finish_refund_lem :
    (now : ℕ) (o : Order) (answer : Option ℕ) (s : Shop)
    → find_first (is_order o.id) s.orders ≡ some o
    → (r : RefundRequest) × Ends now answer o r
        (finish_refund now o answer (put_request now o (claimed now o s)))
unfolding finish_refund
finish_refund_lem now o answer s found =
    let x : Order = record o { status = cancelling; updated_at = now } in
    let s2 : Shop = put_request now o (claimed now o s) in
    let (r, fr, own, st, kept) = put_request_lem now o (claimed now o s) in
    let reads : find_first (is_order o.id) s2.orders ≡ some x = ground (
      arith,
      kept,
      find_first-replace_first_self (is_order o.id) x s.orders o found
          (find_first-test (is_order o.id) s.orders o found),
    ) in
    elim answer as (λ a. (q : RefundRequest) × Ends now a o q (finish_refund now o a s2)) [
      | none ↦
          let s3 : Shop = restore_status now o s2 in
          let lost : RefundRequest → RefundRequest =
            λ q. record q { status = failed; updated_at = now } in
          let (row, refunds) = restore_status_lem now o x s2 reads refl refl in
          let (request, orders) =
            update_request_lem lost (refund_stripe o.id) s3 r (ground (arith, refunds, fr)) own in
          (
            lost r,
            (refl, record { order_row = ground (arith, orders, row); request_row = request }, refl),
          )
      | some id ↦
          let done : RefundRequest → RefundRequest =
            λ q. record q { status = completed; gateway_ref = some id; updated_at = now } in
          let (request, orders) = update_request_lem done (refund_stripe o.id) s2 r fr own in
          (
            done r,
            (
              refl,
              record { order_row = ground (arith, orders, reads); request_row = request },
              refl,
              refl,
            ),
          )
    ]

-- An order of total 0: it was claimed, and then there is no request for it.
pub record IsUnstarted (now : ℕ) (o : Order) (s s' : Shop) : Type 0 where
  pub nothing_due : o.total ≡ 0
  pub order_row :
      find_first (is_order o.id) s'.orders
      ≡ some (record o { status = cancelling; updated_at = now })
  pub requests_kept : s'.refunds ≡ s.refunds

-- A refund that passes the checks. If the total of the order is 0, the write of the request
-- violates a CHECK: the call throws, the order is left CANCELLING, and the requests are as before.
-- Else, if Stripe refunds, the order is left CANCELLING and still PAID, for the webhook to end, and
-- its request is COMPLETED with the id of the refund. If Stripe throws, the refund is a bad
-- request, the order has its old status again, and its request is FAILED.
pub refund_outcome :
    (now user order : ℕ) (answer : Option ℕ) (s : Shop) (o : Order)
    → check_refund user order s ≡ ok (o, s)
    → (((refund_stripe_payment now user order answer s).0 ≡ err check_violation)
        × IsUnstarted now o s (refund_stripe_payment now user order answer s).1)
      ⊎ ((0 < o.total)
          × (r : RefundRequest) × Ends now answer o r
              (refund_stripe_payment now user order answer s))
unfolding refund_stripe_payment finish_refund start_request
refund_outcome now user order answer s o e =
    let (same, k) = check_refund_lem user order s s o e in
    let found : find_first (is_order o.id) s.orders ≡ some o = ground (arith, k.found, k.key) in
    let won = claim_refund-found now o s found k.paid_for in
    elim (Bool-cases (o.total == 0)) [
      | inl free ↦
          let x : Order = record o { status = cancelling; updated_at = now } in
          let ran : refund_stripe_payment now user order answer s
              ≡ (err check_violation, claimed now o s) =
            ground (arith, won) in
          inl (
            ground (arith, ran),
            record {
              nothing_due = ground arith;
              order_row = ground (
                arith,
                ran,
                find_first-replace_first_self (is_order o.id) x s.orders o found
                    (find_first-test (is_order o.id) s.orders o found),
              );
              requests_kept = ground (arith, ran);
            },
          )
      | inr due ↦
          let s2 : Shop = put_request now o (claimed now o s) in
          let (r, m) = finish_refund_lem now o answer s found in
          let ran : finish_refund now o answer s2 ≡ refund_stripe_payment now user order answer s =
            ground (arith, won) in
          inr (ground arith, r, subst (Ends now answer o r) ran m)
    ]
