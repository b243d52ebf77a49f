-- ===== src/Payments/Refunds/Claims.antt =====
-- The checks and the claim of a refund, and two of them at the same time
-- (backend/src/payments/payments.service.ts).
use shop_verse.Base.{
  ℕ, ◌≡◌, true, false, ◌&&◌, ◌||◌, some, find_first, replace_first, arith, ok, err, inl, inr,
  Option-cases, Bool-cases, bad_request, find_first-test, find_first-replace_first_self,
}
use shop_verse.Orders.Tables.{Shop, Order, cancelling, refunded, is_status, is_order, is_owner}
use shop_verse.Orders.Lifecycle.{find_own}
use shop_verse.Payments.Intents.{is_paid}
use shop_verse.Payments.Refunds.{is_unset, check_refund, claim_refund}

-- What the checks leave to be true of the order.
pub record IsRefundable (user order : ℕ) (s : Shop) (o : Order) : Type 0 where
  pub found : find_first (is_order order) s.orders ≡ some o
  pub key : o.id ≡ order
  pub owned : is_owner user o.user_id ≡ true
  pub unset : is_unset o.payment_id ≡ false
  pub paid_for : is_paid o ≡ true
  pub calm : (is_status o.status cancelling || is_status o.status refunded) ≡ false

pub check_refund_lem :
    (user order : ℕ) (s s' : Shop) (o : Order)
    → check_refund user order s ≡ ok (o, s')
    → (s' ≡ s) × IsRefundable user order s o
unfolding check_refund find_own
check_refund_lem user order s s' o e = elim (Option-cases (find_first (is_order order) s.orders)) [
  | inl n ↦ ground arith
  | inr (x, f) ↦ elim (Bool-cases (is_owner user x.user_id)) [
    | inr other ↦ ground arith
    | inl own ↦ elim (Bool-cases (is_unset x.payment_id)) [
      | inl n ↦ ground arith
      | inr p ↦ elim (Bool-cases (is_paid x)) [
        | inr n ↦ ground arith
        | inl d ↦ elim (Bool-cases (is_status x.status cancelling || is_status x.status refunded)) [
          | inl busy ↦ ground arith
          | inr calm ↦
              let same : o ≡ x = ground arith in
              (
                ground arith,
                record {
                  found = ground (arith, same);
                  key = ground (arith, same, find_first-test (is_order order) s.orders x f);
                  owned = ground (arith, same);
                  unset = ground (arith, same);
                  paid_for = ground (arith, same);
                  calm = ground (arith, same);
                },
              )
        ]
      ]
    ]
  ]
]

abbrev pub claimed : (now : ℕ) → Order → Shop → Shop
claimed now o s = record s {
  orders =
      replace_first (is_order o.id) (record o { status = cancelling; updated_at = now }) s.orders;
}

-- A claim sets the order to CANCELLING.
pub claim_refund-found :
    (now : ℕ) (o : Order) (s : Shop)
    → find_first (is_order o.id) s.orders ≡ some o
    → is_paid o ≡ true
    → claim_refund now o s ≡ ok (tt, claimed now o s)
unfolding claim_refund
claim_refund-found now o s f p = ground arith

claim_refund-busy :
    (now : ℕ) (o x : Order) (s : Shop)
    → find_first (is_order o.id) s.orders ≡ some x
    → (is_status x.status o.status && is_paid x) ≡ false
    → claim_refund now o s ≡ err bad_request
unfolding claim_refund
claim_refund-busy now o x s f n = ground arith

-- Of two requests that both passed the checks on the same order, before either claimed it, only the
-- first goes on: the claim of the second is a bad request.
pub claimed_once :
    (now later user order : ℕ) (s : Shop) (o : Order)
    → check_refund user order s ≡ ok (o, s)
    → (s1 : Shop) × (claim_refund now o s ≡ ok (tt, s1))
      × (claim_refund later o s1 ≡ err bad_request)
claimed_once now later user order s o e =
    let (same, r) = check_refund_lem user order s s o e in
    let found : find_first (is_order o.id) s.orders ≡ some o = ground (arith, r.found, r.key) in
    let after : Order = record o { status = cancelling; updated_at = now } in
    (
      claimed now o s,
      claim_refund-found now o s found r.paid_for,
      claim_refund-busy later o after (claimed now o s)
          (find_first-replace_first_self (is_order o.id) after s.orders o found
            (find_first-test (is_order o.id) s.orders o found))
          (ground (arith, r.calm)),
    )
