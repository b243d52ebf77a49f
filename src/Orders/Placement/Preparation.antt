-- ===== src/Orders/Placement/Preparation.antt =====
-- The checks of placeOrder in backend/src/orders/orders.service.ts before its transaction.
use shop_verse.Base.{
  ℕ, ◌*◌, ◌≤◌, ◌≡◌, Option, none, some, ◌==◌, arith, ok, inl, inr, Bool-cases, Result-cases,
  Option-cases, find_first,
}
use shop_verse.Coupons.{Promotions, Coupon, has_code, validate_coupon, apply_discount}
use shop_verse.Coupons.Limits.{discount_bounded}
use shop_verse.Reservation.{CartReservation}
use shop_verse.Reservation.Checkout.{
  Validation, valid, missing, not_owner, ran_out, not_active, price_drift, validate_for_checkout,
}
use shop_verse.Orders.Pricing.{quote, get_store_config}
use shop_verse.Orders.Tables.{Shop, reservation_db}
use shop_verse.Orders.Placement.{
  Environment, PlaceOrder, Draft, prepare, require_valid, discount_of, locked_total,
}

validate_coupon_lem :
    (now code amount : ℕ) (user : Option ℕ) (s s' : Promotions) (n : ℕ) (c : Coupon)
    → validate_coupon now code amount user s ≡ ok ((n, c), s')
    → s' ≡ s
unfolding validate_coupon
validate_coupon_lem now code amount user s s' n c e =
    elim (Option-cases (find_first (has_code code) s.coupons)) [
      | inl k ↦ ground arith
      | inr (x, f) ↦ ground arith
    ]

apply_discount_lem :
    (now code amount : ℕ) (user : Option ℕ) (s s' : Promotions) (n : ℕ)
    → apply_discount now code amount user s ≡ ok (n, s')
    → (s' ≡ s) × (n ≤ amount * 100)
unfolding apply_discount
apply_discount_lem now code amount user s s' n e =
    elim (Result-cases (validate_coupon now code amount user s)) [
      | inr (x, v) ↦ ground arith
      | inl (((k, c), t), v) ↦
          ground
            (arith, validate_coupon_lem now code amount user s t k c v, discount_bounded c amount)
    ]

pub discount_of_lem :
    (now amount : ℕ) (code user : Option ℕ) (s s' : Shop) (n : ℕ)
    → discount_of now amount code user s ≡ ok (n, s')
    → (s' ≡ s) × (n ≤ amount * 100)
discount_of_lem now amount none user s s' n e = ground arith
discount_of_lem now amount (some code) user s s' n e =
    elim (Result-cases (apply_discount now code amount user s.promotions)) [
      | inr (x, v) ↦ ground arith
      | inl ((k, p), v) ↦ ground (arith, apply_discount_lem now code amount user s.promotions p k v)
    ]

require_valid_lem :
    (v : Validation) (s s' : Shop) (r : CartReservation)
    → require_valid v s ≡ ok (r, s')
    → (v ≡ valid r) × (s' ≡ s)
require_valid_lem (valid q) s s' r e = ground arith
require_valid_lem missing s s' r e = ground arith
require_valid_lem not_owner s s' r e = ground arith
require_valid_lem ran_out s s' r e = ground arith
require_valid_lem (not_active x) s s' r e = ground arith
require_valid_lem (price_drift x) s s' r e = ground arith

-- What is known of a draft that passed the checks.
pub record IsPrepared (env : Environment) (now user : ℕ) (dto : PlaceOrder) (s : Shop) (d : Draft)
    : Type 0 where
  pub checked :
      validate_for_checkout env.product dto.reservation_id user now (reservation_db s)
      ≡ valid d.reservation
  pub discount : ℕ
  pub discount_bound : discount ≤ locked_total d.reservation.items * 100
  pub amounts :
      d.amounts
      ≡ quote env.tax_strategy
          (get_store_config env.settings)
          (locked_total d.reservation.items * 100)
          discount

pub prepare_lem :
    (env : Environment) (now user : ℕ) (dto : PlaceOrder) (s s' : Shop) (d : Draft)
    → prepare env now user dto s ≡ ok (d, s')
    → (s' ≡ s) × IsPrepared env now user dto s d
unfolding prepare
prepare_lem env now user dto s s' d e = elim (Bool-cases env.is_blocked) [
  | inl b ↦ ground arith
  | inr b ↦ elim (Bool-cases (dto.reservation_id == 0)) [
    | inl z ↦ ground arith
    | inr z ↦
        let v : Validation =
          validate_for_checkout env.product dto.reservation_id user now (reservation_db s) in
        elim (Result-cases (require_valid v s)) [
          | inr (x, q) ↦ ground arith
          | inl ((r, s1), q) ↦ elim (Bool-cases env.has_address) [
            | inr a ↦ ground arith
            | inl a ↦
                elim (Result-cases
                  (discount_of now (locked_total r.items) dto.coupon_code (some user) s1)) [
                    | inr (x, k) ↦ ground arith
                    | inl ((n, s2), k) ↦ elim (Bool-cases (env.hook_rejects r)) [
                      | inl h ↦ ground arith
                      | inr h ↦
                          let (v_ok, s1_same) = require_valid_lem v s s1 r q in
                          let (s2_same, bound) =
                            discount_of_lem now (locked_total r.items) dto.coupon_code (some user)
                              s1 s2 n k in
                          (
                            ground (arith, s1_same, s2_same),
                            record {
                              checked = ground (arith, v_ok);
                              discount = n;
                              discount_bound = ground (arith, bound);
                              amounts = ground arith;
                            },
                          )
                    ]
                  ]
          ]
        ]
  ]
]
