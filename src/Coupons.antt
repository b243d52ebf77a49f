-- ===== src/Coupons.antt =====
-- backend/src/coupons/coupons.service.ts, and the use of a coupon inside the transactions of
-- placeOrder and placeGuestOrder (backend/src/orders/orders.service.ts). Amounts are in
-- ten-thousandths of the currency; a discount is in millionths, since a percentage is a whole
-- number.
pub mod Limits
pub mod Uses
mod Tests
use shop_verse.Base.{
  ℕ, ◌+◌, ◌*◌, min, Bool, true, false, not, ◌&&◌, ◌||◌, Option, none, some, List, [], ◌∷◌,
  find_first, replace_first, count_where, any, leb, ltb, ◌==◌, if◌then◌else◌, Result, ok, err,
  Error, Tx, ◌>>=◌, ◌>>◌, pure, throw_if, or_throw, not_found, bad_request, unique_violation,
}

pub data DiscountType : Type 0 where
  percentage fixed cashback : DiscountType

pub record Coupon : Type 0 where
  pub id : ℕ
  pub code : ℕ
  pub discount_type : DiscountType
  pub discount_value : ℕ
  pub min_order_amount : ℕ
  pub max_uses : Option ℕ
  pub max_uses_per_user : Option ℕ
  pub first_order_only : Bool
  pub used_count : ℕ
  pub expires_at : Option ℕ
  pub is_active : Bool

pub record CouponUsage : Type 0 where
  pub coupon_id : ℕ
  pub user_id : ℕ

-- `delivered_orders` counts the DELIVERED orders of a user.
pub record Promotions : Type 0 where
  pub coupons : List Coupon
  pub usages : List CouponUsage
  pub delivered_orders : ℕ → ℕ

abbrev pub has_code : ℕ → Coupon → Bool
has_code code c = code == c.code

abbrev pub is_usage : ℕ → ℕ → CouponUsage → Bool
is_usage coupon user u = coupon == u.coupon_id && user == u.user_id

unfoldable pub calc_discount : Coupon → ℕ → ℕ
calc_discount c amount = elim c.discount_type [
  | cashback ↦ 0
  | percentage ↦ min (amount * c.discount_value) (amount * 100)
  | fixed ↦ min c.discount_value amount * 100
]

unfoldable pub calc_cashback : Coupon → ℕ → ℕ
calc_cashback c amount = elim c.discount_type [
  | cashback ↦ min (amount * c.discount_value) (amount * 100)
  | percentage ↦ 0
  | fixed ↦ 0
]

-- `expiresAt < now`, and `usedCount >= maxUses`.
abbrev pub is_expired : ℕ → Option ℕ → Bool
is_expired now none = false
is_expired now (some t) = ltb t now

abbrev pub is_reached : ℕ → Option ℕ → Bool
is_reached n none = false
is_reached n (some limit) = leb limit n

-- The tests that need a user; a guest passes them.
abbrev pub check_user : Coupon → Option ℕ → Tx Promotions (Unit {0})
check_user c none s = ok (tt, s)
check_user c (some user) s =
    if is_reached (count_where (is_usage c.id user) s.usages) c.max_uses_per_user
      || (c.first_order_only && ltb 0 (s.delivered_orders user))
    then err bad_request
    else ok (tt, s)

unfoldable pub validate_coupon : (now code amount : ℕ) → Option ℕ → Tx Promotions (ℕ × Coupon)
validate_coupon now code amount user = do
  c ← λ s. or_throw (find_first (has_code code) s.coupons) not_found s
  throw_if (not c.is_active) not_found
  throw_if (is_expired now c.expires_at) bad_request
  throw_if (is_reached c.used_count c.max_uses) bad_request
  throw_if (ltb amount c.min_order_amount) bad_request
  check_user c user
  pure (calc_discount c amount, c)

unfoldable pub apply_discount : (now code amount : ℕ) → Option ℕ → Tx Promotions ℕ
apply_discount now code amount user s = elim (validate_coupon now code amount user s) [
  | err e ↦ err e
  | ok (checked, s') ↦ ok (calc_discount checked.1 amount, s')
]

-- The condition of the UPDATE: uses are left, and the coupon expires after now.
abbrev pub is_usable : ℕ → Coupon → Bool
is_usable now c =
    not (is_reached c.used_count c.max_uses)
    && elim c.expires_at [ none ↦ true | some t ↦ ltb now t ]

-- UPDATE "Coupon" SET "usedCount" = "usedCount" + 1 for a usable coupon with the code, or a throw.
unfoldable pub count_use : (now code : ℕ) → Tx Promotions Coupon
count_use now code s = elim (find_first (has_code code) s.coupons) [
  | none ↦ err bad_request
  | some c ↦
      if is_usable now c
      then ok (
        c,
        record s {
          coupons =
              replace_first (has_code code) (record c { used_count = c.used_count + 1 }) s.coupons;
        },
      )
      else err bad_request
]

-- couponUsage.create; a second use by the same user is a bad request.
unfoldable pub record_usage : (coupon user : ℕ) → Tx Promotions (Unit {0})
record_usage coupon user s =
    if any (is_usage coupon user) s.usages
    then err bad_request
    else ok (tt, record s { usages = record { coupon_id = coupon; user_id = user } ∷ s.usages })

-- The coupon's part of the transaction of an order. A guest's use is counted only.
unfoldable pub use_coupon : (now code : ℕ) → Option ℕ → Tx Promotions (Unit {0})
use_coupon now code user s = elim (count_use now code s) [
  | err e ↦ err e
  | ok (c, s') ↦ elim user [ none ↦ ok (tt, s') | some u ↦ record_usage c.id u s' ]
]
