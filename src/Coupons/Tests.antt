-- ===== src/Coupons/Tests.antt =====
-- A coupon of ten per cent that may be used twice, and three times by each user.
use shop_verse.Base.{
  ◌+◌, ◌*◌, ◌≤◌, ◌≡◌, refl, true, false, none, some, List, [], ◌∷◌, arith, ok, err, bad_request,
}
use shop_verse.Coupons.{
  Promotions, Coupon, percentage, calc_discount, calc_cashback, count_use, record_usage, use_coupon,
  validate_coupon, apply_discount,
}
use shop_verse.Coupons.Limits.{discount_bounded, IsLimited}
use shop_verse.Coupons.Uses.{Attempt, attempt_all, attempt_all-IsLimited, used_once}

abbrev ten_off : Coupon
ten_off = record {
  id = 1;
  code = 10;
  discount_type = percentage;
  discount_value = 10;
  min_order_amount = 500;
  max_uses = some 2;
  max_uses_per_user = some 3;
  first_order_only = false;
  used_count = 0;
  expires_at = none;
  is_active = true;
}

abbrev spring : Promotions
spring = record { coupons = ten_off ∷ []; usages = []; delivered_orders = λ u. 0 }

abbrev spring_used : Promotions
spring_used = record spring {
  coupons = record ten_off { used_count = 1 } ∷ [];
  usages = record { coupon_id = 1; user_id = 7 } ∷ [];
}

uses : use_coupon 5 10 (some 7) spring ≡ ok (tt, spring_used)
unfolding use_coupon count_use record_usage
uses = refl

-- A coupon that is valid for a user, and cannot be used.
still_valid : apply_discount 6 10 800 (some 7) spring_used ≡ ok (8000, spring_used)
unfolding apply_discount validate_coupon calc_discount
still_valid = refl

spring-IsLimited : IsLimited spring
spring-IsLimited = record { uses = (omega arith, tt); once = λ c u. omega arith }

discount_bounded_run : calc_discount ten_off 800 + calc_cashback ten_off 800 ≤ 800 * 100
discount_bounded_run = discount_bounded ten_off 800

abbrev attempts : List Attempt
attempts =
    record { now = 5; code = 10; user = some 7 }
    ∷ record { now = 6; code = 10; user = some 7 }
    ∷ record { now = 7; code = 10; user = none }
    ∷ record { now = 8; code = 10; user = some 8 }
    ∷ []

attempt_all-IsLimited_example : IsLimited (attempt_all attempts spring)
attempt_all-IsLimited_example = attempt_all-IsLimited attempts spring spring-IsLimited

used_once_run : use_coupon 6 10 (some 7) spring_used ≡ err bad_request
used_once_run = used_once 5 6 10 7 spring spring_used uses
