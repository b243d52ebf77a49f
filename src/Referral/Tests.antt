-- ===== src/Referral/Tests.antt =====
-- User 8 was invited by user 7.
use shop_verse.Base.{◌≡◌, refl, true, false, none, some, [], ◌∷◌, ok, err, bad_request}
use shop_verse.Loyalty.{
  Loyalty, bonus, referrer_bonus, referee_bonus, create_transaction, change_points, grant,
  none_if_taken, add_bonus,
}
use shop_verse.Loyalty.Account.{IsAccounted}
use shop_verse.Referral.{
  Referrals, Member, write_member, generate_code, create_credit, link, apply_referral, pay_bonuses,
  credit_on_first_delivery,
}
use shop_verse.Referral.Bonus.{credited_once}

abbrev host : Member
host = record { id = 7; referral_code = some 70; referred_by = none }

abbrev guest : Member
guest = record { id = 8; referral_code = none; referred_by = none }

abbrev no_points : Loyalty
no_points = record {
  users = record { id = 7; loyalty_points = 0 } ∷ record { id = 8; loyalty_points = 0 } ∷ [];
  transactions = [];
}

abbrev start : Referrals
start = record { members = host ∷ guest ∷ []; credits = []; loyalty = no_points }

abbrev linked : Referrals
linked = record start {
  members = host ∷ record guest { referred_by = some 7 } ∷ [];
  credits = record { referrer_id = 7; new_user_id = 8; credit_amount = 200 } ∷ [];
}

applies : apply_referral 8 70 start ≡ ok (100, linked)
unfolding apply_referral link create_credit write_member
applies = refl

applies_again : apply_referral 8 70 linked ≡ err bad_request
unfolding apply_referral
applies_again = refl

own_code : apply_referral 7 70 start ≡ err bad_request
unfolding apply_referral
own_code = refl

keeps_code : generate_code 7 99 start ≡ ok (70, start)
unfolding generate_code
keeps_code = refl

abbrev paid_points : Loyalty
paid_points = record {
  users = record { id = 7; loyalty_points = 200 } ∷ record { id = 8; loyalty_points = 100 } ∷ [];
  transactions =
      record {
        user_id = 8;
        order_id = none;
        points = 100;
        type = bonus;
        reference = some (referee_bonus 8);
      }
      ∷ record {
        user_id = 7;
        order_id = none;
        points = 200;
        type = bonus;
        reference = some (referrer_bonus 7 8);
      }
      ∷ [];
}

pays : credit_on_first_delivery 8 1 linked ≡ (ok true, record linked { loyalty = paid_points })
unfolding credit_on_first_delivery pay_bonuses add_bonus grant create_transaction change_points
    none_if_taken
pays = refl

-- Two orders are delivered before the count is taken: nothing is paid, then or later.
missed : credit_on_first_delivery 8 2 linked ≡ (ok false, linked)
unfolding credit_on_first_delivery
missed = refl

credited_once_example :
    ((credit_on_first_delivery 8 1 (record linked { loyalty = paid_points })).1
      ≡ record linked { loyalty = paid_points })
    × (IsAccounted no_points → IsAccounted paid_points)
credited_once_example = credited_once 8 1 1 linked (record linked { loyalty = paid_points }) pays
