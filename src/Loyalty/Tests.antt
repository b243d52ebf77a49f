-- ===== src/Loyalty/Tests.antt =====
-- One user, one order of 50 of the currency.
use shop_verse.Base.{◌*◌, ◌≤◌, ◌≡◌, refl, none, some, List, [], ◌∷◌, arith, ok}
use shop_verse.Loyalty.{
  Loyalty, LoyaltyTransaction, earn, redeem, earn_order, named, create_transaction, change_points,
  grant, none_if_taken, earn_points, redeem_points,
}
use shop_verse.Loyalty.Account.{IsAccounted, redeemed_within_share}
use shop_verse.Loyalty.Requests.{
  Request, earning, redeeming, clawing, rewarding, serve_all, serve_all-IsAccounted, earned_once,
}

abbrev newcomer : Loyalty
newcomer = record { users = record { id = 7; loyalty_points = 0 } ∷ []; transactions = [] }

abbrev five_points : LoyaltyTransaction
five_points = record {
  user_id = 7;
  order_id = some 42;
  points = 5;
  type = earn;
  reference = some (earn_order 42);
}

abbrev customer : Loyalty
customer = record {
  users = record { id = 7; loyalty_points = 5 } ∷ [];
  transactions = five_points ∷ [];
}

newcomer-IsAccounted : IsAccounted newcomer
newcomer-IsAccounted = record { within = λ i. ground arith; covered = λ i. ground arith }

earns : earn_points 7 42 50000000 newcomer ≡ (ok 5, customer)
unfolding earn_points grant create_transaction change_points none_if_taken
earns = refl

abbrev spender : Loyalty
spender = record {
  users = record { id = 7; loyalty_points = 1 } ∷ [];
  transactions =
      record { user_id = 7; order_id = none; points = 4; type = redeem; reference = none }
      ∷ five_points
      ∷ [];
}

redeems : redeem_points 7 4 (some 10000000) customer ≡ ok (2000000, spender)
unfolding redeem_points create_transaction change_points
redeems = refl

abbrev requests : List Request
requests =
    earning 7 42 50000000
    ∷ earning 7 42 50000000
    ∷ redeeming 7 4 (some 10000000)
    ∷ clawing 7 42
    ∷ rewarding 7 50 (some (named 1))
    ∷ []

serve_all-IsAccounted_example : IsAccounted (serve_all requests newcomer)
serve_all-IsAccounted_example = serve_all-IsAccounted requests newcomer newcomer-IsAccounted

customer-IsAccounted : IsAccounted customer
customer-IsAccounted = record { within = λ i. ground arith; covered = λ i. ground arith }

redeemed_within_share_run : (2000000 * 5 ≤ 10000000) × IsAccounted spender
redeemed_within_share_run =
    redeemed_within_share 7 4 10000000 customer spender 2000000 customer-IsAccounted redeems

earned_once_run : earn_points 7 42 90000000 customer ≡ (ok 0, customer)
earned_once_run = earned_once 7 7 42 50000000 90000000 5 newcomer customer (omega arith) earns
