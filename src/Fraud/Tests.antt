-- ===== src/Fraud/Tests.antt =====
-- A user with two returned orders of three, whose cash orders were cancelled.
use shop_verse.Base.{
  ℕ, ◌<◌, ◌≤◌, ◌≡◌, ◌↔◌, ◌⊎◌, refl, true, false, ◌||◌, none, some, List, [], ◌∷◌, arith, ok,
}
use shop_verse.Orders.Tables.{
  Order, OrderStatus, PaymentMethod, cancelled, returned, refunded, stripe, cod, paid,
}
use shop_verse.Fraud.{
  Watch, account, email, ip, device, UserRiskScore, FraudFlag, high_return_rate, cod_abuse, open_,
  risk_score, put_score, auto_flag, compute_risk_score, add_to_blacklist, is_blacklisted,
  pre_order_fraud_check, pre_guest_fraud_check, account_listed, device_listed,
}
use shop_verse.Fraud.Scores.{risk_score_iff, compute_risk_score_lem}
use shop_verse.Fraud.Gate.{
  is_blocked, is_on_list, pre_order_fraud_check_iff, pre_guest_fraud_check_lem,
}
use shop_verse.Fraud.Blocks.{adding, removing, edit_all, edited_all, edit_all-refines}

abbrev an_order : (id : ℕ) → OrderStatus → PaymentMethod → Order
an_order id status method = record {
  id = id;
  user_id = some 7;
  status = status;
  payment_method = method;
  payment_status = paid;
  subtotal = 900;
  discount_amount = 0;
  shipping_fee = 0;
  tax_amount = 0;
  total = 900;
  wallet_amount_used = 0;
  currency = "usd";
  coupon_code = none;
  payment_id = none;
  updated_at = 10;
}

abbrev history : List Order
history = an_order 1 returned stripe ∷ an_order 2 refunded stripe ∷ an_order 3 cancelled cod ∷ []

abbrev before : Watch
before = record { orders = history; scores = []; flags = []; next_flag = 1; blacklist = [] }

abbrev both_flags : List FraudFlag
both_flags =
    record { id = 2; user_id = some 7; type = cod_abuse; status = open_ }
    ∷ record { id = 1; user_id = some 7; type = high_return_rate; status = open_ }
    ∷ []

abbrev after : Watch
after = record before {
  scores = record { user_id = 7; score = 70; is_refund_abuse = true; is_cod_abuse = true } ∷ [];
  flags = both_flags;
  next_flag = 3;
}

scores : compute_risk_score true 7 before ≡ ok (70, after)
unfolding compute_risk_score risk_score put_score auto_flag
scores = refl

risk_score_iff_example :
    (risk_score history ≤ 80) × ((70 ≤ risk_score history) ↔ ((3 < 4) × (2 < 5)))
risk_score_iff_example = risk_score_iff history

compute_risk_score_lem_run :
    (70 ≡ risk_score history) × ((r : UserRiskScore) × (some r ≡ some r) × (r.score ≡ 70))
unfolding risk_score
compute_risk_score_lem_run =
    let left = compute_risk_score_lem 7 70 before after scores (omega arith) (omega arith) in
    (refl, (left.1.0, refl, left.1.2))

pre_order_fraud_check_iff_example :
    (is_blocked (pre_order_fraud_check 7 77 (some 1) none after) ≡ true) ↔ (
      ((is_on_list ip (some 1) before
          || is_on_list device none before
          || is_blacklisted account 77 before)
        ≡ true)
      ⊎ ((3 < 4) × (2 < 5)))
pre_order_fraud_check_iff_example =
    pre_order_fraud_check_iff 7 77 70 (some 1) none before after scores (omega arith)

pre_guest_fraud_check_lem_run : is_blocked (pre_guest_fraud_check none (some 2) (some 3) before) ≡ (
    is_on_list ip none before
    || is_on_list device (some 2) before
    || is_on_list account (some 3) before)
pre_guest_fraud_check_lem_run = pre_guest_fraud_check_lem none (some 2) (some 3) before

edit_all-refines_example :
    is_blacklisted ip 1 (edit_all (adding ip 1 ∷ adding ip 2 ∷ removing ip 1 ∷ []) before)
    ≡ edited_all (adding ip 1 ∷ adding ip 2 ∷ removing ip 1 ∷ []) (λ t v. false) ip 1
unfolding is_blacklisted
edit_all-refines_example =
    edit_all-refines (adding ip 1 ∷ adding ip 2 ∷ removing ip 1 ∷ []) before (λ t v. false)
      (λ t v. refl) ip 1

-- The labels go by the place among the checks: without an address, a listed account is reported as
-- the device, and a listed device as the account.
wrong_labels :
    (pre_order_fraud_check 7 77 none (some 2) (add_to_blacklist account 77 before)
      ≡ some device_listed)
    × (pre_order_fraud_check 7 77 none (some 2) (add_to_blacklist device 2 before)
        ≡ some account_listed)
unfolding pre_order_fraud_check add_to_blacklist is_blacklisted
wrong_labels = (refl, refl)

-- An e-mail address that is listed as one does not stop a guest.
email_unread : pre_guest_fraud_check none none (some 3) (add_to_blacklist email 3 before) ≡ none
unfolding pre_guest_fraud_check add_to_blacklist is_blacklisted
email_unread = refl
