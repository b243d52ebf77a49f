-- ===== src/Fraud/Gate.antt =====
-- Whom the checks before an order in backend/src/fraud/fraud.service.ts let through.
use shop_verse.Base.{
  ℕ, ◌*◌, ◌<◌, ◌≡◌, ◌↔◌, ◌⊎◌, refl, Bool, true, false, ◌||◌, Option, none, some, count_where,
  length, arith, ok,
}
use shop_verse.Fraud.{
  Watch, BlacklistType, BlockReason, account, ip, device, is_blacklisted, is_returned, is_cod_order,
  is_cod_cancelled, orders_of, compute_risk_score, risk_block, pre_order_fraud_check,
  pre_guest_fraud_check,
}
use shop_verse.Fraud.Scores.{risk_score_iff, compute_risk_score-scored}

abbrev pub is_blocked : Option BlockReason → Bool
is_blocked none = false
is_blocked (some r) = true

-- Whether a value that may be missing is on the list.
abbrev pub is_on_list : BlacklistType → Option ℕ → Watch → Bool
is_on_list type none w = false
is_on_list type (some value) w = is_blacklisted type value w

pre_order_lem :
    (user text : ℕ) (ip_address fingerprint : Option ℕ) (w : Watch)
    → is_blocked (pre_order_fraud_check user text ip_address fingerprint w) ≡ (
        is_on_list ip ip_address w
        || is_on_list device fingerprint w
        || is_blacklisted account text w
        || is_blocked (risk_block user w))
unfolding pre_order_fraud_check
pre_order_lem user text none none w = ground arith
pre_order_lem user text none (some f) w = ground arith
pre_order_lem user text (some i) none w = ground arith
pre_order_lem user text (some i) (some f) w = ground arith

-- A guest is let through exactly if neither the IP address nor the device nor, among the accounts,
-- the e-mail address is on the blacklist, as far as they are known.
pub pre_guest_fraud_check_lem :
    (ip_address fingerprint email_text : Option ℕ) (w : Watch)
    → is_blocked (pre_guest_fraud_check ip_address fingerprint email_text w) ≡ (
        is_on_list ip ip_address w
        || is_on_list device fingerprint w
        || is_on_list account email_text w)
unfolding pre_guest_fraud_check
pre_guest_fraud_check_lem none none none w = ground arith
pre_guest_fraud_check_lem none none (some e) w = ground arith
pre_guest_fraud_check_lem none (some f) none w = ground arith
pre_guest_fraud_check_lem none (some f) (some e) w = ground arith
pre_guest_fraud_check_lem (some i) none none w = ground arith
pre_guest_fraud_check_lem (some i) none (some e) w = ground arith
pre_guest_fraud_check_lem (some i) (some f) none w = ground arith
pre_guest_fraud_check_lem (some i) (some f) (some e) w = ground arith

same_list :
    (type : BlacklistType) (o : Option ℕ) (w w' : Watch)
    → w'.blacklist ≡ w.blacklist
    → is_on_list type o w' ≡ is_on_list type o w
unfolding is_blacklisted
same_list type none w w' e = refl
same_list type (some v) w w' e = ground (arith, e)

-- The score and the gate together. After the score of a user with orders has been computed, the
-- user's next order is blocked exactly if the IP address, the device or the account is on the
-- blacklist, or more than half of the orders are returned, asked to be or refunded and more than
-- two fifths of the COD orders are cancelled.
pub pre_order_fraud_check_iff :
    (user text n : ℕ) (ip_address fingerprint : Option ℕ) (w w' : Watch)
    → compute_risk_score true user w ≡ ok (n, w')
    → 0 < length (orders_of user w)
    → (is_blocked (pre_order_fraud_check user text ip_address fingerprint w') ≡ true) ↔ (
        ((is_on_list ip ip_address w
            || is_on_list device fingerprint w
            || is_blacklisted account text w)
          ≡ true)
        ⊎ ((length (orders_of user w) < 2 * count_where is_returned (orders_of user w))
            × (2 * count_where is_cod_order (orders_of user w)
                < 5 * count_where is_cod_cancelled (orders_of user w))))
pre_order_fraud_check_iff user text n ip_address fingerprint w w' e pos =
    let (score_is, (r, found, scored), kept) = compute_risk_score-scored user n w w' e pos in
    let high = risk_score_iff (orders_of user w) in
    ground (
      arith,
      pre_order_lem user text ip_address fingerprint w',
      same_list ip ip_address w w' kept,
      same_list device fingerprint w w' kept,
      same_list account (some text) w w' kept,
      found,
      scored,
      score_is,
      high,
    )
