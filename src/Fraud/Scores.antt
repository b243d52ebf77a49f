-- ===== src/Fraud/Scores.antt =====
-- Which users backend/src/fraud/fraud.service.ts holds for risky, and what becomes of it.
use shop_verse.Base.{
  ℕ, ◌*◌, ◌<◌, ◌≤◌, ◌≡◌, ◌↔◌, refl, Bool, true, false, some, List, find_first, any-count_where,
  find_first-replace_first_present, count_where, length, leb, ◌==◌, arith, ok, inl, inr, Bool-cases,
  if◌then◌else◌,
}
use shop_verse.Orders.Tables.{Order}
use shop_verse.Fraud.{
  Watch, FraudFlag, UserRiskScore, is_returned, is_cod_order, is_cod_cancelled, has_refund_abuse,
  has_cod_abuse, high_return_rate, high_risk_threshold, risk_score, orders_of, put_score,
  is_score_of, is_open_flag, auto_flag, compute_risk_score,
}

-- A score is at most 80, and it reaches the threshold exactly if more than half of the orders are
-- returned, asked to be or refunded, and more than two fifths of the COD orders are cancelled.
pub risk_score_iff :
    (os : List Order)
    → (risk_score os ≤ 80)
      × ((high_risk_threshold ≤ risk_score os) ↔ (
          (length os < 2 * count_where is_returned os)
          × (2 * count_where is_cod_order os < 5 * count_where is_cod_cancelled os)))
unfolding risk_score
risk_score_iff os = ground arith

scored :
    (user : ℕ) (r : UserRiskScore) (w : Watch)
    → r.user_id ≡ user
    → find_first (is_score_of user) (put_score r w).scores ≡ some r
unfolding put_score
scored user r w e = ground (arith, find_first-replace_first_present (is_score_of user) r w.scores)

-- How many flags of a kind are open for a user.
abbrev pub open_flags : ℕ → List FraudFlag → ℕ
open_flags user fs = count_where (is_open_flag user high_return_rate) fs

auto_flag_lem :
    (user : ℕ) (c : Bool) (w : Watch)
    → open_flags user w.flags ≤ 1
    → open_flags user (auto_flag user true c w).flags ≡ 1
unfolding auto_flag
auto_flag_lem user c w h =
    ground (arith, any-count_where (is_open_flag user high_return_rate) w.flags)

auto_flag_others :
    (user other : ℕ) (r c : Bool) (w : Watch)
    → (user == other) ≡ false
    → open_flags other (auto_flag user r c w).flags ≡ open_flags other w.flags
unfolding auto_flag
auto_flag_others user other r c w h = ground arith

put_score_keeps :
    (r : UserRiskScore) (w : Watch)
    → ((put_score r w).flags ≡ w.flags) × ((put_score r w).blacklist ≡ w.blacklist)
unfolding put_score
put_score_keeps r w = ground arith

auto_flag_keeps :
    (user : ℕ) (r c : Bool) (w : Watch)
    → ((auto_flag user r c w).scores ≡ w.scores) × ((auto_flag user r c w).blacklist ≡ w.blacklist)
unfolding auto_flag
auto_flag_keeps user r c w = ground arith

-- The score that a computation leaves, whatever flags are open.
pub compute_risk_score-scored :
    (user n : ℕ) (w w' : Watch)
    → compute_risk_score true user w ≡ ok (n, w')
    → 0 < length (orders_of user w)
    → (n ≡ risk_score (orders_of user w))
      × ((r : UserRiskScore) × (find_first (is_score_of user) w'.scores ≡ some r) × (r.score ≡ n))
      × (w'.blacklist ≡ w.blacklist)
unfolding compute_risk_score
compute_risk_score-scored user n w w' e pos =
    let os : List Order = orders_of user w in
    let r : UserRiskScore = record {
      user_id = user;
      score = risk_score os;
      is_refund_abuse = has_refund_abuse os;
      is_cod_abuse = has_cod_abuse os;
    } in
    let w1 : Watch = put_score r w in
    let kept = put_score_keeps r w in
    let high = risk_score_iff os in
    elim (Bool-cases (leb high_risk_threshold (risk_score os))) [
      | inr low ↦
          let same : w1 ≡ w' = ground arith in
          (
            ground arith,
            (r, ground (arith, same, scored user r w refl), ground arith),
            ground (arith, same, kept),
          )
      | inl over ↦
          let abusive : has_refund_abuse os ≡ true = ground (arith, high, over) in
          let w2 : Watch = auto_flag user true (has_cod_abuse os) w1 in
          let same : w2 ≡ w' = ground arith in
          let rest = auto_flag_keeps user true (has_cod_abuse os) w1 in
          (
            ground arith,
            (r, ground (arith, same, rest, scored user r w refl), ground arith),
            ground (arith, same, rest, kept),
          )
    ]

-- What a computation leaves: the score of the user, and of the flags for a high return rate exactly
-- one that is open, if the score reaches the threshold; else, and for all others, as many as
-- before.
pub compute_risk_score_lem :
    (user n : ℕ) (w w' : Watch)
    → compute_risk_score true user w ≡ ok (n, w')
    → 0 < length (orders_of user w)
    → open_flags user w.flags ≤ 1
    → (n ≡ risk_score (orders_of user w))
      × ((r : UserRiskScore) × (find_first (is_score_of user) w'.scores ≡ some r) × (r.score ≡ n))
      × (open_flags user w'.flags
          ≡ (if leb high_risk_threshold n then 1 else open_flags user w.flags))
      × ((other : ℕ)
          → (user == other) ≡ false
          → open_flags other w'.flags ≡ open_flags other w.flags)
      × (w'.blacklist ≡ w.blacklist)
unfolding compute_risk_score
compute_risk_score_lem user n w w' e pos h =
    let os : List Order = orders_of user w in
    let r : UserRiskScore = record {
      user_id = user;
      score = risk_score os;
      is_refund_abuse = has_refund_abuse os;
      is_cod_abuse = has_cod_abuse os;
    } in
    let w1 : Watch = put_score r w in
    let kept = put_score_keeps r w in
    let high = risk_score_iff os in
    let (score_is, found, listed) = compute_risk_score-scored user n w w' e pos in
    elim (Bool-cases (leb high_risk_threshold (risk_score os))) [
      | inr low ↦
          let same : w1 ≡ w' = ground arith in
          (
            score_is,
            found,
            ground (arith, same, kept),
            (λ other ne. ground (arith, same, kept)),
            listed,
          )
      | inl over ↦
          let abusive : has_refund_abuse os ≡ true = ground (arith, high, over) in
          let w2 : Watch = auto_flag user true (has_cod_abuse os) w1 in
          let same : w2 ≡ w' = ground arith in
          (
            score_is,
            found,
            ground (arith, same, kept, auto_flag_lem user (has_cod_abuse os) w1),
            (λ other ne.
                ground
                  (arith, same, kept, auto_flag_others user other true (has_cod_abuse os) w1 ne)),
            listed,
          )
    ]
