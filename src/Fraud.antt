-- ===== src/Fraud.antt =====
-- backend/src/fraud/fraud.service.ts: the risk score of a user, the flags that it raises, the
-- blacklist, and the checks before an order. A text is a number here; the decimal text of a user id
-- and the lower case of an e-mail address are arguments. A rate is compared as a fraction. Details,
-- reasons and dates are left out.
pub mod Scores
pub mod Gate
pub mod Blocks
mod Tests
use shop_verse.Base.{
  ℕ, ◌+◌, ◌*◌, Bool, true, false, ◌&&◌, ◌||◌, not, Option, none, some, List, [], ◌∷◌, ◌++◌, any,
  find_first, replace_first, update_where, filter_where, count_where, length, min, ltb, leb, ◌==◌,
  if◌then◌else◌, Result, ok, err, Tx, not_found, fault,
}
use shop_verse.Orders.Tables.{
  Order, OrderStatus, cancelled, return_requested, returned, refunded, is_status, is_cod, is_owner,
}

pub data BlacklistType : Type 0 where
  account email ip device address : BlacklistType

pub data FraudFlagType : Type 0 where
  high_return_rate refund_abuse cod_abuse suspicious_ip account_takeover : FraudFlagType

pub data FraudFlagStatus : Type 0 where
  open_ under_review resolved false_positive : FraudFlagStatus

abbrev pub list_code : BlacklistType → ℕ
list_code account = 0
list_code email = 1
list_code ip = 2
list_code device = 3
list_code address = 4

abbrev pub flag_code : FraudFlagType → ℕ
flag_code high_return_rate = 0
flag_code refund_abuse = 1
flag_code cod_abuse = 2
flag_code suspicious_ip = 3
flag_code account_takeover = 4

abbrev pub is_open : FraudFlagStatus → Bool
is_open open_ = true
is_open _ = false

pub record UserRiskScore : Type 0 where
  pub user_id : ℕ
  pub score : ℕ
  pub is_refund_abuse : Bool
  pub is_cod_abuse : Bool

pub record FraudFlag : Type 0 where
  pub id : ℕ
  pub user_id : Option ℕ
  pub type : FraudFlagType
  pub status : FraudFlagStatus

pub record Blacklist : Type 0 where
  pub type : BlacklistType
  pub value : ℕ
  pub is_active : Bool

pub record Watch : Type 0 where
  pub orders : List Order
  pub scores : List UserRiskScore
  pub flags : List FraudFlag
  pub next_flag : ℕ
  pub blacklist : List Blacklist

abbrev pub high_risk_threshold : ℕ
high_risk_threshold = 70

-- A part of a whole is more than `p / q`; a part of nothing is not.
abbrev pub exceeds : (p q part whole : ℕ) → Bool
exceeds p q part whole = ltb (p * whole) (q * part)

abbrev pub is_returned : Order → Bool
is_returned o =
    is_status o.status returned
    || is_status o.status return_requested
    || is_status o.status refunded

abbrev pub is_cod_order : Order → Bool
is_cod_order o = is_cod o.payment_method

abbrev pub is_cod_cancelled : Order → Bool
is_cod_cancelled o = is_cod o.payment_method && is_status o.status cancelled

abbrev pub has_refund_abuse : List Order → Bool
has_refund_abuse os = exceeds 1 2 (count_where is_returned os) (length os)

abbrev pub has_cod_abuse : List Order → Bool
has_cod_abuse os = exceeds 2 5 (count_where is_cod_cancelled os) (count_where is_cod_order os)

abbrev pub return_points : List Order → ℕ
return_points os =
    if has_refund_abuse os
    then 40
    else if exceeds 3 10 (count_where is_returned os) (length os)
    then 20
    else 0

abbrev pub cod_points : List Order → ℕ
cod_points os =
    if has_cod_abuse os
    then 30
    else if exceeds 1 5 (count_where is_cod_cancelled os) (count_where is_cod_order os)
    then 15
    else 0

abbrev pub newcomer_points : List Order → ℕ
newcomer_points os = if ltb (length os) 2 && ltb 0 (count_where is_returned os) then 10 else 0

unfoldable pub risk_score : List Order → ℕ
risk_score os = min (return_points os + cod_points os + newcomer_points os) 100

abbrev pub is_score_of : ℕ → UserRiskScore → Bool
is_score_of user r = user == r.user_id

-- userRiskScore.upsert.
unfoldable pub put_score : UserRiskScore → Watch → Watch
put_score r w =
    if any (is_score_of r.user_id) w.scores
    then record w { scores = replace_first (is_score_of r.user_id) r w.scores }
    else record w { scores = r ∷ w.scores }

abbrev pub is_open_flag : (user : ℕ) → FraudFlagType → FraudFlag → Bool
is_open_flag user type f =
    is_owner user f.user_id && flag_code type == flag_code f.type && is_open f.status

abbrev pub raise_flag : (user : ℕ) → FraudFlagType → Watch → Watch
raise_flag user type w = record w {
  flags = record { id = w.next_flag; user_id = some user; type = type; status = open_ } ∷ w.flags;
  next_flag = w.next_flag + 1;
}

-- Of the first kind at most one flag is open; each time one of the second kind is raised.
unfoldable pub auto_flag : (user : ℕ) → (refund_abusive cod_abusive : Bool) → Watch → Watch
auto_flag user refund_abusive cod_abusive w =
    let w1 =
      if refund_abusive && not (any (is_open_flag user high_return_rate) w.flags)
      then raise_flag user high_return_rate w
      else w in
    if cod_abusive then raise_flag user cod_abuse w1 else w1

abbrev pub orders_of : ℕ → Watch → List Order
orders_of user w = filter_where (λ o. is_owner user o.user_id) w.orders

-- A user without orders has no risk, and what was recorded of him is kept.
unfoldable pub compute_risk_score : (is_known : Bool) → (user : ℕ) → Tx Watch ℕ
compute_risk_score is_known user w =
    let os = orders_of user w in
    let score = risk_score os in
    let scored =
      put_score
        (record {
          user_id = user;
          score = score;
          is_refund_abuse = has_refund_abuse os;
          is_cod_abuse = has_cod_abuse os;
        })
        w in
    if not is_known
    then err not_found
    else if length os == 0
    then ok (0, w)
    else ok (
      score,
      if leb high_risk_threshold score
          then auto_flag user (has_refund_abuse os) (has_cod_abuse os) scored
          else scored,
    )

abbrev pub is_listed : BlacklistType → ℕ → Blacklist → Bool
is_listed type value b = list_code type == list_code b.type && value == b.value

unfoldable pub add_to_blacklist : BlacklistType → (value : ℕ) → Watch → Watch
add_to_blacklist type value w =
    let b : Blacklist = record { type = type; value = value; is_active = true } in
    if any (is_listed type value) w.blacklist
    then record w { blacklist = replace_first (is_listed type value) b w.blacklist }
    else record w { blacklist = b ∷ w.blacklist }

unfoldable pub remove_from_blacklist : BlacklistType → (value : ℕ) → Watch → Watch
remove_from_blacklist type value w = record w {
  blacklist = update_where (is_listed type value) (λ b. record b { is_active = false }) w.blacklist;
}

unfoldable pub is_blacklisted : BlacklistType → (value : ℕ) → Watch → Bool
is_blacklisted type value w = any (λ b. is_listed type value b && b.is_active) w.blacklist

unfoldable pub flag_fraud : Option ℕ → FraudFlagType → Watch → Watch
flag_fraud user type w = record w {
  flags = record { id = w.next_flag; user_id = user; type = type; status = open_ } ∷ w.flags;
  next_flag = w.next_flag + 1;
}

unfoldable pub resolve_flag : (flag : ℕ) → FraudFlagStatus → Tx Watch (Unit {0})
resolve_flag flag status w = elim (find_first (λ f. flag == f.id) w.flags) [
  | none ↦ err fault
  | some f ↦ ok (
    tt,
    record w { flags = replace_first (λ x. flag == x.id) (record f { status = status }) w.flags },
  )
]

pub data BlockReason : Type 0 where
  ip_listed device_listed account_listed email_listed : BlockReason
  high_risk : (score : ℕ) → BlockReason

abbrev pub is_present : Option ℕ → Bool
is_present none = false
is_present (some x) = true

-- A check is made where the value is there.
abbrev pub check_of : BlacklistType → Option ℕ → Watch → List Bool
check_of type none w = []
check_of type (some value) w = is_blacklisted type value w ∷ []

-- `findIndex`.
abbrev pub index_of_true : List Bool → Option ℕ
index_of_true [] = none
index_of_true (b ∷ bs) =
    if b then some 0 else elim (index_of_true bs) [ none ↦ none | some n ↦ some (n + 1) ]

-- The label goes by the place among the checks that were made.
abbrev pub label : (index : ℕ) → (ip_address fingerprint : Option ℕ) → BlockReason → BlockReason
label index ip_address fingerprint other =
    if index == 0 && is_present ip_address
    then ip_listed
    else if index == 1 && is_present fingerprint
    then device_listed
    else other

abbrev pub risk_block : (user : ℕ) → Watch → Option BlockReason
risk_block user w = elim (find_first (is_score_of user) w.scores) [
  | none ↦ none
  | some r ↦ if leb high_risk_threshold r.score then some (high_risk r.score) else none
]

-- The answer is the reason of a block. `text` is the text of the user's id.
unfoldable pub pre_order_fraud_check :
    (user text : ℕ) → (ip_address fingerprint : Option ℕ) → Watch → Option BlockReason
pre_order_fraud_check user text ip_address fingerprint w =
    elim (index_of_true (
      check_of ip ip_address w
      ++ check_of device fingerprint w
      ++ (is_blacklisted account text w ∷ []))) [
        | some i ↦ some (label i ip_address fingerprint account_listed)
        | none ↦ risk_block user w
      ]

-- An e-mail address is looked up among the accounts.
unfoldable pub pre_guest_fraud_check :
    (ip_address fingerprint email_text : Option ℕ) → Watch → Option BlockReason
pre_guest_fraud_check ip_address fingerprint email_text w =
    elim (index_of_true (
      check_of ip ip_address w ++ check_of device fingerprint w ++ check_of account email_text w)) [
        | some i ↦ some (label i ip_address fingerprint email_listed)
        | none ↦ none
      ]
