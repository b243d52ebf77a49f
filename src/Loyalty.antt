-- ===== src/Loyalty.antt =====
-- backend/src/loyalty/loyalty.service.ts: points that are earned, redeemed, clawed back and
-- granted. Amounts are millionths of the currency. A point is earned per 10 of the currency and is
-- worth 0.5, and a redemption is worth at most a fifth of the subtotal, so at most one point per
-- 2.5 of it.
pub mod Account
pub mod Requests
pub mod Bonuses
mod Tests
use shop_verse.Base.{
  ℕ, ◌+◌, ◌-◌, ◌*◌, ◌/◌, Bool, true, false, not, ◌&&◌, Option, none, some, List, [], ◌∷◌,
  find_first, replace_first, any, leb, ltb, ◌==◌, if◌then◌else◌, Result, ok, err, Error, Tx, Action,
  ◌>>=◌, ◌>>◌, pure, throw_if, transact, unique_violation, foreign_key_violation, bad_request,
}

pub data LoyaltyType : Type 0 where
  earn redeem bonus clawback : LoyaltyType

-- The references that the service and backend/src/referral/referral.service.ts build; `named` is
-- one that a caller passes.
pub data LoyaltyReference : Type 0 where
  earn_order : (order : ℕ) → LoyaltyReference
  clawback_order : (order : ℕ) → LoyaltyReference
  referrer_bonus : (referrer referee : ℕ) → LoyaltyReference
  referee_bonus : (referee : ℕ) → LoyaltyReference
  named : (text : ℕ) → LoyaltyReference

abbrev pub prefix : LoyaltyReference → ℕ
prefix (earn_order o) = 0
prefix (clawback_order o) = 1
prefix (named t) = 2
prefix (referrer_bonus a b) = 3
prefix (referee_bonus b) = 4

abbrev pub reference_key : LoyaltyReference → ℕ
reference_key (earn_order o) = o
reference_key (clawback_order o) = o
reference_key (named t) = t
reference_key (referrer_bonus a b) = b
reference_key (referee_bonus b) = b

-- The referrer, which only one form of reference has.
abbrev pub reference_owner : LoyaltyReference → ℕ
reference_owner (referrer_bonus a b) = a
reference_owner ref = 0

abbrev pub is_same_reference : LoyaltyReference → LoyaltyReference → Bool
is_same_reference a b =
    prefix a == prefix b
    && reference_key a == reference_key b
    && reference_owner a == reference_owner b

abbrev pub is_earn : LoyaltyType → Bool
is_earn earn = true
is_earn ty = false

-- `points` is the number without its sign, which is negative for `redeem` and `clawback`.
pub record LoyaltyTransaction : Type 0 where
  pub user_id : ℕ
  pub order_id : Option ℕ
  pub points : ℕ
  pub type : LoyaltyType
  pub reference : Option LoyaltyReference

pub record User : Type 0 where
  pub id : ℕ
  pub loyalty_points : ℕ

pub record Loyalty : Type 0 where
  pub users : List User
  pub transactions : List LoyaltyTransaction

abbrev pub is_user : ℕ → User → Bool
is_user i u = i == u.id

abbrev pub has_reference : LoyaltyReference → LoyaltyTransaction → Bool
has_reference ref t = elim t.reference [ none ↦ false | some r ↦ is_same_reference ref r ]

abbrev pub is_taken : Option LoyaltyReference → List LoyaltyTransaction → Bool
is_taken none ts = false
is_taken (some ref) ts = any (has_reference ref) ts

-- loyaltyTransaction.create: the reference is unique where there is one, the user a foreign key.
unfoldable pub create_transaction : LoyaltyTransaction → Tx Loyalty (Unit {0})
create_transaction t s =
    if is_taken t.reference s.transactions
    then err unique_violation
    else elim (find_first (is_user t.user_id) s.users) [
      | none ↦ err foreign_key_violation
      | some u ↦ ok (tt, record s { transactions = t ∷ s.transactions })
    ]

-- An update of a user by id. The answer says whether there is a row that passes the test.
unfoldable pub change_points : ℕ → (ℕ → Bool) → (ℕ → ℕ) → Tx Loyalty Bool
change_points user cond f s = elim (find_first (is_user user) s.users) [
  | none ↦ ok (false, s)
  | some u ↦
      if cond u.loyalty_points
      then ok (
        true,
        record s {
          users =
              replace_first (is_user user) (record u { loyalty_points = f u.loyalty_points })
                s.users;
        },
      )
      else ok (false, s)
]

abbrev pub any_points : ℕ → Bool
any_points n = true

-- The two writes that grant points.
unfoldable pub grant : LoyaltyTransaction → Tx Loyalty ℕ
grant t = do
  create_transaction t
  change_points t.user_id any_points (λ n. n + t.points)
  pure t.points

-- The `catch`: a unique violation is answered with 0 points.
unfoldable pub none_if_taken : Result (ℕ × Loyalty) → Loyalty → Result ℕ × Loyalty
none_if_taken (ok (n, s')) s = (ok n, s')
none_if_taken (err e) s = elim e [ unique_violation ↦ (ok 0, s) | other ↦ (err other, s) ]

unfoldable pub earn_points : (user order total : ℕ) → Action Loyalty ℕ
earn_points user order total s =
    if leb (total / 10000000) 0
    then (ok 0, s)
    else none_if_taken
        (grant
          (record {
            user_id = user;
            order_id = some order;
            points = total / 10000000;
            type = earn;
            reference = some (earn_order order);
          })
          s)
        s

abbrev pub exceeds_share : ℕ → Option ℕ → Bool
exceeds_share points none = false
exceeds_share points (some subtotal) = ltb (subtotal / 2500000) points

-- The answer is the discount.
unfoldable pub redeem_points : (user points : ℕ) → Option ℕ → Tx Loyalty ℕ
redeem_points user points subtotal = do
  throw_if (leb points 0) bad_request
  throw_if (exceeds_share points subtotal) bad_request
  covered ← change_points user (leb points) (λ n. n - points)
  throw_if (not covered) bad_request
  create_transaction
      (record { user_id = user; order_id = none; points = points; type = redeem; reference = none })
  pure (points * 500000)

abbrev pub is_earning : (user order : ℕ) → LoyaltyTransaction → Bool
is_earning user order t =
    is_earn t.type && user == t.user_id && elim t.order_id [ none ↦ false | some o ↦ order == o ]

-- The two writes of a clawback. The subtraction of ℕ is GREATEST(0, … - …).
unfoldable pub take_back : LoyaltyTransaction → Tx Loyalty ℕ
take_back t = do
  create_transaction t
  change_points t.user_id any_points (λ n. n - t.points)
  pure t.points

unfoldable pub clawback_points : (user order : ℕ) → Action Loyalty ℕ
clawback_points user order s = elim (find_first (is_earning user order) s.transactions) [
  | none ↦ (ok 0, s)
  | some t ↦
      if leb t.points 0
      then (ok 0, s)
      else none_if_taken
          (take_back
            (record {
              user_id = user;
              order_id = some order;
              points = t.points;
              type = clawback;
              reference = some (clawback_order order);
            })
            s)
          s
]

unfoldable pub add_bonus : (user points : ℕ) → Option LoyaltyReference → Action Loyalty ℕ
add_bonus user points ref s =
    none_if_taken
      (grant
        (record { user_id = user; order_id = none; points = points; type = bonus; reference = ref })
        s)
      s
