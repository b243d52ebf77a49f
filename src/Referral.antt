-- ===== src/Referral.antt =====
-- backend/src/referral/referral.service.ts. The table of users is seen twice: its points in
-- Loyalty, and the columns of the referrals here. The random part of a code and the number of
-- delivered orders, which a query counts, are arguments; the e-mail is left out.
pub mod Bonus
mod Tests
use shop_verse.Base.{
  ℕ, Bool, true, false, Option, none, some, List, [], ◌∷◌, any, find_first, replace_first, ◌==◌,
  if◌then◌else◌, Result, ok, err, Tx, Action, ◌>>=◌, ◌>>◌, pure, throw_if, gets, or_throw, transact,
  not_found, bad_request, unique_violation, fault,
}
use shop_verse.Loyalty.{Loyalty, referrer_bonus, referee_bonus, add_bonus}

pub record Member : Type 0 where
  pub id : ℕ
  pub referral_code : Option ℕ
  pub referred_by : Option ℕ

pub record ReferralCredit : Type 0 where
  pub referrer_id : ℕ
  pub new_user_id : ℕ
  pub credit_amount : ℕ

pub record Referrals : Type 0 where
  pub members : List Member
  pub credits : List ReferralCredit
  pub loyalty : Loyalty

abbrev pub referrer_bonus_points : ℕ
referrer_bonus_points = 200

abbrev pub referee_bonus_points : ℕ
referee_bonus_points = 100

abbrev pub is_member : ℕ → Member → Bool
is_member i m = i == m.id

abbrev pub has_code : ℕ → Member → Bool
has_code code m = elim m.referral_code [ none ↦ false | some c ↦ code == c ]

abbrev pub is_referred : ℕ → ReferralCredit → Bool
is_referred user c = user == c.new_user_id

-- user.update by id; a code is unique.
unfoldable pub write_member : (id : ℕ) → (Member → Member) → Tx Referrals (Unit {0})
write_member id f s = elim (find_first (is_member id) s.members) [
  | none ↦ err fault
  | some m ↦ ok (tt, record s { members = replace_first (is_member id) (f m) s.members })
]

abbrev pub unique_code : (code : ℕ) → Tx Referrals (Unit {0})
unique_code code s = if any (has_code code) s.members then err unique_violation else ok (tt, s)

-- A code that the user has is kept.
unfoldable pub generate_code : (user code : ℕ) → Tx Referrals ℕ
generate_code user code s = elim (find_first (is_member user) s.members) [
  | none ↦ err not_found
  | some m ↦ elim m.referral_code [
    | some c ↦ ok (c, s)
    | none ↦
        (do
          unique_code code
          write_member user (λ x. record x { referral_code = some code })
          pure code)
          s
  ]
]

-- referralCredit.create; the new user is a unique key.
unfoldable pub create_credit : ReferralCredit → Tx Referrals (Unit {0})
create_credit c s =
    if any (is_referred c.new_user_id) s.credits
    then err unique_violation
    else ok (tt, record s { credits = c ∷ s.credits })

-- The transaction of `applyReferral`.
unfoldable pub link : (referrer new_user : ℕ) → Tx Referrals (Unit {0})
link referrer new_user = do
  create_credit (record {
    referrer_id = referrer;
    new_user_id = new_user;
    credit_amount = referrer_bonus_points;
  })
  write_member new_user (λ x. record x { referred_by = some referrer })

unfoldable pub apply_referral : (new_user code : ℕ) → Tx Referrals ℕ
apply_referral new_user code = do
  found ← gets (λ s. find_first (has_code code) s.members)
  referrer ← or_throw found not_found
  throw_if (referrer.id == new_user) bad_request
  applied ← gets (λ s. any (is_referred new_user) s.credits)
  throw_if applied bad_request
  link referrer.id new_user
  pure referee_bonus_points

-- Both bonuses are asked for; the answer fails if one of them does.
abbrev pub both : Result ℕ → Result ℕ → Result Bool
both (ok m) (ok n) = ok true
both (err e) b = err e
both (ok m) (err e) = err e

unfoldable pub pay_bonuses : (referrer new_user : ℕ) → Action Loyalty Bool
pay_bonuses referrer new_user s =
    let (a, s1) =
      add_bonus referrer referrer_bonus_points (some (referrer_bonus referrer new_user)) s in
    let (b, s2) = add_bonus new_user referee_bonus_points (some (referee_bonus new_user)) s1 in
    (both a b, s2)

unfoldable pub credit_on_first_delivery : (new_user delivered : ℕ) → Action Referrals Bool
credit_on_first_delivery new_user delivered s = elim (find_first (is_member new_user) s.members) [
  | none ↦ (ok false, s)
  | some m ↦ elim m.referred_by [
    | none ↦ (ok false, s)
    | some referrer ↦
        if delivered == 1
        then elim (find_first (is_member referrer) s.members) [
          | none ↦ (ok false, s)
          | some r ↦
              let (answer, l) = pay_bonuses referrer new_user s.loyalty in
              (answer, record s { loyalty = l })
        ]
        else (ok false, s)
  ]
]
