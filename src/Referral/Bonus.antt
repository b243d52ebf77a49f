-- ===== src/Referral/Bonus.antt =====
-- That backend/src/referral/referral.service.ts pays the bonuses of a referral once.
use shop_verse.Base.{
  ℕ, ◌≡◌, refl, true, some, find_first, arith, ok, inl, inr, subst, Option-cases, Result-cases,
}
use shop_verse.Loyalty.{Loyalty, is_taken, referrer_bonus, referee_bonus, add_bonus}
use shop_verse.Loyalty.Account.{IsAccounted}
use shop_verse.Loyalty.Bonuses.{
  add_bonus-taken, add_bonus-keeps, add_bonus-records, add_bonus-IsAccounted,
}
use shop_verse.Referral.{
  Referrals, is_member, referrer_bonus_points, referee_bonus_points, pay_bonuses,
  credit_on_first_delivery,
}

pay_bonuses-IsAccounted :
    (a b : ℕ) (s : Loyalty) → IsAccounted s → IsAccounted (pay_bonuses a b s).1
unfolding pay_bonuses
pay_bonuses-IsAccounted a b s h =
    add_bonus-IsAccounted b referee_bonus_points (some (referee_bonus b))
      (add_bonus a referrer_bonus_points (some (referrer_bonus a b)) s).1
      (add_bonus-IsAccounted a referrer_bonus_points (some (referrer_bonus a b)) s h)

pay_bonuses-again :
    (a b : ℕ) (s s' : Loyalty)
    → pay_bonuses a b s ≡ (ok true, s')
    → pay_bonuses a b s' ≡ (ok true, s')
unfolding pay_bonuses
pay_bonuses-again a b s s' e =
    let r = referrer_bonus a b in
    let q = referee_bonus b in
    let one = add_bonus a referrer_bonus_points (some r) s in
    let two = add_bonus b referee_bonus_points (some q) one.1 in
    elim (Result-cases one.0) [
      | inr (x, f) ↦ ground arith
      | inl (m, f) ↦ elim (Result-cases two.0) [
        | inr (x, g) ↦ ground arith
        | inl (n, g) ↦
            let last : two.1 ≡ s' = ground arith in
            let first_taken : is_taken (some r) one.1.transactions ≡ true =
              add_bonus-records a referrer_bonus_points m r s one.1 (ground arith) in
            let kept : is_taken (some r) s'.transactions ≡ true =
              subst (λ t. is_taken (some r) t.transactions ≡ true) last
                (add_bonus-keeps b referee_bonus_points q r one.1 first_taken) in
            let second_taken : is_taken (some q) s'.transactions ≡ true =
              subst (λ t. is_taken (some q) t.transactions ≡ true) last
                (add_bonus-records b referee_bonus_points n q one.1 two.1 (ground arith)) in
            rw (add_bonus-taken a referrer_bonus_points r s' kept)
              (rw (add_bonus-taken b referee_bonus_points q s' second_taken) refl)
      ]
    ]

-- Once the bonuses of a referral have been paid, another call for the same user, whatever number of
-- delivered orders it finds, changes nothing. The payment keeps the points of every user accounted
-- for.
pub credited_once :
    (user n later : ℕ) (s s' : Referrals)
    → credit_on_first_delivery user n s ≡ (ok true, s')
    → ((credit_on_first_delivery user later s').1 ≡ s')
      × (IsAccounted s.loyalty → IsAccounted s'.loyalty)
unfolding credit_on_first_delivery
credited_once user n later s s' e = elim (Option-cases (find_first (is_member user) s.members)) [
  | inl gone ↦ ground arith
  | inr (m, f) ↦ elim (Option-cases m.referred_by) [
    | inl alone ↦ ground arith
    | inr (a, r) ↦ elim (Option-cases (find_first (is_member a) s.members)) [
      | inl left_ ↦ ground arith
      | inr (p, g) ↦
          let paid = pay_bonuses a user s.loyalty in
          let done : record s { loyalty = paid.1 } ≡ s' = ground arith in
          let again = pay_bonuses-again a user s.loyalty paid.1 (ground arith) in
          (
            subst (λ t. (credit_on_first_delivery user later t).1 ≡ t) done (ground (arith, again)),
            λ h.
                subst (λ t. IsAccounted t.loyalty) done
                  (pay_bonuses-IsAccounted a user s.loyalty h),
          )
    ]
  ]
]
