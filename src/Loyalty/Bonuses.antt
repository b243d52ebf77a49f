-- ===== src/Loyalty/Bonuses.antt =====
-- A bonus of backend/src/loyalty/loyalty.service.ts is granted once for its reference.
use shop_verse.Base.{
  not_found, bad_request, forbidden, conflict, check_violation, fault, ℕ, ◌+◌, ◌≡◌, refl, true,
  false, Option, some, ◌∷◌, arith, ok, err, Error, unique_violation, foreign_key_violation, inl,
  inr, Bool-cases, Result-cases,
}
use shop_verse.Loyalty.{
  Loyalty, LoyaltyTransaction, LoyaltyReference, is_same_reference, is_taken, create_transaction,
  change_points, any_points, grant, none_if_taken, add_bonus,
}
use shop_verse.Loyalty.Account.{IsAccounted, create_transaction_lem}
use shop_verse.Loyalty.Requests.{
  bonus_of, rewarding, serve-IsAccounted, taken_again, taken_reference, change_points_keeps,
}

abbrev record_of : (user points : ℕ) → LoyaltyReference → LoyaltyTransaction
record_of user points ref = bonus_of user points (some ref)

-- A bonus for a reference that is taken is answered with 0, and changes nothing.
pub add_bonus-taken :
    (user points : ℕ) (ref : LoyaltyReference) (s : Loyalty)
    → is_taken (some ref) s.transactions ≡ true
    → add_bonus user points (some ref) s ≡ (ok 0, s)
unfolding add_bonus
add_bonus-taken user points ref s h =
    taken_again (grant (record_of user points ref) s) s
      (taken_reference (record_of user points ref) s h)

same_self : (ref : LoyaltyReference) → is_same_reference ref ref ≡ true
same_self ref = ground arith

-- The transactions that a grant leaves are those before and its own.
grant-records :
    (t : LoyaltyTransaction) (s s' : Loyalty) (n : ℕ)
    → grant t s ≡ ok (n, s')
    → s'.transactions ≡ t ∷ s.transactions
unfolding grant
grant-records t s s' n e = elim (Result-cases (create_transaction t s)) [
  | inr (x, u) ↦ ground arith
  | inl ((a, s1), u) ↦
      let (es, fresh, found) = create_transaction_lem t s s1 a u in
      elim (Result-cases (change_points t.user_id any_points (λ k. k + t.points) s1)) [
        | inr (y, v) ↦ ground arith
        | inl ((b, s2), v) ↦
            ground
              (arith, es, change_points_keeps t.user_id any_points (λ k. k + t.points) s1 s2 b v)
      ]
]

failed_state : (x : Error) (s : Loyalty) → (none_if_taken (err x) s).1 ≡ s
unfolding none_if_taken
failed_state not_found s = refl
failed_state bad_request s = refl
failed_state forbidden s = refl
failed_state conflict s = refl
failed_state unique_violation s = refl
failed_state check_violation s = refl
failed_state foreign_key_violation s = refl
failed_state fault s = refl

granted_state : (n : ℕ) (s s' : Loyalty) → none_if_taken (ok (n, s')) s ≡ (ok n, s')
unfolding none_if_taken
granted_state n s s' = refl

-- A reference that is taken stays so.
pub add_bonus-keeps :
    (user points : ℕ) (ref other : LoyaltyReference) (s : Loyalty)
    → is_taken (some other) s.transactions ≡ true
    → is_taken (some other) (add_bonus user points (some ref) s).1.transactions ≡ true
unfolding add_bonus
add_bonus-keeps user points ref other s h =
    let t : LoyaltyTransaction = record_of user points ref in
    elim (Result-cases (grant t s)) [
      | inr (x, e) ↦ ground (arith, e, failed_state x s)
      | inl ((n, s'), e) ↦ ground (arith, e, granted_state n s s', grant-records t s s' n e)
    ]

fresh_failure :
    (t : LoyaltyTransaction) (s : Loyalty) (x : Error)
    → is_taken t.reference s.transactions ≡ false
    → grant t s ≡ err x
    → x ≡ foreign_key_violation
unfolding grant create_transaction change_points
fresh_failure t s x fresh e = ground arith

-- A bonus that is answered without an error has taken its reference.
pub add_bonus-records :
    (user points n : ℕ) (ref : LoyaltyReference) (s s' : Loyalty)
    → add_bonus user points (some ref) s ≡ (ok n, s')
    → is_taken (some ref) s'.transactions ≡ true
unfolding add_bonus none_if_taken
add_bonus-records user points n ref s s' e =
    let t : LoyaltyTransaction = record_of user points ref in
    elim (Bool-cases (is_taken (some ref) s.transactions)) [
      | inl taken ↦ ground (arith, taken, taken_reference t s taken)
      | inr fresh ↦ elim (Result-cases (grant t s)) [
        | inr (x, g) ↦ ground (arith, g, fresh_failure t s x fresh g)
        | inl ((m, s1), g) ↦ ground (arith, g, grant-records t s s1 m g, same_self ref)
      ]
    ]

pub add_bonus-IsAccounted :
    (user points : ℕ) (ref : Option LoyaltyReference) (s : Loyalty)
    → IsAccounted s
    → IsAccounted (add_bonus user points ref s).1
add_bonus-IsAccounted user points ref s h = serve-IsAccounted (rewarding user points ref) s h
