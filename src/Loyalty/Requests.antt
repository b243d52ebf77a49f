-- ===== src/Loyalty/Requests.antt =====
-- Sequences of requests to backend/src/loyalty/loyalty.service.ts, and a request that is repeated.
use shop_verse.Base.{
  not_found, bad_request, forbidden, conflict, check_violation, fault, ℕ, ◌+◌, ◌/◌, ◌<◌, ◌≡◌, refl,
  Bool, true, Option, none, some, List, [], ◌∷◌, find_first, leb, arith, Result, ok, err,
  unique_violation, foreign_key_violation, inl, inr, subst, sym, Option-cases, Bool-cases,
  Result-cases,
}
use shop_verse.Loyalty.{
  Loyalty, is_user, LoyaltyTransaction, LoyaltyReference, earn, bonus, clawback, earn_order,
  clawback_order, is_taken, create_transaction, change_points, any_points, grant, none_if_taken,
  earn_points, redeem_points, is_earning, take_back, clawback_points, add_bonus,
}
use shop_verse.Loyalty.Account.{
  IsAccounted, grant-IsAccounted, take_back-IsAccounted, redeem_points-IsAccounted,
  create_transaction_lem,
}

-- What a client asks for.
pub data Request : Type 0 where
  earning : (user order total : ℕ) → Request
  redeeming : (user points : ℕ) → Option ℕ → Request
  clawing : (user order : ℕ) → Request
  rewarding : (user points : ℕ) → Option LoyaltyReference → Request

abbrev pub or_rolled_back : Result (ℕ × Loyalty) → Loyalty → Loyalty
or_rolled_back (ok (n, s')) s = s'
or_rolled_back (err e) s = s

abbrev pub serve : Request → Loyalty → Loyalty
serve (earning user order total) s = (earn_points user order total s).1
serve (redeeming user points subtotal) s = or_rolled_back (redeem_points user points subtotal s) s
serve (clawing user order) s = (clawback_points user order s).1
serve (rewarding user points ref) s = (add_bonus user points ref s).1

abbrev pub serve_all : List Request → Loyalty → Loyalty
serve_all [] s = s
serve_all (q ∷ qs) s = serve_all qs (serve q s)

none_if_taken-IsAccounted :
    (r : Result (ℕ × Loyalty)) (s : Loyalty)
    → IsAccounted s
    → ((n : ℕ) (s' : Loyalty) → r ≡ ok (n, s') → IsAccounted s')
    → IsAccounted (none_if_taken r s).1
unfolding none_if_taken
none_if_taken-IsAccounted (ok (n, s')) s h f = f n s' refl
none_if_taken-IsAccounted (err not_found) s h f = h
none_if_taken-IsAccounted (err bad_request) s h f = h
none_if_taken-IsAccounted (err forbidden) s h f = h
none_if_taken-IsAccounted (err conflict) s h f = h
none_if_taken-IsAccounted (err unique_violation) s h f = h
none_if_taken-IsAccounted (err check_violation) s h f = h
none_if_taken-IsAccounted (err foreign_key_violation) s h f = h
none_if_taken-IsAccounted (err fault) s h f = h

abbrev earning_of : ℕ → ℕ → ℕ → LoyaltyTransaction
earning_of user order n = record {
  user_id = user;
  order_id = some order;
  points = n;
  type = earn;
  reference = some (earn_order order);
}

abbrev clawback_of : ℕ → ℕ → ℕ → LoyaltyTransaction
clawback_of user order n = record {
  user_id = user;
  order_id = some order;
  points = n;
  type = clawback;
  reference = some (clawback_order order);
}

abbrev pub bonus_of : ℕ → ℕ → Option LoyaltyReference → LoyaltyTransaction
bonus_of user n ref = record {
  user_id = user;
  order_id = none;
  points = n;
  type = bonus;
  reference = ref;
}

pub serve-IsAccounted : (q : Request) (s : Loyalty) → IsAccounted s → IsAccounted (serve q s)
unfolding earn_points clawback_points add_bonus
serve-IsAccounted (earning user order total) s h = elim (Bool-cases (leb (total / 10000000) 0)) [
  | inl zero_points ↦ subst IsAccounted (ground arith) h
  | inr some_points ↦ subst IsAccounted (ground arith) (
      none_if_taken-IsAccounted (grant (earning_of user order (total / 10000000)) s) s h
        (λ n s' e. grant-IsAccounted (earning_of user order (total / 10000000)) s s' n refl h e))
]
serve-IsAccounted (redeeming user points subtotal) s h =
    elim (Result-cases (redeem_points user points subtotal s)) [
      | inl ((d, s'), e) ↦
          subst IsAccounted (ground arith)
            (redeem_points-IsAccounted user points subtotal s s' d h e).0
      | inr (x, e) ↦ subst IsAccounted (ground arith) h
    ]
serve-IsAccounted (clawing user order) s h =
    elim (Option-cases (find_first (is_earning user order) s.transactions)) [
      | inl n ↦ subst IsAccounted (ground arith) h
      | inr (t, f) ↦ elim (Bool-cases (leb t.points 0)) [
        | inl zero_points ↦ subst IsAccounted (ground arith) h
        | inr some_points ↦ subst IsAccounted (ground arith) (
            none_if_taken-IsAccounted (take_back (clawback_of user order t.points) s) s h (λ n s' e.
              take_back-IsAccounted (clawback_of user order t.points) s s' n refl refl h e))
      ]
    ]
serve-IsAccounted (rewarding user points ref) s h =
    none_if_taken-IsAccounted (grant (bonus_of user points ref) s) s h
      (λ n s' e. grant-IsAccounted (bonus_of user points ref) s s' n refl h e)

-- Through any sequence of requests, whichever of them fail, a user has at most the points that were
-- earned and granted, and at least those less what was redeemed and clawed back.
pub serve_all-IsAccounted :
    (qs : List Request) (s : Loyalty) → IsAccounted s → IsAccounted (serve_all qs s)
serve_all-IsAccounted [] s h = h
serve_all-IsAccounted (q ∷ qs) s h = serve_all-IsAccounted qs (serve q s) (serve-IsAccounted q s h)

pub taken_again :
    (r : Result (ℕ × Loyalty)) (s : Loyalty)
    → r ≡ err unique_violation
    → none_if_taken r s ≡ (ok 0, s)
unfolding none_if_taken
taken_again r s e = subst (λ x. none_if_taken x s ≡ (ok 0, s)) (sym e) refl

create_transaction-taken :
    (t : LoyaltyTransaction) (s : Loyalty)
    → is_taken t.reference s.transactions ≡ true
    → create_transaction t s ≡ err unique_violation
unfolding create_transaction
create_transaction-taken t s h = rw h

pub taken_reference :
    (t : LoyaltyTransaction) (s : Loyalty)
    → is_taken t.reference s.transactions ≡ true
    → grant t s ≡ err unique_violation
unfolding grant
taken_reference t s h = ground (arith, create_transaction-taken t s h)

pub change_points_keeps :
    (user : ℕ) (cond : ℕ → Bool) (f : ℕ → ℕ) (s s' : Loyalty) (b : Bool)
    → change_points user cond f s ≡ ok (b, s')
    → s'.transactions ≡ s.transactions
unfolding change_points
change_points_keeps user cond f s s' b e = elim (Option-cases (find_first (is_user user) s.users)) [
  | inl n ↦ ground arith
  | inr (x, h) ↦ elim (Bool-cases (cond x.loyalty_points)) [
    | inl t ↦ ground arith
    | inr n ↦ ground arith
  ]
]

-- Points that an order has earned are recorded under its reference.
grant-is_taken :
    (user order n m : ℕ) (s s' : Loyalty)
    → grant (earning_of user order n) s ≡ ok (m, s')
    → is_taken (some (earn_order order)) s'.transactions ≡ true
unfolding grant
grant-is_taken user order n m s s' e =
    let t : LoyaltyTransaction = earning_of user order n in
    elim (Result-cases (create_transaction t s)) [
      | inr (x, u) ↦ ground arith
      | inl ((a, s1), u) ↦
          let (es, fresh, found) = create_transaction_lem t s s1 a u in
          elim (Result-cases (change_points user any_points (λ k. k + n) s1)) [
            | inr (y, v) ↦ ground arith
            | inl ((b, s2), v) ↦
                ground (arith, es, change_points_keeps user any_points (λ k. k + n) s1 s2 b v)
          ]
    ]

none_if_taken-ok :
    (r : Result (ℕ × Loyalty)) (s s' : Loyalty) (n : ℕ)
    → 0 < n
    → none_if_taken r s ≡ (ok n, s')
    → r ≡ ok (n, s')
unfolding none_if_taken
none_if_taken-ok (ok (m, t)) s s' n pos e = ground arith
none_if_taken-ok (err not_found) s s' n pos e = ground arith
none_if_taken-ok (err bad_request) s s' n pos e = ground arith
none_if_taken-ok (err forbidden) s s' n pos e = ground arith
none_if_taken-ok (err conflict) s s' n pos e = ground arith
none_if_taken-ok (err unique_violation) s s' n pos e = ground arith
none_if_taken-ok (err check_violation) s s' n pos e = ground arith
none_if_taken-ok (err foreign_key_violation) s s' n pos e = ground arith
none_if_taken-ok (err fault) s s' n pos e = ground arith

-- Once an order has earned points, it earns none again, whoever is named and whatever the total:
-- the answer is 0 and nothing changes.
pub earned_once :
    (user other order total later n : ℕ) (s s' : Loyalty)
    → 0 < n
    → earn_points user order total s ≡ (ok n, s')
    → earn_points other order later s' ≡ (ok 0, s')
unfolding earn_points
earned_once user other order total later n s s' pos e =
    elim (Bool-cases (leb (total / 10000000) 0)) [
      | inl zero_points ↦ ground arith
      | inr some_points ↦
          let granted : grant (earning_of user order (total / 10000000)) s ≡ ok (n, s') =
            none_if_taken-ok (grant (earning_of user order (total / 10000000)) s) s s' n pos
              (ground arith) in
          let taken : is_taken (some (earn_order order)) s'.transactions ≡ true =
            grant-is_taken user order (total / 10000000) n s s' granted in
          ground (
            arith,
            taken_again (grant (earning_of other order (later / 10000000)) s') s'
                (taken_reference (earning_of other order (later / 10000000)) s' taken),
          )
    ]
