-- ===== src/Loyalty/Account.antt =====
-- Every operation of backend/src/loyalty/loyalty.service.ts accounts for the points of each user.
use shop_verse.Base.{
  ℕ, ◌+◌, ◌-◌, ◌*◌, ◌/◌, ◌≤◌, ◌≡◌, Bool, true, false, Option, none, some, ◌∷◌, find_first,
  replace_first, sum_by, leb, ltb, ◌==◌, if◌then◌else◌, arith, Result, ok, err, Error, inl, inr,
  subst, Option-cases, Bool-cases, Result-cases, find_first-test, sum_by-replace_first,
}
use shop_verse.Loyalty.{
  Loyalty, User, LoyaltyTransaction, LoyaltyType, earn, redeem, bonus, clawback, is_user, is_taken,
  create_transaction, change_points, any_points, grant, exceeds_share, redeem_points, take_back,
}

abbrev pub points_in : ℕ → User → ℕ
points_in i u = if i == u.id then u.loyalty_points else 0

abbrev pub granted_points : LoyaltyType → ℕ → ℕ
granted_points earn n = n
granted_points bonus n = n
granted_points ty n = 0

abbrev pub taken_points : LoyaltyType → ℕ → ℕ
taken_points redeem n = n
taken_points clawback n = n
taken_points ty n = 0

abbrev pub granted_in : ℕ → LoyaltyTransaction → ℕ
granted_in i t = if i == t.user_id then granted_points t.type t.points else 0

abbrev pub taken_in : ℕ → LoyaltyTransaction → ℕ
taken_in i t = if i == t.user_id then taken_points t.type t.points else 0

-- A user has at most the points that were granted, and at least those less what was taken; a
-- clawback that finds fewer points than it asks for makes the difference.
pub record IsAccounted (s : Loyalty) : Type 0 where
  pub within : (i : ℕ) → sum_by (points_in i) s.users ≤ sum_by (granted_in i) s.transactions
  pub covered :
      (i : ℕ)
      → sum_by (granted_in i) s.transactions
        ≤ sum_by (points_in i) s.users + sum_by (taken_in i) s.transactions

err-ok : {A : Type 0} {x : Error} {a : A} → err x ≡ ok a → ⊥
err-ok e = cc

abbrev done : Unit {0} → Loyalty → Result (Unit {0} × Loyalty)
done u s = ok (u, s)

done-injective : {u v : Unit {0}} {s t : Loyalty} → done u s ≡ done v t → t ≡ s
done-injective e = ground arith

pub create_transaction_lem :
    (t : LoyaltyTransaction) (s s' : Loyalty) (u : Unit {0})
    → create_transaction t s ≡ ok (u, s')
    → (s' ≡ record s { transactions = t ∷ s.transactions })
      × (is_taken t.reference s.transactions ≡ false)
      × ((x : User) × (find_first (is_user t.user_id) s.users ≡ some x))
unfolding create_transaction
create_transaction_lem t s s' u e = elim (Bool-cases (is_taken t.reference s.transactions)) [
  | inl taken ↦ absurd (err-ok (rw taken at e))
  | inr fresh ↦ elim (Option-cases (find_first (is_user t.user_id) s.users)) [
    | inl n ↦ absurd (err-ok (rw (fresh, n) at e))
    | inr (x, f) ↦ (done-injective (rw (fresh, f) at e), fresh, (x, f))
  ]
]

-- The points of a user are given anew.
abbrev put_points : ℕ → User → ℕ → Loyalty → Loyalty
put_points user x n s = record s {
  users = replace_first (is_user user) (record x { loyalty_points = n }) s.users;
}

change_points_lem :
    (user : ℕ) (cond : ℕ → Bool) (f : ℕ → ℕ) (s s' : Loyalty) (x : User) (b : Bool)
    → find_first (is_user user) s.users ≡ some x
    → change_points user cond f s ≡ ok (b, s')
    → (b ≡ cond x.loyalty_points)
      × (s' ≡ (if cond x.loyalty_points then put_points user x (f x.loyalty_points) s else s))
unfolding change_points
change_points_lem user cond f s s' x b h e = ground arith

-- Points that are granted or taken, with the transaction that records them.
post-IsAccounted :
    (s : Loyalty) (t : LoyaltyTransaction) (x : User) (n : ℕ)
    → IsAccounted s
    → find_first (is_user t.user_id) s.users ≡ some x
    → n ≤ x.loyalty_points + granted_points t.type t.points
    → x.loyalty_points + granted_points t.type t.points ≤ n + taken_points t.type t.points
    → IsAccounted (record (put_points t.user_id x n s) { transactions = t ∷ s.transactions })
post-IsAccounted s t x n h f up down =
    let y : User = record x { loyalty_points = n } in
    let same = find_first-test (is_user t.user_id) s.users x f in
    record {
      within = λ i. ground (
        arith,
        h.within i,
        same,
        up,
        sum_by-replace_first (points_in i) (is_user t.user_id) y s.users x f,
      );
      covered = λ i. ground (
        arith,
        h.covered i,
        same,
        down,
        sum_by-replace_first (points_in i) (is_user t.user_id) y s.users x f,
      );
    }

pub grant-IsAccounted :
    (t : LoyaltyTransaction) (s s' : Loyalty) (n : ℕ)
    → granted_points t.type t.points ≡ t.points
    → IsAccounted s
    → grant t s ≡ ok (n, s')
    → IsAccounted s'
unfolding grant
grant-IsAccounted t s s' n g h e = elim (Result-cases (create_transaction t s)) [
  | inr (x, u) ↦ ground arith
  | inl ((a, s1), u) ↦
      let (es, fresh, (x, f)) = create_transaction_lem t s s1 a u in
      elim (Result-cases (change_points t.user_id any_points (λ m. m + t.points) s1)) [
        | inr (y, v) ↦ ground arith
        | inl ((b, s2), v) ↦
            let (eb, ec) =
              change_points_lem t.user_id any_points (λ m. m + t.points) s1 s2 x b
                (ground (arith, es)) v in
            subst IsAccounted (ground (arith, es, ec)) (
              post-IsAccounted s t x (x.loyalty_points + t.points) h f (omega (arith, g))
                (omega (arith, g)))
      ]
]

pub take_back-IsAccounted :
    (t : LoyaltyTransaction) (s s' : Loyalty) (n : ℕ)
    → granted_points t.type t.points ≡ 0
    → taken_points t.type t.points ≡ t.points
    → IsAccounted s
    → take_back t s ≡ ok (n, s')
    → IsAccounted s'
unfolding take_back
take_back-IsAccounted t s s' n g k h e = elim (Result-cases (create_transaction t s)) [
  | inr (x, u) ↦ ground arith
  | inl ((a, s1), u) ↦
      let (es, fresh, (x, f)) = create_transaction_lem t s s1 a u in
      elim (Result-cases (change_points t.user_id any_points (λ m. m - t.points) s1)) [
        | inr (y, v) ↦ ground arith
        | inl ((b, s2), v) ↦
            let (eb, ec) =
              change_points_lem t.user_id any_points (λ m. m - t.points) s1 s2 x b
                (ground (arith, es)) v in
            subst IsAccounted (ground (arith, es, ec)) (
              post-IsAccounted s t x (x.loyalty_points - t.points) h f (omega (arith, g))
                (omega (arith, g, k)))
      ]
]

abbrev redemption : ℕ → ℕ → LoyaltyTransaction
redemption user points = record {
  user_id = user;
  order_id = none;
  points = points;
  type = redeem;
  reference = none;
}

-- A user whose row was changed had one that passed the test.
pub change_points_found :
    (user : ℕ) (cond : ℕ → Bool) (f : ℕ → ℕ) (s s' : Loyalty)
    → change_points user cond f s ≡ ok (true, s')
    → (x : User) × (find_first (is_user user) s.users ≡ some x)
      × (cond x.loyalty_points ≡ true)
      × (s' ≡ put_points user x (f x.loyalty_points) s)
unfolding change_points
change_points_found user cond f s s' e = elim (Option-cases (find_first (is_user user) s.users)) [
  | inl n ↦ ground arith
  | inr (x, h) ↦ elim (Bool-cases (cond x.loyalty_points)) [
    | inl t ↦ (x, h, t, ground arith)
    | inr n ↦ ground arith
  ]
]

pub redeem_points-IsAccounted :
    (user points : ℕ) (subtotal : Option ℕ) (s s' : Loyalty) (d : ℕ)
    → IsAccounted s
    → redeem_points user points subtotal s ≡ ok (d, s')
    → IsAccounted s' × (d ≡ points * 500000) × (exceeds_share points subtotal ≡ false)
unfolding redeem_points
redeem_points-IsAccounted user points subtotal s s' d h e =
    elim (Bool-cases (exceeds_share points subtotal)) [
      | inl over ↦ ground arith
      | inr fits ↦ elim (Result-cases (change_points user (leb points) (λ n. n - points) s)) [
        | inr (y, v) ↦ ground arith
        | inl ((false, s1), v) ↦ ground arith
        | inl ((true, s1), v) ↦
            elim (Result-cases (create_transaction (redemption user points) s1)) [
              | inr (y, u) ↦ ground arith
              | inl ((a, s2), u) ↦
                  let (x, f, c, ec) =
                    change_points_found user (leb points) (λ n. n - points) s s1 v in
                  let (es, fresh, found) =
                    create_transaction_lem (redemption user points) s1 s2 a u in
                  (
                    subst IsAccounted (ground (arith, es, ec)) (
                        post-IsAccounted s (redemption user points) x (x.loyalty_points - points) h
                          f (omega arith) (ground (arith, c))),
                    ground arith,
                    fits,
                  )
            ]
      ]
    ]

within_share :
    (points subtotal : ℕ) → ltb (subtotal / 2500000) points ≡ false → points * 2500000 ≤ subtotal
within_share points subtotal h = ground arith

-- A redemption that succeeds is worth at most a fifth of the subtotal where that is known, and
-- keeps the points of every user accounted for.
pub redeemed_within_share :
    (user points subtotal : ℕ) (s s' : Loyalty) (d : ℕ)
    → IsAccounted s
    → redeem_points user points (some subtotal) s ≡ ok (d, s')
    → (d * 5 ≤ subtotal) × IsAccounted s'
redeemed_within_share user points subtotal s s' d h e =
    let (accounted, worth, fits) =
      redeem_points-IsAccounted user points (some subtotal) s s' d h e in
    (omega (arith, worth, within_share points subtotal fits), accounted)
