-- ===== src/Coupons/Uses.antt =====
-- Repeated uses of coupons in backend/src/orders/orders.service.ts.
use shop_verse.Base.{
  find_first-replace_first_self, ◌⊎◌, ℕ, ◌+◌, ◌≡◌, refl, true, Option, some, List, [], ◌∷◌,
  find_first, replace_first, any, arith, ok, err, bad_request, inl, inr, subst, sym, Bool-cases,
  Result-cases, find_first-test, transact,
}
use shop_verse.Coupons.{
  Promotions, Coupon, has_code, is_usage, is_usable, count_use, record_usage, use_coupon,
}
use shop_verse.Coupons.Limits.{IsLimited, count_use_lem, record_usage_lem, use_coupon-IsLimited}

-- An attempt to use a coupon: when, its code, and the user if it is not a guest.
pub record Attempt : Type 0 where
  pub now : ℕ
  pub code : ℕ
  pub user : Option ℕ

abbrev pub attempt : Attempt → Promotions → Promotions
attempt a s = (transact (use_coupon a.now a.code a.user) s).1

abbrev pub attempt_all : List Attempt → Promotions → Promotions
attempt_all [] s = s
attempt_all (a ∷ rest) s = attempt_all rest (attempt a s)

attempt-IsLimited : (a : Attempt) (s : Promotions) → IsLimited s → IsLimited (attempt a s)
attempt-IsLimited a s h = elim (Result-cases (use_coupon a.now a.code a.user s)) [
  | inr (x, e) ↦ subst IsLimited (ground arith) h
  | inl ((u, s'), e) ↦
      subst IsLimited (ground arith) (use_coupon-IsLimited a.now a.code a.user s s' u h e)
]

-- Through any sequence of attempts to use coupons, by users and guests, no coupon is used more
-- often than it may be, and no user is recorded more than once for a coupon.
pub attempt_all-IsLimited :
    (attempts : List Attempt) (s : Promotions) → IsLimited s → IsLimited (attempt_all attempts s)
attempt_all-IsLimited [] s h = h
attempt_all-IsLimited (a ∷ rest) s h =
    attempt_all-IsLimited rest (attempt a s) (attempt-IsLimited a s h)

record_usage-taken :
    (coupon user : ℕ) (s : Promotions)
    → any (is_usage coupon user) s.usages ≡ true
    → record_usage coupon user s ≡ err bad_request
unfolding record_usage
record_usage-taken coupon user s h = rw h

count_use-cases :
    (now code : ℕ) (s : Promotions) (c : Coupon)
    → find_first (has_code code) s.coupons ≡ some c
    → (count_use now code s ≡ err bad_request)
      ⊎ ((t : Promotions) × (count_use now code s ≡ ok (c, t)) × (t.usages ≡ s.usages))
unfolding count_use
count_use-cases now code s c f = elim (Bool-cases (is_usable now c)) [
  | inr n ↦ inl (ground arith)
  | inl t ↦ inr (
    record s {
      coupons =
          replace_first (has_code code) (record c { used_count = c.used_count + 1 }) s.coupons;
    },
    ground arith,
    refl,
  )
]

-- After a recorded use of the coupon with a code, another is refused.
refused_again :
    (later code user : ℕ) (s : Promotions) (c : Coupon)
    → find_first (has_code code) s.coupons ≡ some c
    → any (is_usage c.id user) s.usages ≡ true
    → use_coupon later code (some user) s ≡ err bad_request
unfolding use_coupon
refused_again later code user s c f taken = elim (count_use-cases later code s c f) [
  | inl no_use ↦ ground arith
  | inr (t, counted, kept) ↦ ground (
    arith,
    record_usage-taken c.id user t
        (subst (λ us. any (is_usage c.id user) us ≡ true) (sym kept) taken),
  )
]

-- A user whose use of a coupon succeeded cannot use it again, however many uses per user the coupon
-- allows: every later attempt is a bad request.
pub used_once :
    (now later code user : ℕ) (s s' : Promotions)
    → use_coupon now code (some user) s ≡ ok (tt, s')
    → use_coupon later code (some user) s' ≡ err bad_request
unfolding use_coupon
used_once now later code user s s' e = elim (Result-cases (count_use now code s)) [
  | inr (x, v) ↦ ground arith
  | inl ((c, s1), v) ↦ elim (Result-cases (record_usage c.id user s1)) [
    | inr (x, w) ↦ ground arith
    | inl ((a, s2), w) ↦
        let (f, usable, es) = count_use_lem now code s s1 c v in
        let (fresh, et) = record_usage_lem c.id user s1 s2 a w in
        let c' : Coupon = record c { used_count = c.used_count + 1 } in
        let reads : find_first (has_code code) s'.coupons ≡ some c' = ground (
          arith,
          es,
          et,
          find_first-replace_first_self (has_code code) c' s.coupons c f
              (find_first-test (has_code code) s.coupons c f),
        ) in
        let taken : any (is_usage c.id user) s'.usages ≡ true = ground (arith, et) in
        refused_again later code user s' c' reads taken
  ]
]
