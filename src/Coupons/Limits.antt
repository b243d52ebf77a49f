-- ===== src/Coupons/Limits.antt =====
-- The limits of a coupon in backend/src/coupons/coupons.service.ts and
-- backend/src/orders/orders.service.ts.
use shop_verse.Base.{
  Error, ℕ, ◌+◌, ◌*◌, ◌≤◌, ◌≡◌, refl, Bool, true, false, ◌&&◌, Option, none, some, List, [], ◌∷◌,
  find_first, replace_first, count_where, any, All, ◌==◌, arith, Result, ok, err, inl, inr, subst,
  sym, Option-cases, Bool-cases, Result-cases, All-replace_first,
}
use shop_verse.Coupons.{
  Promotions, Coupon, CouponUsage, has_code, is_usage, calc_discount, calc_cashback, is_reached,
  is_usable, count_use, record_usage, use_coupon,
}

-- A discount and a cashback together are at most the amount, and only one of them is given.
pub discount_bounded :
    (c : Coupon) (amount : ℕ) → calc_discount c amount + calc_cashback c amount ≤ amount * 100
unfolding calc_discount calc_cashback
discount_bounded c amount = ground arith

abbrev pub IsWithinLimit : ℕ → Option ℕ → Type 0
IsWithinLimit n none = Unit
IsWithinLimit n (some limit) = n ≤ limit

abbrev pub IsWithinUses : Coupon → Type 0
IsWithinUses c = IsWithinLimit c.used_count c.max_uses

-- No coupon is used more often than it may be, and no user is recorded twice for a coupon.
pub record IsLimited (s : Promotions) : Type 0 where
  pub uses : All IsWithinUses s.coupons
  pub once : (coupon user : ℕ) → count_where (is_usage coupon user) s.usages ≤ 1

pub count_use_lem :
    (now code : ℕ) (s s' : Promotions) (c : Coupon)
    → count_use now code s ≡ ok (c, s')
    → (find_first (has_code code) s.coupons ≡ some c)
      × (is_usable now c ≡ true)
      × (s' ≡ record s {
        coupons =
            replace_first (has_code code) (record c { used_count = c.used_count + 1 }) s.coupons;
      })
unfolding count_use
count_use_lem now code s s' c e = elim (Option-cases (find_first (has_code code) s.coupons)) [
  | inl n ↦ ground arith
  | inr (x, f) ↦ elim (Bool-cases (is_usable now x)) [
    | inr n ↦ ground arith
    | inl t ↦ (ground arith, ground arith, ground arith)
  ]
]

uses_left-IsWithinLimit :
    (limit : Option ℕ) (n : ℕ) → is_reached n limit ≡ false → IsWithinLimit (n + 1) limit
uses_left-IsWithinLimit none n h = tt
uses_left-IsWithinLimit (some l) n h = ground arith

usable-IsWithinUses :
    (now : ℕ) (c : Coupon)
    → is_usable now c ≡ true
    → IsWithinUses (record c { used_count = c.used_count + 1 })
usable-IsWithinUses now c h = uses_left-IsWithinLimit c.max_uses c.used_count (ground arith)

count_where-none :
    (p q : CouponUsage → Bool) (us : List CouponUsage)
    → ((x : CouponUsage) → q x ≡ true → p x ≡ true)
    → any p us ≡ false
    → count_where q us ≡ 0
count_where-none p q [] f h = refl
count_where-none p q (x ∷ xs) f h = ground (arith, f x, count_where-none p q xs f)

agree_trans :
    (a b c d x y : ℕ)
    → (a == c && b == d) ≡ true
    → (a == x && b == y) ≡ true
    → (c == x && d == y) ≡ true
agree_trans a b c d x y h k = ground arith

err-ok : {A : Type 0} {x : Error} {a : A} → err x ≡ ok a → ⊥
err-ok e = cc

abbrev done : Unit {0} → Promotions → Result (Unit {0} × Promotions)
done u s = ok (u, s)

done-injective : {u v : Unit {0}} {s t : Promotions} → done u s ≡ done v t → t ≡ s
done-injective e = ground arith

pub record_usage_lem :
    (coupon user : ℕ) (s s' : Promotions) (u : Unit {0})
    → record_usage coupon user s ≡ ok (u, s')
    → (any (is_usage coupon user) s.usages ≡ false)
      × (s' ≡ record s { usages = record { coupon_id = coupon; user_id = user } ∷ s.usages })
unfolding record_usage
record_usage_lem coupon user s s' u e = elim (Bool-cases (any (is_usage coupon user) s.usages)) [
  | inl taken ↦ absurd (err-ok (rw taken at e))
  | inr fresh ↦ (fresh, done-injective (rw fresh at e))
]

usage-once :
    (coupon user i j : ℕ) (us : List CouponUsage)
    → any (is_usage coupon user) us ≡ false
    → count_where (is_usage i j) us ≤ 1
    → count_where (is_usage i j) (record { coupon_id = coupon; user_id = user } ∷ us) ≤ 1
usage-once coupon user i j us fresh h = elim (Bool-cases (i == coupon && j == user)) [
  | inl same ↦
      let none_yet : count_where (is_usage i j) us ≡ 0 =
        count_where-none (is_usage coupon user) (is_usage i j) us
          (λ x. agree_trans i j coupon user x.coupon_id x.user_id same) fresh in
      rw same (omega (arith, none_yet))
  | inr other ↦ rw other (omega (arith, h))
]

counted-IsLimited :
    (now code : ℕ) (s s' : Promotions) (c : Coupon)
    → IsLimited s
    → count_use now code s ≡ ok (c, s')
    → IsLimited s'
counted-IsLimited now code s s' c h e =
    let (f, usable, es) = count_use_lem now code s s' c e in
    let c' : Coupon = record c { used_count = c.used_count + 1 } in
    subst IsLimited (sym es) (record {
      uses =
          All-replace_first IsWithinUses (has_code code) c' s.coupons h.uses
            (usable-IsWithinUses now c usable);
      once = h.once;
    })

recorded-IsLimited :
    (coupon user : ℕ) (s s' : Promotions) (u : Unit {0})
    → IsLimited s
    → record_usage coupon user s ≡ ok (u, s')
    → IsLimited s'
recorded-IsLimited coupon user s s' u h e =
    let (fresh, es) = record_usage_lem coupon user s s' u e in
    subst IsLimited (sym es) (record {
      uses = h.uses;
      once = λ i j. usage-once coupon user i j s.usages fresh (h.once i j);
    })

pub use_coupon-IsLimited :
    (now code : ℕ) (user : Option ℕ) (s s' : Promotions) (u : Unit {0})
    → IsLimited s
    → use_coupon now code user s ≡ ok (u, s')
    → IsLimited s'
unfolding use_coupon
use_coupon-IsLimited now code none s s' u h e = elim (Result-cases (count_use now code s)) [
  | inr (x, v) ↦ ground arith
  | inl ((c, s1), v) ↦ subst IsLimited (ground arith) (counted-IsLimited now code s s1 c h v)
]
use_coupon-IsLimited now code (some user) s s' u h e = elim (Result-cases (count_use now code s)) [
  | inr (x, v) ↦ ground arith
  | inl ((c, s1), v) ↦ elim (Result-cases (record_usage c.id user s1)) [
    | inr (x, w) ↦ ground arith
    | inl ((a, s2), w) ↦
        subst IsLimited (ground arith)
          (recorded-IsLimited c.id user s1 s2 a (counted-IsLimited now code s s1 c h v) w)
  ]
]
