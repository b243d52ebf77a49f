-- ===== src/Orders/Placement/Guest/Cases.antt =====
-- How a call of placeGuestOrder in backend/src/orders/orders.service.ts can end.
use shop_verse.Base.{
  map, ℕ, ◌+◌, ◌*◌, ◌≤◌, ◌≡◌, ◌⊎◌, Option, none, some, List, [], ◌∷◌, ◌++◌, find_first, arith, ok,
  err, Error, inl, inr, Option-cases, Result-cases, Bool-cases,
}
use shop_verse.Stock.{Stock, is_variant}
use shop_verse.Coupons.Limits.{IsLimited, use_coupon-IsLimited}
use shop_verse.Coupons.{Promotions, use_coupon}
use shop_verse.Orders.Pricing.{quote, get_store_config}
use shop_verse.Orders.Tables.{Shop}
use shop_verse.Orders.Placement.{
  of_new, Environment, NewItem, order_lines, count_items, discount_of, new_total,
}
use shop_verse.Orders.Placement.Preparation.{discount_of_lem}
use shop_verse.Orders.Placement.Guest.{
  of_guest_item, GuestItem, GuestOrder, GuestDraft, check_item, check_items, prepare_guest,
  reserve_all, guest_order, create_guest_order, use_guest_code, write_guest_order, tracked,
  place_guest_order,
}

check_item_lem :
    (env : Environment) (it : GuestItem) (s s' : Shop) (n : NewItem)
    → check_item env it s ≡ ok (n, s')
    → (s' ≡ s) × (n.variant_id ≡ it.variant_id) × (n.quantity ≡ it.quantity)
unfolding check_item
check_item_lem env it s s' n e =
    elim (Option-cases (find_first (is_variant it.variant_id) s.stock.variants)) [
      | inl k ↦ ground arith
      | inr (v, f) ↦ ground arith
    ]

check_items_lem :
    (env : Environment) (its : List GuestItem) (s s' : Shop) (ns : List NewItem)
    → check_items env its s ≡ ok (ns, s')
    → (s' ≡ s) × (map of_new ns ≡ map of_guest_item its)
unfolding check_items
check_items_lem env [] s s' ns e = ground arith
check_items_lem env (it ∷ its) s s' ns e = elim (Result-cases (check_item env it s)) [
  | inr (x, k) ↦ ground arith
  | inl ((n, t), k) ↦ elim (Result-cases (check_items env its t)) [
    | inr (x, l) ↦ ground arith
    | inl ((ms, u), l) ↦
        ground (arith, check_item_lem env it s t n k, check_items_lem env its t u ms l)
  ]
]

-- What is known of a draft that passed the checks.
pub record IsQuoted (env : Environment) (dto : GuestOrder) (d : GuestDraft) : Type 0 where
  pub ordered : map of_new d.items ≡ map of_guest_item dto.items
  pub discount : ℕ
  pub discount_bound : discount ≤ new_total d.items * 100
  pub amounts :
      d.amounts
      ≡ quote env.tax_strategy (get_store_config env.settings) (new_total d.items * 100) discount

prepare_guest_lem :
    (env : Environment) (now : ℕ) (dto : GuestOrder) (s s' : Shop) (d : GuestDraft)
    → prepare_guest env now dto s ≡ ok (d, s')
    → (s' ≡ s) × IsQuoted env dto d
unfolding prepare_guest
prepare_guest_lem env now dto s s' d e = elim (Bool-cases env.is_blocked) [
  | inl b ↦ ground arith
  | inr b ↦ elim (Result-cases (check_items env dto.items s)) [
    | inr (x, k) ↦ ground arith
    | inl ((ns, t), k) ↦
        elim (Result-cases (discount_of now (new_total ns) dto.coupon_code none t)) [
          | inr (x, l) ↦ ground arith
          | inl ((n, u), l) ↦
              let (same, bound) = discount_of_lem now (new_total ns) dto.coupon_code none t u n l in
              (
                ground (arith, check_items_lem env dto.items s t ns k, same),
                record {
                  ordered = ground (arith, check_items_lem env dto.items s t ns k);
                  discount = n;
                  discount_bound = ground (arith, bound);
                  amounts = ground arith;
                },
              )
        ]
  ]
]

use_guest_code_lem :
    (now : ℕ) (code : Option ℕ) (s s' : Shop) (u : Unit {0})
    → use_guest_code now code s ≡ ok (u, s')
    → (p : Promotions) × (s' ≡ record s { promotions = p }) × (IsLimited s.promotions → IsLimited p)
unfolding use_guest_code
use_guest_code_lem now none s s' u e = (s.promotions, ground arith, λ h. h)
use_guest_code_lem now (some code) s s' u e =
    elim (Result-cases (use_coupon now code none s.promotions)) [
      | inr (x, v) ↦ ground arith
      | inl ((a, p), v) ↦
          (p, ground arith, λ h. use_coupon-IsLimited now code none s.promotions p a h v)
    ]

-- The rows that the transaction writes, after the stock is `t`.
abbrev pub guest_written : (now : ℕ) → GuestDraft → Shop → Stock → Promotions → Shop
guest_written now d s t p = record s {
  stock = t;
  orders = guest_order now s.next_order d ∷ s.orders;
  items = order_lines s.next_order s.next_item d.items ++ s.items;
  next_order = s.next_order + 1;
  next_item = s.next_item + count_items d.items;
  promotions = p;
}

-- What is known when the transaction commits.
pub record GuestPassed (env : Environment) (now : ℕ) (dto : GuestOrder) (s : Shop) : Type 0 where
  pub draft : GuestDraft
  pub stock : Stock
  pub promotions : Promotions
  pub quoted : IsQuoted env dto draft
  pub taken : reserve_all dto.items s.stock ≡ ok (tt, stock)
  pub limited : IsLimited s.promotions → IsLimited promotions

pub place_guest_order-cases :
    (env : Environment) (now : ℕ) (dto : GuestOrder) (s : Shop)
    → ((e : Error) × (place_guest_order env now dto s ≡ (err e, s)))
      ⊎ ((w : GuestPassed env now dto s) × (place_guest_order env now dto s ≡ (
        ok (guest_order now s.next_order w.draft),
        tracked now
            (guest_order now s.next_order w.draft)
            (guest_written now w.draft s w.stock w.promotions),
      )))
unfolding place_guest_order write_guest_order create_guest_order
place_guest_order-cases env now dto s = elim (Result-cases (prepare_guest env now dto s)) [
  | inr (e, q) ↦ inl (e, ground arith)
  | inl ((d, s1), q) ↦
      let (same, quoted) = prepare_guest_lem env now dto s s1 d q in
      elim (Result-cases (reserve_all dto.items s.stock)) [
        | inr (e, w) ↦ inl (e, ground (arith, same))
        | inl ((u, t), w) ↦
            let s2 : Shop = guest_written now d s t s.promotions in
            elim (Result-cases (use_guest_code now d.coupon_code s2)) [
              | inr (e, c) ↦ inl (e, ground (arith, same))
              | inl ((a, s3), c) ↦
                  let (p, wrote, limited) = use_guest_code_lem now d.coupon_code s2 s3 a c in
                  inr (
                    record {
                      draft = d;
                      stock = t;
                      promotions = p;
                      quoted = quoted;
                      taken = w;
                      limited = limited;
                    },
                    ground (arith, same, wrote),
                  )
            ]
      ]
]
