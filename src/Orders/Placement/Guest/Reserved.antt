-- ===== src/Orders/Placement/Guest/Reserved.antt =====
-- The stock that placeGuestOrder in backend/src/orders/orders.service.ts reserves.
use shop_verse.Base.{
  ℕ, ◌≡◌, ◌⊎◌, refl, false, some, List, [], ◌∷◌, map, arith, ok, inl, inr, subst, Option-cases,
  Result-cases,
}
use shop_verse.Stock.{Stock, ensure_row, get_default_warehouse_id}
use shop_verse.Stock.Consistency.{IsConsistent, ensure_row-IsConsistent}
use shop_verse.Stock.Reserved.{reserved_at, reserved_at-ensure_row}
use shop_verse.Inventory.{reserve, reserve_sellable}
use shop_verse.Reservation.{CartReservationItem}
use shop_verse.Reservation.Invariant.Creation.{IsReserved, reserve_sellable_lem}
use shop_verse.Orders.Placement.Guest.{GuestItem, reserve_all}

-- An item as it is reserved in a warehouse.
abbrev pub in_warehouse : ℕ → GuestItem → CartReservationItem
in_warehouse wh it = record {
  variant_id = it.variant_id;
  warehouse_id = wh;
  quantity = it.quantity;
  locked_price = 0;
  locked_mrp = 0;
}

ensure_row-default :
    (wh v : ℕ) (s s' : Stock)
    → ensure_row wh v s ≡ ok (tt, s')
    → s'.default_warehouse ≡ s.default_warehouse
unfolding ensure_row
ensure_row-default wh v s s' h = ground arith

reserve_sellable-default :
    (wh v qty : ℕ) (s s' : Stock)
    → reserve_sellable wh v qty s ≡ ok (tt, s')
    → s'.default_warehouse ≡ s.default_warehouse
unfolding reserve_sellable
reserve_sellable-default wh v qty s s' h = ground arith

reserve-IsReserved :
    (wh : ℕ) (it : GuestItem) (s s' : Stock)
    → IsConsistent s
    → s.default_warehouse ≡ some wh
    → reserve it.variant_id it.quantity false s ≡ ok (tt, s')
    → IsReserved (in_warehouse wh it ∷ []) s s' × (s'.default_warehouse ≡ some wh)
unfolding reserve get_default_warehouse_id
reserve-IsReserved wh it s s' c d h = elim (Result-cases (ensure_row wh it.variant_id s)) [
  | inr (x, en) ↦ ground arith
  | inl ((u, t), en) ↦
      let kept : (a b : ℕ) → reserved_at a b t ≡ reserved_at a b s =
        λ a b. reserved_at-ensure_row a b wh it.variant_id s t en in
      let taken : reserve_sellable wh it.variant_id it.quantity t ≡ ok (tt, s') = ground arith in
      let moved =
        reserve_sellable_lem (in_warehouse wh it) t s'
          (ensure_row-IsConsistent wh it.variant_id s t c en) taken in
      (
        record {
          consistent = moved.consistent;
          reserved_more = λ a b. omega (arith, moved.reserved_more a b, kept a b);
        },
        ground (
          arith,
          ensure_row-default wh it.variant_id s t en,
          reserve_sellable-default wh it.variant_id it.quantity t s' taken,
        ),
      )
]

pub reserve_all-IsReserved :
    (wh : ℕ) (its : List GuestItem) (s s' : Stock)
    → IsConsistent s
    → s.default_warehouse ≡ some wh
    → reserve_all its s ≡ ok (tt, s')
    → IsReserved (map (in_warehouse wh) its) s s'
unfolding reserve_all
reserve_all-IsReserved wh [] s s' c d h = record {
  consistent = subst IsConsistent (ground arith) c;
  reserved_more = λ a b. ground arith;
}
reserve_all-IsReserved wh (it ∷ its) s s' c d h =
    elim (Result-cases (reserve it.variant_id it.quantity false s)) [
      | inr (x, e) ↦ ground arith
      | inl ((u, t), e) ↦
          let (first, d1) = reserve-IsReserved wh it s t c d e in
          let rest = reserve_all-IsReserved wh its t s' first.consistent d1 (ground arith) in
          record {
            consistent = rest.consistent;
            reserved_more = λ a b. omega (arith, first.reserved_more a b, rest.reserved_more a b);
          }
    ]

-- Without a DEFAULT warehouse nothing can be reserved.
pub reserve_all-default :
    (its : List GuestItem) (s s' : Stock)
    → reserve_all its s ≡ ok (tt, s')
    → ((wh : ℕ) × (s.default_warehouse ≡ some wh)) ⊎ (its ≡ []) × (s' ≡ s)
unfolding reserve_all reserve get_default_warehouse_id
reserve_all-default [] s s' h = inr (refl, ground arith)
reserve_all-default (it ∷ its) s s' h = elim (Option-cases s.default_warehouse) [
  | inl e ↦ ground arith
  | inr (wh, e) ↦ inl (wh, e)
]
