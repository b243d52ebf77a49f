-- ===== src/Orders/Placement/Guest/Outcome.antt =====
-- What placeGuestOrder in backend/src/orders/orders.service.ts writes and keeps.
use shop_verse.Base.{
  ℕ, ◌+◌, ◌*◌, ◌≤◌, ◌≡◌, ◌⊎◌, refl, none, some, List, ◌∷◌, ◌++◌, map, sum_by, arith, ok, err, Error,
  inl, inr, subst,
}
use shop_verse.Stock.{Stock}
use shop_verse.Stock.Consistency.{IsConsistent}
use shop_verse.Stock.Reserved.{reserved_at}
use shop_verse.Reservation.Invariant.Creation.{IsReserved}
use shop_verse.Orders.Pricing.{quote}
use shop_verse.Orders.Tables.{Shop, Order, OrderItem}
use shop_verse.Orders.Placement.{of_line, Environment, order_lines}
use shop_verse.Orders.Placement.Invariants.{IsWellFormed}
use shop_verse.Orders.Placement.Guest.{
  of_guest_item, GuestItem, GuestOrder, reserve_all, guest_order, tracked, place_guest_order,
}
use shop_verse.Orders.Placement.Guest.Reserved.{
  in_warehouse, reserve_all-IsReserved, reserve_all-default,
}
use shop_verse.Orders.Placement.Writes.{lines_total, lines_ordered}
use shop_verse.Orders.Placement.Guest.Cases.{guest_written, place_guest_order-cases}

-- What a successful placement for a guest does to the shop.
pub record IsFilled (wh : ℕ) (dto : GuestOrder) (s s' : Shop) (o : Order) : Type 0 where
  pub reserved : IsReserved (map (in_warehouse wh) dto.items) s.stock s'.stock
  pub added : s'.orders ≡ o ∷ s.orders
  pub of_guest : o.user_id ≡ none
  pub lines : List OrderItem
  pub lines_added : s'.items ≡ lines ++ s.items
  pub ordered : map of_line lines ≡ map of_guest_item dto.items
  pub subtotal : sum_by (λ l. l.price * l.quantity) lines ≡ o.subtotal
  pub discount : o.discount_amount ≤ o.subtotal
  pub adds_up : o.total + o.discount_amount ≡ o.subtotal + o.shipping_fee + o.tax_amount

-- On consistent tables with a DEFAULT warehouse, a guest's order either fails and changes nothing,
-- or it succeeds: then exactly the quantities of its items have been reserved in the DEFAULT
-- warehouse and the tables are still consistent, the order belongs to no user and has a line with
-- the variant and the quantity of each item, its subtotal is the sum of its lines, its discount is
-- at most that, and its total is the subtotal less the discount, with the fee and the tax.
pub place_guest_order_outcome :
    (env : Environment) (now wh : ℕ) (dto : GuestOrder) (s : Shop)
    → IsConsistent s.stock
    → s.stock.default_warehouse ≡ some wh
    → ((e : Error) × (place_guest_order env now dto s ≡ (err e, s)))
      ⊎ ((o : Order) × (s' : Shop) × (place_guest_order env now dto s ≡ (ok o, s'))
          × IsFilled wh dto s s' o)
unfolding quote
place_guest_order_outcome env now wh dto s c d = elim (place_guest_order-cases env now dto s) [
  | inl failed ↦ inl failed
  | inr (w, q) ↦ inr (
    guest_order now s.next_order w.draft,
    tracked now (guest_order now s.next_order w.draft)
        (guest_written now w.draft s w.stock w.promotions),
    q,
    record {
      reserved = reserve_all-IsReserved wh dto.items s.stock w.stock c d w.taken;
      added = refl;
      of_guest = refl;
      lines = order_lines s.next_order s.next_item w.draft.items;
      lines_added = refl;
      ordered =
          ground (arith, lines_ordered s.next_order s.next_item w.draft.items, w.quoted.ordered);
      subtotal =
          ground (arith, lines_total s.next_order s.next_item w.draft.items, w.quoted.amounts);
      discount = ground (arith, w.quoted.amounts, w.quoted.discount_bound);
      adds_up = ground (arith, w.quoted.amounts, w.quoted.discount_bound);
    },
  )
]

reserve_all-grows :
    (its : List GuestItem) (s s' : Stock)
    → IsConsistent s
    → reserve_all its s ≡ ok (tt, s')
    → IsConsistent s' × ((a b : ℕ) → reserved_at a b s ≤ reserved_at a b s')
reserve_all-grows its s s' c e = elim (reserve_all-default its s s' e) [
  | inl (wh, d) ↦
      let r = reserve_all-IsReserved wh its s s' c d e in
      (r.consistent, λ a b. omega (arith, r.reserved_more a b))
  | inr (empty, same) ↦ (subst IsConsistent (ground arith) c, λ a b. ground arith)
]

-- A guest's placement keeps the invariants of the stock, the reservations, the books and the
-- coupons, whether it succeeds or fails.
pub place_guest_order-IsWellFormed :
    (env : Environment) (now : ℕ) (dto : GuestOrder) (s : Shop)
    → IsWellFormed s
    → IsWellFormed (place_guest_order env now dto s).1
place_guest_order-IsWellFormed env now dto s h = elim (place_guest_order-cases env now dto s) [
  | inl (e, q) ↦ subst IsWellFormed (ground arith) h
  | inr (w, q) ↦
      let (consistent, grows) =
        reserve_all-grows dto.items s.stock w.stock h.reserved.consistent w.taken in
      let o : Order = guest_order now s.next_order w.draft in
      let after : IsWellFormed (tracked now o (guest_written now w.draft s w.stock w.promotions)) =
        record {
          reserved = record {
            consistent = consistent;
            backed = λ a b. omega (arith, h.reserved.backed a b, grows a b);
          };
          booked = h.booked;
          limited = w.limited h.limited;
        } in
      subst IsWellFormed (ground (arith, q)) after
]
