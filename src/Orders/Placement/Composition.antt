-- ===== src/Orders/Placement/Composition.antt =====
-- What placeOrder in backend/src/orders/orders.service.ts makes of the reservation, the coupon, the
-- wallet and the order together.
use shop_verse.Base.{
  map, ℕ, ◌+◌, ◌*◌, ◌≤◌, ◌<◌, ◌≡◌, ◌⊎◌, refl, some, List, [], ◌∷◌, ◌++◌, sum_by, find_first,
  replace_first, arith, ok, err, Error, inl, inr, All, Result-cases, find_first-test,
}
use shop_verse.Coupons.{Promotions}
use shop_verse.Coupons.Limits.{IsLimited}
use shop_verse.Reservation.{CartReservation, CartReservationItem, active, consumed, is_reservation}
use shop_verse.Reservation.Checkout.Validity.{validate_for_checkout_iff, IsNear}
use shop_verse.Orders.Pricing.{quote}
use shop_verse.Orders.Tables.{Shop, Order, OrderItem, reservation_db}
use shop_verse.Orders.Placement.{
  locked_item, of_new, of_line, of_reserved, new_total, Environment, PlaceOrder, Draft, prepare,
  write_order, after_order, place_order, new_order, order_lines, locked_total,
}
use shop_verse.Orders.Placement.Preparation.{IsPrepared, prepare_lem}
use shop_verse.Orders.Placement.Writes.{
  written, write_order_lem, pay_from_wallet_lem, lines_total, lines_ordered,
}

-- What is known when the transaction commits.
pub record Passed (env : Environment) (now user : ℕ) (dto : PlaceOrder) (s : Shop) : Type 0 where
  pub draft : Draft
  pub promotions : Promotions
  pub prepared : IsPrepared env now user dto s draft
  pub found : find_first (is_reservation dto.reservation_id) s.reservations ≡ some draft.reservation
  pub key : draft.reservation.id ≡ dto.reservation_id
  pub owned : draft.reservation.user_id ≡ user
  pub live : draft.reservation.status ≡ active
  pub early : now < draft.reservation.expires_at
  pub near : All (IsNear env.product) draft.reservation.items
  pub limited : IsLimited s.promotions → IsLimited promotions

module _ (env : Environment) (now user : ℕ) (dto : PlaceOrder) (s : Shop) where
  abbrev pub created : Passed env now user dto s → Order
  created w = new_order now s.next_order (some user) w.draft

  abbrev pub committed : Passed env now user dto s → Shop
  committed w = written now user w.draft s w.promotions

pub place_order-cases :
    (env : Environment) (now user : ℕ) (dto : PlaceOrder) (s : Shop)
    → ((e : Error) × (place_order env now user dto s ≡ (err e, s)))
      ⊎ ((w : Passed env now user dto s) × (place_order env now user dto s ≡ (
        ok (created env now user dto s w),
        after_order now user (created env now user dto s w) (committed env now user dto s w),
      )))
unfolding place_order
place_order-cases env now user dto s = elim (Result-cases (prepare env now user dto s)) [
  | inr (e, q) ↦ inl (e, ground arith)
  | inl ((d, s1), q) ↦
      let (same, prepared) = prepare_lem env now user dto s s1 d q in
      let (found, owner, live, early, near) =
        (validate_for_checkout_iff env.product dto.reservation_id user now (reservation_db s)
            d.reservation).0
          prepared.checked in
      let key : d.reservation.id ≡ dto.reservation_id = ground (
        arith,
        find_first-test (is_reservation dto.reservation_id) s.reservations d.reservation found,
      ) in
      elim (Result-cases (write_order now user d s)) [
        | inr (e, w) ↦ inl (e, ground (arith, same))
        | inl ((o, s2), w) ↦
            let (p, made, wrote, limited) =
              write_order_lem now user d s s2 o (ground (arith, key, found)) live w in
            inr (
              record {
                draft = d;
                promotions = p;
                prepared = prepared;
                found = found;
                key = key;
                owned = owner;
                live = live;
                early = early;
                near = near;
                limited = limited;
              },
              ground (arith, same, made, wrote),
            )
      ]
]

new_total-locked :
    (its : List CartReservationItem) → new_total (map locked_item its) ≡ locked_total its
new_total-locked [] = refl
new_total-locked (it ∷ its) = ground (arith, new_total-locked its)

ordered-locked :
    (its : List CartReservationItem) → map of_new (map locked_item its) ≡ map of_reserved its
ordered-locked [] = refl
ordered-locked (it ∷ its) = ground (arith, ordered-locked its)

-- What a successful placement does to the shop.
pub record IsPlaced (env : Environment) (now user : ℕ) (dto : PlaceOrder) (s s' : Shop) (o : Order)
    : Type 0 where
  pub reservation : CartReservation
  pub found : find_first (is_reservation dto.reservation_id) s.reservations ≡ some reservation
  pub owned : reservation.user_id ≡ user
  pub live : reservation.status ≡ active
  pub early : now < reservation.expires_at
  pub near : All (IsNear env.product) reservation.items
  pub used_up :
      s'.reservations
      ≡ replace_first
          (is_reservation dto.reservation_id)
          (record reservation { status = consumed })
          s.reservations
  pub stock_kept : s'.stock ≡ s.stock
  pub added : s'.orders ≡ o ∷ s.orders
  pub lines : List OrderItem
  pub lines_added : s'.items ≡ lines ++ s.items
  pub ordered : map of_line lines ≡ map of_reserved reservation.items
  pub subtotal : sum_by (λ l. l.price * l.quantity) lines ≡ o.subtotal
  pub discount : o.discount_amount ≤ o.subtotal
  pub adds_up : o.total + o.discount_amount ≡ o.subtotal + o.shipping_fee + o.tax_amount

-- A placement that succeeds found an ACTIVE reservation of the user that has not run out and whose
-- prices are within half a percent of the current ones. It consumes it and leaves the stock as it
-- is; the new order has a line with the variant and the quantity of each item, its subtotal is the
-- sum of its lines, its discount is at most that, and its total is the subtotal less the discount,
-- with the shipping fee and the tax.
pub place_order-IsPlaced :
    (env : Environment) (now user : ℕ) (dto : PlaceOrder) (s s' : Shop) (o : Order)
    → place_order env now user dto s ≡ (ok o, s')
    → IsPlaced env now user dto s s' o
unfolding quote
place_order-IsPlaced env now user dto s s' o h = elim (place_order-cases env now user dto s) [
  | inl (x, q) ↦ ground arith
  | inr (w, q) ↦
      let d : Draft = w.draft in
      let made : Order = created env now user dto s w in
      let (b, paid, booked) = pay_from_wallet_lem user made (committed env now user dto s w) in
      let same_order : o ≡ made = ground (arith, q) in
      let same_shop : s' ≡ after_order now user made (committed env now user dto s w) =
        ground (arith, q) in
      record {
        reservation = d.reservation;
        found = w.found;
        owned = w.owned;
        live = w.live;
        early = w.early;
        near = w.near;
        used_up = ground (arith, same_shop, paid, w.key);
        stock_kept = ground (arith, same_shop, paid);
        added = ground (arith, same_shop, paid, same_order);
        lines = order_lines s.next_order s.next_item (map locked_item d.reservation.items);
        lines_added = ground (arith, same_shop, paid);
        ordered = ground (
          arith,
          lines_ordered s.next_order s.next_item (map locked_item d.reservation.items),
          ordered-locked d.reservation.items,
        );
        subtotal = ground (
          arith,
          lines_total s.next_order s.next_item (map locked_item d.reservation.items),
          new_total-locked d.reservation.items,
          w.prepared.amounts,
          same_order,
        );
        discount = ground (arith, w.prepared.amounts, same_order, w.prepared.discount_bound);
        adds_up = ground (arith, w.prepared.amounts, same_order, w.prepared.discount_bound);
      }
]
