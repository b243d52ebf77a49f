-- ===== src/Warehouse/Shipping/Outcome.antt =====
-- What a change of a shipment's status in backend/src/warehouse/warehouse.service.ts comes to.
use shop_verse.Base.{
  ℕ, ◌≡◌, refl, some, List, ◌∷◌, find_first, replace_first, arith, ok, err, Error, transact, inl,
  inr, subst, Option-cases, Result-cases, find_first-test, find_first-replace_first_self,
}
use shop_verse.Stock.Consistency.{IsConsistent}
use shop_verse.Orders.Tables.{Order, is_order, return_requested, update_order, set_status}
use shop_verse.Warehouse.{move_items, returned, delivered as taken}
use shop_verse.Warehouse.Cache.{move_items-IsConsistent}
use shop_verse.Warehouse.Routing.{
  Shipment, ShipmentStatus, pending, packed, dispatched, in_transit, delivered, failed, rto,
}
use shop_verse.Warehouse.Splitting.{Fulfilment}
use shop_verse.Warehouse.Shipping.{
  is_shipment, write_shipment, write_delivery, write_rto, follow_up, update_shipment_status,
}

-- The follow-up leaves the shipments alone, and keeps the stock tables consistent.
record IsStockOnly (f f' : Fulfilment) : Type 0 where
  consistent : IsConsistent f.shop.stock → IsConsistent f'.shop.stock
  same : f'.shipments ≡ f.shipments

write_delivery-IsStockOnly :
    (x : Shipment) (f f' : Fulfilment) (u : Unit {0})
    → write_delivery x f ≡ ok (u, f')
    → IsStockOnly f f'
unfolding write_delivery
write_delivery-IsStockOnly x f f' u e =
    elim (Result-cases (move_items taken x.warehouse_id x.items f.shop.stock)) [
      | inr (y, m) ↦ ground arith
      | inl ((v, t), m) ↦ record {
        consistent = λ c.
            subst IsConsistent (ground arith)
              (move_items-IsConsistent taken x.warehouse_id x.items f.shop.stock t v c m);
        same = ground arith;
      }
    ]

-- The order of a shipment that came back.
pub record IsReturning (now : ℕ) (x : Shipment) (f f' : Fulfilment) : Type 0 where
  pub order : Order
  pub found : find_first (is_order x.order_id) f'.shop.orders ≡ some order
  pub status_is : order.status ≡ return_requested
  pub tracked :
      f'.shop.tracking
      ≡ record { order_id = x.order_id; status = return_requested; created_at = now }
        ∷ f.shop.tracking

write_rto_lem :
    (now : ℕ) (x : Shipment) (f f' : Fulfilment) (u : Unit {0})
    → write_rto now x f ≡ ok (u, f')
    → IsStockOnly f f' × IsReturning now x f f'
unfolding write_rto update_order
write_rto_lem now x f f' u e =
    elim (Result-cases (move_items returned x.warehouse_id x.items f.shop.stock)) [
      | inr (y, m) ↦ ground arith
      | inl ((v, t), m) ↦ elim (Option-cases (find_first (is_order x.order_id) f.shop.orders)) [
        | inl gone ↦ ground arith
        | inr (o, r) ↦
            let o' : Order = record (set_status return_requested o) { updated_at = now } in
            (
              record {
                consistent = λ c.
                    subst IsConsistent (ground arith) (
                      move_items-IsConsistent returned x.warehouse_id x.items f.shop.stock t v c m);
                same = ground arith;
              },
              record {
                order = o';
                found = ground (
                  arith,
                  find_first-test (is_order x.order_id) f.shop.orders o r,
                  find_first-replace_first_self (is_order x.order_id) o' f.shop.orders o r,
                );
                status_is = refl;
                tracked = ground arith;
              },
            )
      ]
    ]

unchanged : (f f' : Fulfilment) → f ≡ f' → IsStockOnly f f'
unchanged f f' e = subst (IsStockOnly f) e (record { consistent = λ c. c; same = refl })

follow_up-IsStockOnly :
    (status : ShipmentStatus) (now : ℕ) (x : Shipment) (f f' : Fulfilment) (u : Unit {0})
    → follow_up status now x f ≡ ok (u, f')
    → IsStockOnly f f' × (status ≡ rto → IsReturning now x f f')
follow_up-IsStockOnly delivered now x f f' u e =
    (write_delivery-IsStockOnly x f f' u e, λ h. ground (arith, h))
follow_up-IsStockOnly rto now x f f' u e = let r = write_rto_lem now x f f' u e in (r.0, λ h. r.1)
follow_up-IsStockOnly pending now x f f' u e =
    (unchanged f f' (ground (arith, e)), λ h. ground (arith, h))
follow_up-IsStockOnly packed now x f f' u e =
    (unchanged f f' (ground (arith, e)), λ h. ground (arith, h))
follow_up-IsStockOnly dispatched now x f f' u e =
    (unchanged f f' (ground (arith, e)), λ h. ground (arith, h))
follow_up-IsStockOnly in_transit now x f f' u e =
    (unchanged f f' (ground (arith, e)), λ h. ground (arith, h))
follow_up-IsStockOnly failed now x f f' u e =
    (unchanged f f' (ground (arith, e)), λ h. ground (arith, h))

written_shipment :
    (id : ℕ) (x : Shipment) (status : ShipmentStatus) (xs : List Shipment)
    → find_first (is_shipment id) xs ≡ some x
    → find_first (is_shipment id) (replace_first (is_shipment id) (record x { status = status }) xs)
      ≡ some (record x { status = status })
written_shipment id x status xs h = ground (
  arith,
  find_first-test (is_shipment id) xs x h,
  find_first-replace_first_self (is_shipment id) (record x { status = status }) xs x h,
)

-- A change of the status of a shipment that is there. The shipment has the new status in every
-- case, and consistent stock tables stay consistent. If what follows fails, the shop is as before,
-- and the status is kept all the same. After an RTO that succeeds the order is RETURN_REQUESTED,
-- with a tracking event.
pub update_shipment_status_outcome :
    (now id : ℕ) (status : ShipmentStatus) (f : Fulfilment) (x : Shipment)
    → find_first (is_shipment id) f.shipments ≡ some x
    → let r = update_shipment_status now id status f in
      (find_first (is_shipment id) r.1.shipments ≡ some (record x { status = status }))
      × (IsConsistent f.shop.stock → IsConsistent r.1.shop.stock)
      × ((e : Error) → r.0 ≡ err e → r.1.shop ≡ f.shop)
      × (status ≡ rto → r.0 ≡ ok tt → IsReturning now x f r.1)
unfolding update_shipment_status
update_shipment_status_outcome now id status f x h =
    let f1 : Fulfilment = write_shipment id (record x { status = status }) f in
    let written = written_shipment id x status f.shipments h in
    elim (Result-cases (follow_up status now x f1)) [
      | inr (y, k) ↦
          rw (update_shipment_status, transact, h, k)
            (written, (λ c. c), (λ e g. refl), λ s g. ground (arith, g))
      | inl ((u, f'), k) ↦
          let done = follow_up-IsStockOnly status now x f1 f' u k in
          rw (update_shipment_status, transact, h, k)
            (
              ground (arith, written, done.0.same),
              done.0.consistent,
              (λ e g. ground (arith, g)),
              λ s g.
                  let back = done.1 s in
                  record {
                    order = back.order;
                    found = back.found;
                    status_is = back.status_is;
                    tracked = back.tracked;
                  },
            )
    ]
