-- ===== src/Warehouse/Splitting/Totals.antt =====
-- That the sub-orders of backend/src/warehouse/warehouse.service.ts add up to the order that was
-- split.
use shop_verse.Base.{
  ℕ, ◌+◌, ◌≡◌, ◌⊎◌, refl, List, [], ◌∷◌, map, length, leb, sum_by, sum_by-append,
  sum_by-replace_first, find_first, ◌==◌, arith, Result, ok, err, Error, transact, not_found, false,
  inl, inr, subst, Bool-cases, Option-cases, Result-cases,
}
use shop_verse.Stock.Consistency.{IsConsistent}
use shop_verse.Orders.Tables.{Shop, Order, is_order, update_order, set_status, processing}
use shop_verse.Warehouse.{ShipmentItem, created, move_items}
use shop_verse.Warehouse.Cache.{move_items-IsConsistent}
use shop_verse.Warehouse.Routing.{has_item}
use shop_verse.Warehouse.Routing.Totals.{quantity_of, wanted}
use shop_verse.Warehouse.Splitting.{
  Fulfilment, SplitItem, SplitGroup, SubOrder, add_item, group_items, amount_of, lines_of,
  first_warehouse, insert_sub_order, create_sub_order, create_sub_orders, write_sub_orders,
  split_order_by_warehouse,
}

abbrev pub billed : Fulfilment → ℕ
billed f = sum_by (λ o. o.total) f.shop.orders

abbrev pub shipped : ℕ → Fulfilment → ℕ
shipped u f = sum_by (λ x. wanted u x.items) f.shipments

abbrev pub quantity_in : ℕ → SplitItem → ℕ
quantity_in u it = quantity_of u it.item

abbrev in_groups : (SplitItem → ℕ) → List SplitGroup → ℕ
in_groups w gs = sum_by (λ g. sum_by w g.items) gs

wanted-map :
    (u : ℕ) (its : List SplitItem) → wanted u (map (λ it. it.item) its) ≡ sum_by (quantity_in u) its
wanted-map u [] = refl
wanted-map u (it ∷ its) = omega (arith, wanted-map u its)

add_item_total :
    (w : SplitItem → ℕ) (wh : ℕ) (it : SplitItem) (gs : List SplitGroup)
    → in_groups w (add_item wh it gs) ≡ in_groups w gs + w it
add_item_total w wh it [] = omega arith
add_item_total w wh it (g ∷ gs) = elim (Bool-cases (wh == g.warehouse_id)) [
  | inl same ↦ rw same (omega (arith, sum_by-append w g.items (it ∷ [])))
  | inr other ↦ rw other (omega (arith, add_item_total w wh it gs))
]

group_items_total :
    (w : SplitItem → ℕ) (s : Shop) (whs : List ℕ) (its : List SplitItem) (gs gs' : List SplitGroup)
    → group_items s whs its gs ≡ ok gs'
    → in_groups w gs' ≡ in_groups w gs + sum_by w its
unfolding group_items
group_items_total w s whs [] gs gs' e = ground arith
group_items_total w s whs (it ∷ its) gs gs' e =
    elim (Option-cases (find_first (λ wh. has_item wh s.stock it.item) whs)) [
      | inl nowhere ↦ ground arith
      | inr (wh, f) ↦
          ground (
            arith,
            add_item_total w wh it gs,
            group_items_total w s whs its (add_item wh it gs) gs',
          )
    ]

-- What a transaction adds to the orders and the shipments.
record IsAdded (amount : ℕ) (quantities : ℕ → ℕ) (f f' : Fulfilment) : Type 0 where
  consistent : IsConsistent f.shop.stock → IsConsistent f'.shop.stock
  bills : billed f' ≡ billed f + amount
  ships : (u : ℕ) → shipped u f' ≡ shipped u f + quantities u

create_sub_order-IsAdded :
    (now : ℕ) (parent : Order) (g : SplitGroup) (f f' : Fulfilment) (sub : SubOrder)
    → create_sub_order now parent g f ≡ ok (sub, f')
    → IsAdded (sum_by amount_of g.items) (λ u. sum_by (quantity_in u) g.items) f f'
unfolding create_sub_order insert_sub_order
create_sub_order-IsAdded now parent g f f' sub e =
    let its : List ShipmentItem = map (λ it. it.item) g.items in
    elim (Result-cases (move_items created g.warehouse_id its f.shop.stock)) [
      | inr (x, m) ↦ ground arith
      | inl ((v, t), m) ↦ record {
        consistent = λ c.
            subst IsConsistent (ground arith)
              (move_items-IsConsistent created g.warehouse_id its f.shop.stock t v c m);
        bills = ground arith;
        ships = λ u. ground (arith, wanted-map u g.items);
      }
    ]

create_sub_orders-IsAdded :
    (now : ℕ) (parent : Order) (gs : List SplitGroup) (f f' : Fulfilment) (subs : List SubOrder)
    → create_sub_orders now parent gs f ≡ ok (subs, f')
    → IsAdded (in_groups amount_of gs) (λ u. in_groups (quantity_in u) gs) f f'
unfolding create_sub_orders
create_sub_orders-IsAdded now parent [] f f' subs e = record {
  consistent = λ c. subst IsConsistent (ground arith) c;
  bills = ground arith;
  ships = λ u. ground arith;
}
create_sub_orders-IsAdded now parent (g ∷ gs) f f' subs e =
    elim (Result-cases (create_sub_order now parent g f)) [
      | inr (x, m) ↦ ground arith
      | inl ((sub, f1), m) ↦ elim (Result-cases (create_sub_orders now parent gs f1)) [
        | inr (x, k) ↦ ground arith
        | inl ((rest, f2), k) ↦
            let one = create_sub_order-IsAdded now parent g f f1 sub m in
            let all_ = create_sub_orders-IsAdded now parent gs f1 f2 rest k in
            let same : f2 ≡ f' = ground arith in
            subst
              (IsAdded (in_groups amount_of (g ∷ gs)) (λ u. in_groups (quantity_in u) (g ∷ gs)) f)
              same
              (record {
                consistent = λ c. all_.consistent (one.consistent c);
                bills = omega (arith, one.bills, all_.bills);
                ships = λ u. omega (arith, one.ships u, all_.ships u);
              })
      ]
    ]

write_sub_orders-IsAdded :
    (now : ℕ) (parent : Order) (gs : List SplitGroup) (f f' : Fulfilment) (subs : List SubOrder)
    → write_sub_orders now parent gs f ≡ ok (subs, f')
    → IsAdded (in_groups amount_of gs) (λ u. in_groups (quantity_in u) gs) f f'
unfolding write_sub_orders update_order
write_sub_orders-IsAdded now parent gs f f' subs e =
    elim (Result-cases (create_sub_orders now parent gs f)) [
      | inr (x, k) ↦ ground arith
      | inl ((rest, f2), k) ↦
          let added = create_sub_orders-IsAdded now parent gs f f2 rest k in
          elim (Option-cases (find_first (is_order parent.id) f2.shop.orders)) [
            | inl gone ↦ ground arith
            | inr (o, r) ↦
                let o' : Order = record (set_status processing o) { updated_at = now } in
                record {
                  consistent = λ c. subst IsConsistent (ground arith) (added.consistent c);
                  bills = ground (
                    arith,
                    added.bills,
                    sum_by-replace_first (λ x. x.total) (is_order parent.id) o' f2.shop.orders o r,
                  );
                  ships = λ u. ground (arith, added.ships u);
                }
          ]
    ]

-- What a split comes to.
record IsSplitUp (id : ℕ) (f : Fulfilment) (r : Result (List SubOrder) × Fulfilment) : Type 0 where
  failed : (e : Error) → r.0 ≡ err e → r.1 ≡ f
  consistent : IsConsistent f.shop.stock → IsConsistent r.1.shop.stock
  added :
      (r.1 ≡ f)
      ⊎ (billed r.1 ≡ billed f + sum_by amount_of (lines_of id f.shop))
        × ((u : ℕ) → shipped u r.1 ≡ shipped u f + sum_by (quantity_in u) (lines_of id f.shop))

unsplit : (id : ℕ) (f : Fulfilment) (a : Result (List SubOrder)) → IsSplitUp id f (a, f)
unsplit id f a = record { failed = λ e h. refl; consistent = λ c. c; added = inl refl }

split_order-IsSplitUp :
    (whs : List ℕ) (now id : ℕ) (f : Fulfilment)
    → IsSplitUp id f (split_order_by_warehouse whs now id f)
unfolding split_order_by_warehouse
split_order-IsSplitUp whs now id f = elim (Option-cases (find_first (is_order id) f.shop.orders)) [
  | inl gone ↦ rw (split_order_by_warehouse, gone) (unsplit id f (err not_found))
  | inr (o, r) ↦ elim (Result-cases (group_items f.shop whs (lines_of id f.shop) [])) [
    | inr (x, g) ↦ rw (split_order_by_warehouse, r, g) (unsplit id f (err x))
    | inl (gs, g) ↦ elim (Bool-cases (leb (length gs) 1)) [
      | inl one ↦
          rw (split_order_by_warehouse, r, g, one)
            (unsplit id f (
              ok (
                record { order_id = id; warehouse_id = first_warehouse gs; is_split = false }
                ∷ [])))
      | inr more ↦ elim (Result-cases (write_sub_orders now o gs f)) [
        | inr (x, w) ↦ rw (split_order_by_warehouse, transact, r, g, more, w) (unsplit id f (err x))
        | inl ((subs, f'), w) ↦
            let done = write_sub_orders-IsAdded now o gs f f' subs w in
            let ends : IsSplitUp id f (ok subs, f') = record {
              failed = λ e h. ground arith;
              consistent = done.consistent;
              added = inr (
                omega (
                  arith,
                  done.bills,
                  group_items_total amount_of f.shop whs (lines_of id f.shop) [] gs g,
                ),
                λ u. omega (
                  arith,
                  done.ships u,
                  group_items_total (quantity_in u) f.shop whs (lines_of id f.shop) [] gs g,
                ),
              );
            } in
            rw (split_order_by_warehouse, transact, r, g, more, w) ends
      ]
    ]
  ]
]

-- A split that fails changes nothing, and no split makes the stock tables inconsistent. One that
-- changes anything adds sub-orders whose totals sum up to the price of all lines of the order, on
-- top of the order's own total, and shipments that hold, of every variant, exactly the quantity of
-- the lines.
pub split_order-adds_up :
    (whs : List ℕ) (now id : ℕ) (f : Fulfilment)
    → let r = split_order_by_warehouse whs now id f in
      ((e : Error) → r.0 ≡ err e → r.1 ≡ f)
      × (IsConsistent f.shop.stock → IsConsistent r.1.shop.stock)
      × ((r.1 ≡ f)
          ⊎ (billed r.1 ≡ billed f + sum_by amount_of (lines_of id f.shop))
            × ((u : ℕ) → shipped u r.1 ≡ shipped u f + sum_by (quantity_in u) (lines_of id f.shop)))
split_order-adds_up whs now id f =
    let r = split_order-IsSplitUp whs now id f in (r.failed, r.consistent, r.added)
