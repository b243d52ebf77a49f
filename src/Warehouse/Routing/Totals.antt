-- ===== src/Warehouse/Routing/Totals.antt =====
-- That the shipments of an order in backend/src/warehouse/warehouse.service.ts add up to the order.
use shop_verse.Base.{
  ℕ, ◌+◌, ◌-◌, ◌≡◌, some, List, [], ◌∷◌, all, min, sum_by, sum_by-append, find_first, ◌==◌,
  if◌then◌else◌, arith, Result, ok, err, inl, inr, subst, Bool-cases, Option-cases, Result-cases,
}
use shop_verse.Stock.{Stock}
use shop_verse.Stock.Consistency.{IsConsistent}
use shop_verse.Warehouse.{ShipmentItem, created, move_items}
use shop_verse.Warehouse.Cache.{move_items-IsConsistent}
use shop_verse.Warehouse.Routing.{
  Depot, Assignment, Parcel, available, has_item, assign_item, assign_items, push, push_all,
  create_shipment, create_shipments, route_order,
}

abbrev pub quantity_of : ℕ → ShipmentItem → ℕ
quantity_of u it = if u == it.variant_id then it.quantity else 0

abbrev pub wanted : ℕ → List ShipmentItem → ℕ
wanted u its = sum_by (quantity_of u) its

abbrev pub assigned : ℕ → List Assignment → ℕ
assigned u as_list = sum_by (λ a. quantity_of u a.item) as_list

abbrev pub packed : ℕ → List Parcel → ℕ
packed u ps = sum_by (λ p. wanted u p.items) ps

abbrev pub shipped : ℕ → Depot → ℕ
shipped u d = sum_by (λ x. wanted u x.items) d.shipments

assign_item_total :
    (u : ℕ) (s : Stock) (v : ℕ) (whs : List ℕ) (remaining : ℕ)
    → assigned u (assign_item s v whs remaining).0
        + (if u == v then (assign_item s v whs remaining).1 else 0)
      ≡ (if u == v then remaining else 0)
unfolding assign_item
assign_item_total u s v [] remaining = ground arith
assign_item_total u s v (wh ∷ whs) remaining =
    let taken : ℕ = min (available wh v s) remaining in
    let rest = assign_item_total u s v whs (remaining - taken) in
    elim (Bool-cases (remaining == 0)) [
      | inl z ↦ ground arith
      | inr some_left ↦ elim (Bool-cases (available wh v s == 0)) [
        | inl none_there ↦ ground (arith, rest)
        | inr there ↦ ground (arith, rest)
      ]
    ]

assign_items_total :
    (u : ℕ) (s : Stock) (whs : List ℕ) (its : List ShipmentItem) (as_list : List Assignment)
    → assign_items s whs its ≡ ok as_list
    → assigned u as_list ≡ wanted u its
unfolding assign_items
assign_items_total u s whs [] as_list e = ground arith
assign_items_total u s whs (it ∷ its) as_list e =
    let one = assign_item_total u s it.variant_id whs it.quantity in
    let first : List Assignment = (assign_item s it.variant_id whs it.quantity).0 in
    elim (Bool-cases ((assign_item s it.variant_id whs it.quantity).1 == 0)) [
      | inr short ↦ ground arith
      | inl full ↦ elim (Result-cases (assign_items s whs its)) [
        | inr (x, k) ↦ ground arith
        | inl (rest, k) ↦ ground (
          arith,
          one,
          assign_items_total u s whs its rest k,
          sum_by-append (λ a. quantity_of u a.item) first rest,
        )
      ]
    ]

push_total :
    (u : ℕ) (a : Assignment) (ps : List Parcel)
    → packed u (push a ps) ≡ packed u ps + quantity_of u a.item
push_total u a [] = omega arith
push_total u a (p ∷ ps) = elim (Bool-cases (a.warehouse_id == p.warehouse_id)) [
  | inl same ↦ rw same (omega (arith, sum_by-append (quantity_of u) p.items (a.item ∷ [])))
  | inr other ↦ rw other (omega (arith, push_total u a ps))
]

push_all_total :
    (u : ℕ) (as_list : List Assignment) (ps : List Parcel)
    → packed u (push_all as_list ps) ≡ packed u ps + assigned u as_list
push_all_total u [] ps = omega arith
push_all_total u (a ∷ rest) ps = omega (arith, push_all_total u rest (push a ps), push_total u a ps)

-- What a shipment or a loop of them leaves, whether it ends well or not.
record IsShipped (its_total : ℕ → ℕ) (d : Depot) (r : Result (Unit {0}) × Depot) : Type 0 where
  consistent : IsConsistent d.stock → IsConsistent r.1.stock
  all_of_it : r.0 ≡ ok tt → (u : ℕ) → shipped u r.1 ≡ shipped u d + its_total u

create_shipment-IsShipped :
    (order wh : ℕ) (its : List ShipmentItem) (d : Depot)
    → IsShipped (λ u. wanted u its) d (create_shipment order wh its d)
unfolding create_shipment
create_shipment-IsShipped order wh its d = elim (Result-cases (move_items created wh its d.stock)) [
  | inr (x, e) ↦ record {
    consistent = λ c. subst IsConsistent (ground arith) c;
    all_of_it = λ h u. ground arith;
  }
  | inl ((v, t), e) ↦ record {
    consistent = λ c.
        subst IsConsistent (ground arith) (move_items-IsConsistent created wh its d.stock t v c e);
    all_of_it = λ h u. ground arith;
  }
]

create_shipments-IsShipped :
    (order : ℕ) (ps : List Parcel) (d : Depot)
    → IsShipped (λ u. packed u ps) d (create_shipments order ps d)
unfolding create_shipments
create_shipments-IsShipped order [] d = record {
  consistent = λ c. c;
  all_of_it = λ h u. omega arith;
}
create_shipments-IsShipped order (p ∷ ps) d =
    let one = create_shipment-IsShipped order p.warehouse_id p.items d in
    let d1 : Depot = (create_shipment order p.warehouse_id p.items d).1 in
    let rest = create_shipments-IsShipped order ps d1 in
    let total : ℕ → ℕ = λ u. packed u (p ∷ ps) in
    elim (Result-cases (create_shipment order p.warehouse_id p.items d).0) [
      | inr (x, e) ↦
          let ran : create_shipments order (p ∷ ps) d ≡ (err x, d1) = ground (arith, e) in
          let ends : IsShipped total d (err x, d1) = record {
            consistent = one.consistent;
            all_of_it = λ h u. ground arith;
          } in
          rw ran ends
      | inl (v, e) ↦
          let ran : create_shipments order (p ∷ ps) d ≡ create_shipments order ps d1 =
            ground (arith, e) in
          let ends : IsShipped total d (create_shipments order ps d1) = record {
            consistent = λ c. rest.consistent (one.consistent c);
            all_of_it = λ h u. omega (arith, rest.all_of_it h u, one.all_of_it e u);
          } in
          rw ran ends
    ]

route_order-IsShipped :
    (whs : List ℕ) (order : ℕ) (its : List ShipmentItem) (d : Depot)
    → IsShipped (λ u. wanted u its) d (route_order whs order (some its) d)
unfolding route_order
route_order-IsShipped whs order its d =
    let total : ℕ → ℕ = λ u. wanted u its in
    elim (Option-cases (find_first (λ wh. all (has_item wh d.stock) its) whs)) [
      | inr (wh, f) ↦ rw (route_order, f) (create_shipment-IsShipped order wh its d)
      | inl split ↦ elim (Result-cases (assign_items d.stock whs its)) [
        | inr (x, e) ↦
            let ends : IsShipped total d (err x, d) = record {
              consistent = λ c. c;
              all_of_it = λ h u. ground arith;
            } in
            rw (route_order, split, e) ends
        | inl (as_list, e) ↦
            let loop = create_shipments-IsShipped order (push_all as_list []) d in
            let ends : IsShipped total d (create_shipments order (push_all as_list []) d) = record {
              consistent = loop.consistent;
              all_of_it = λ h u. omega (
                arith,
                loop.all_of_it h u,
                push_all_total u as_list [],
                assign_items_total u d.stock whs its as_list e,
              );
            } in
            rw (route_order, split, e) ends
      ]
    ]

-- Routing an order keeps the stock tables consistent, whether it succeeds or fails. Where it
-- succeeds, the shipments that it adds hold, of every variant, exactly the quantity that the order
-- asks for, whether one warehouse had everything or the order was split.
pub route_order-adds_up :
    (whs : List ℕ) (order : ℕ) (its : List ShipmentItem) (d : Depot)
    → let r = route_order whs order (some its) d in
      (IsConsistent d.stock → IsConsistent r.1.stock)
      × (r.0 ≡ ok tt → (u : ℕ) → shipped u r.1 ≡ shipped u d + wanted u its)
route_order-adds_up whs order its d =
    let r = route_order-IsShipped whs order its d in (r.consistent, r.all_of_it)
