-- ===== src/Payments/Webhook/Refunded.antt =====
-- The deliveries of `charge.refunded` to backend/src/payments/payments.service.ts.
use shop_verse.Base.{
  update_where-none, ℕ, ◌≡◌, refl, true, some, List, [], ◌∷◌, any, map, All, filter_where,
  update_where, if◌then◌else◌, arith, inl, inr, Bool-cases, contains,
}
use shop_verse.Orders.Tables.{Shop, Order}
use shop_verse.Payments.Webhook.{
  is_paid_by, is_refunded_order, is_due, as_refunded, refund_one, refund_all, is_refundable,
  on_refunded,
}

-- What the updates by the ids make of one order.
abbrev refund_row : (now : ℕ) → List ℕ → Order → Order
refund_row now [] o = o
refund_row now (id ∷ ids) o = refund_row now ids (if is_due id o then as_refunded now o else o)

refund_one_orders :
    (now id : ℕ) (s : Shop)
    → (refund_one now id s).orders ≡ update_where (is_due id) (as_refunded now) s.orders
unfolding refund_one
refund_one_orders now id s = elim (Bool-cases (any (is_due id) s.orders)) [
  | inl t ↦ ground arith
  | inr n ↦ ground (arith, update_where-none (is_due id) (as_refunded now) s.orders n)
]

map_update :
    (now id : ℕ) (ids : List ℕ) (os : List Order)
    → map (refund_row now ids) (update_where (is_due id) (as_refunded now) os)
      ≡ map (refund_row now (id ∷ ids)) os
map_update now id ids [] = refl
map_update now id ids (o ∷ os) = ground (arith, map_update now id ids os)

map_nothing : (now : ℕ) (os : List Order) → map (refund_row now []) os ≡ os
map_nothing now [] = refl
map_nothing now (o ∷ os) = ground (arith, map_nothing now os)

refund_all_orders :
    (now : ℕ) (ids : List ℕ) (s : Shop)
    → (refund_all now ids s).orders ≡ map (refund_row now ids) s.orders
unfolding refund_all
refund_all_orders now [] s = ground (arith, map_nothing now s.orders)
refund_all_orders now (id ∷ ids) s = ground (
  arith,
  refund_all_orders now ids (refund_one now id s),
  refund_one_orders now id s,
  map_update now id ids s.orders,
)

-- A row that is refunded, or whose id is among those to come, ends refunded.
refund_row_done :
    (now : ℕ) (ids : List ℕ) (o : Order)
    → is_refunded_order o ≡ true
    → is_refunded_order (refund_row now ids o) ≡ true
refund_row_done now [] o h = h
refund_row_done now (id ∷ ids) o h = ground (arith, refund_row_done now ids o)

refund_row_reached :
    (now : ℕ) (ids : List ℕ) (o : Order)
    → contains o.id ids ≡ true
    → is_refunded_order (refund_row now ids o) ≡ true
refund_row_reached now [] o h = ground arith
refund_row_reached now (id ∷ ids) o h = elim (Bool-cases (is_due id o)) [
  | inl t ↦ ground (arith, refund_row_done now ids (as_refunded now o))
  | inr n ↦ elim (Bool-cases (is_refunded_order o)) [
    | inl d ↦ ground (arith, refund_row_done now ids o)
    | inr u ↦ ground (arith, refund_row_reached now ids o)
  ]
]

-- The payment of a row is never changed.
refund_row_intent :
    (now : ℕ) (ids : List ℕ) (intent : ℕ) (o : Order)
    → is_paid_by intent (refund_row now ids o) ≡ is_paid_by intent o
refund_row_intent now [] intent o = refl
refund_row_intent now (id ∷ ids) intent o = ground (
  arith,
  refund_row_intent now ids intent (as_refunded now o),
  refund_row_intent now ids intent o,
)

abbrev Reaches : ℕ → List ℕ → Order → Type 0
Reaches intent ids o = is_refundable intent o ≡ true → contains o.id ids ≡ true

abbrev refundable_ids : ℕ → List Order → List ℕ
refundable_ids intent os = map (λ o. o.id) (filter_where (is_refundable intent) os)

Reaches-more :
    (intent : ℕ) (ids more : List ℕ) (os : List Order)
    → ((i : ℕ) → contains i ids ≡ true → contains i more ≡ true)
    → All (Reaches intent ids) os
    → All (Reaches intent more) os
Reaches-more intent ids more [] f h = tt
Reaches-more intent ids more (o ∷ os) f (h, hs) =
    (λ r. f o.id (h r), Reaches-more intent ids more os f hs)

contains_more :
    (intent : ℕ) (o : Order) (os : List Order) (i : ℕ)
    → contains i (refundable_ids intent os) ≡ true
    → contains i (refundable_ids intent (o ∷ os)) ≡ true
contains_more intent o os i h = elim (Bool-cases (is_refundable intent o)) [
  | inl t ↦ ground arith
  | inr n ↦ ground arith
]

listed_lem : (intent : ℕ) (os : List Order) → All (Reaches intent (refundable_ids intent os)) os
listed_lem intent [] = tt
listed_lem intent (o ∷ os) = (
  λ r. ground arith,
  Reaches-more intent (refundable_ids intent os) (refundable_ids intent (o ∷ os)) os
      (contains_more intent o os) (listed_lem intent os),
)

none_left :
    (now intent : ℕ) (ids : List ℕ) (os : List Order)
    → All (Reaches intent ids) os
    → filter_where (is_refundable intent) (map (refund_row now ids) os) ≡ []
none_left now intent ids [] h = refl
none_left now intent ids (o ∷ os) (h, hs) = elim (Bool-cases (is_refundable intent o)) [
  | inl t ↦ ground (arith, none_left now intent ids os hs, refund_row_reached now ids o (h t))
  | inr n ↦ elim (Bool-cases (is_refunded_order o)) [
    | inl d ↦ ground (arith, none_left now intent ids os hs, refund_row_done now ids o d)
    | inr u ↦ ground (arith, none_left now intent ids os hs, refund_row_intent now ids intent o)
  ]
]

-- After a delivery of `charge.refunded` no order of the payment is left that is not REFUNDED, and
-- to deliver it again at once, before anything else has changed the shop, changes nothing.
pub refunded_again :
    (now later intent : ℕ) (s : Shop)
    → let after = on_refunded now (some intent) s in
      (filter_where (is_refundable intent) after.orders ≡ [])
      × (on_refunded later (some intent) after ≡ after)
unfolding on_refunded refund_all
refunded_again now later intent s =
    let ids : List ℕ = refundable_ids intent s.orders in
    let empty : filter_where (is_refundable intent) (refund_all now ids s).orders ≡ [] = ground (
      arith,
      refund_all_orders now ids s,
      none_left now intent ids s.orders (listed_lem intent s.orders),
    ) in
    (empty, ground arith)
