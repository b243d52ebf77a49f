-- ===== src/Orders/Lifecycle/Returns.antt =====
-- The return window of backend/src/orders/orders.service.ts.
use shop_verse.Base.{
  ℕ, ◌+◌, ◌*◌, ◌≤◌, ◌≡◌, true, false, some, List, [], ◌∷◌, map, find_first, filter_where, All, ltb,
  arith, ok, err, inl, inr, Bool-cases, bad_request, find_first-test, find_first-replace_first_self,
}
use shop_verse.Orders.Tables.{
  Shop, Order, OrderItem, ReturnRequest, delivered, return_requested, is_status, is_order, is_owner,
  update_order,
}
use shop_verse.Orders.Lifecycle.{
  find_own, is_active_line, strictest, window_days, delivered_at, day_ms, has_return, is_empty,
  request_return,
}

abbrev pub IsInWindow : (ℕ → ℕ) → ℕ → ℕ → OrderItem → Type 0
IsInWindow window now at it = now ≤ at + window it.variant_id * day_ms

-- Who is in the strictest window is in each.
strictest-All :
    (window : ℕ → ℕ) (now at : ℕ) (it : OrderItem) (lines : List OrderItem)
    → now ≤ at + strictest window it lines * day_ms
    → All (IsInWindow window now at) (it ∷ lines)
strictest-All window now at it [] h = (h, tt)
strictest-All window now at it (x ∷ xs) h =
    (omega (arith, h), strictest-All window now at x xs (omega (arith, h)))

window_days-All :
    (window : ℕ → ℕ) (now at : ℕ) (lines : List OrderItem)
    → ltb (at + window_days window lines * day_ms) now ≡ false
    → All (IsInWindow window now at) lines
window_days-All window now at [] h = tt
window_days-All window now at (x ∷ xs) h = strictest-All window now at x xs (ground arith)

-- A return that was accepted is asked for by the owner of an order that was DELIVERED and has no
-- return request yet, within the window of every active line. It returns each of them, and after it
-- another request for the order is refused.
pub returned_once :
    (window : ℕ → ℕ) (now later user id : ℕ) (s s' : Shop) (o : Order) (r : ReturnRequest)
    → find_first (is_order id) s.orders ≡ some o
    → request_return window now user id s ≡ ok (r, s')
    → let lines = filter_where (is_active_line id) s.items in
      (is_owner user o.user_id ≡ true)
      × (is_status o.status delivered ≡ true)
      × (has_return id s ≡ false)
      × (is_empty lines ≡ false)
      × All (IsInWindow window now (delivered_at o s.tracking)) lines
      × (r.items
          ≡ map
              (λ (it : OrderItem). record { order_item_id = it.id; quantity = it.quantity })
              lines)
      × (request_return window later user id s' ≡ err bad_request)
unfolding request_return find_own update_order
returned_once window now later user id s s' o r pk e =
    let lines : List OrderItem = filter_where (is_active_line id) s.items in
    let at : ℕ = delivered_at o s.tracking in
    let after : Order = record o { status = return_requested; updated_at = now } in
    elim (Bool-cases (is_owner user o.user_id)) [
      | inr other ↦ ground arith
      | inl own ↦ elim (Bool-cases (is_status o.status delivered)) [
        | inr early ↦ ground arith
        | inl there ↦ elim (Bool-cases (has_return id s)) [
          | inl requested ↦ ground arith
          | inr new ↦ elim (Bool-cases (is_empty lines)) [
            | inl nothing ↦ ground arith
            | inr some_left ↦ elim (Bool-cases (ltb (at + window_days window lines * day_ms) now)) [
              | inl late ↦ ground arith
              | inr in_time ↦ (
                own,
                there,
                new,
                some_left,
                window_days-All window now at lines in_time,
                ground arith,
                ground (
                  arith,
                  find_first-test (is_order id) s.orders o pk,
                  find_first-replace_first_self (is_order id) after s.orders o pk,
                ),
              )
            ]
          ]
        ]
      ]
    ]
