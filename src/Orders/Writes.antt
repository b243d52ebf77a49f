-- ===== src/Orders/Writes.antt =====
-- What the writes of a row of `Order` or `OrderItem` leave as it was.
use shop_verse.Base.{
  ℕ, ◌≡◌, some, find_first, replace_first, arith, ok, inl, inr, Option-cases, find_first-test,
  find_first-replace_first_self,
}
use shop_verse.Orders.Tables.{Shop, Order, is_order, update_order}

module _ (now id : ℕ) (f : Order → Order) (s : Shop) where
  pub update_order_lem :
      (o : Order) (s' : Shop)
      → update_order now id f s ≡ ok (o, s')
      → (before : Order) × (find_first (is_order id) s.orders ≡ some before)
        × (o ≡ record (f before) { updated_at = now })
        × (s' ≡ record s { orders = replace_first (is_order id) o s.orders })
  unfolding update_order
  update_order_lem o s' e = elim (Option-cases (find_first (is_order id) s.orders)) [
    | inl n ↦ ground arith
    | inr (b, h) ↦ (b, h, ground arith, ground arith)
  ]

-- The update of a row that keeps its id can be read back.
pub find_order-update_order :
    (now id : ℕ) (f : Order → Order) (s s' : Shop) (o : Order)
    → ((x : Order) → (f x).id ≡ x.id)
    → update_order now id f s ≡ ok (o, s')
    → find_first (is_order id) s'.orders ≡ some o
find_order-update_order now id f s s' o keeps e =
    let (b, h, eo, es) = update_order_lem now id f s o s' e in
    ground (
      arith,
      keeps b,
      find_first-test (is_order id) s.orders b h,
      find_first-replace_first_self (is_order id) o s.orders b h,
    )
