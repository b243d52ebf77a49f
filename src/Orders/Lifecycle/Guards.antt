-- ===== src/Orders/Lifecycle/Guards.antt =====
-- What the changes of an order's status in backend/src/orders/orders.service.ts ask for, and what
-- they do to the stock.
use shop_verse.Base.{
  ℕ, ◌≡◌, ◌⊎◌, refl, true, false, not, ◌||◌, some, List, find_first, filter_where, arith, ok, err,
  inl, inr, subst, Bool-cases, Result-cases, bad_request, find_first-test,
  find_first-replace_first_self,
}
use shop_verse.Stock.{Stock}
use shop_verse.Orders.Tables.{
  Shop, Order, OrderItem, OrderStatus, pending, confirmed, shipped, cancelled, is_status, is_order,
  is_owner, update_order, set_status,
}
use shop_verse.Orders.Writes.{update_order_lem, find_order-update_order}
use shop_verse.Orders.Lifecycle.{
  find_own, release_lines, commit_lines, cancel_order, ship_lines, is_shipping, is_pre_shipment,
  write_status, is_active_line,
}

-- How a change of status moves the stock from `a` to `b`.
abbrev pub IsShipment : Order → List OrderItem → OrderStatus → Stock → Stock → Type 0
IsShipment read lines status a b =
    ((is_shipping read status ≡ true)
      × (commit_lines (filter_where (λ it. not it.is_cancelled) lines) a ≡ ok (tt, b)))
    ⊎ ((is_shipping read status ≡ false) × (b ≡ a))

ship_lines-cases :
    (read : Order) (lines : List OrderItem) (status : OrderStatus) (s s' : Shop) (u : Unit {0})
    → ship_lines read lines status s ≡ ok (u, s')
    → IsShipment read lines status s.stock s'.stock
unfolding ship_lines
ship_lines-cases read lines status s s' u e = elim (Bool-cases (is_shipping read status)) [
  | inr other ↦ inr (other, ground arith)
  | inl ships ↦
      elim (Result-cases (commit_lines (filter_where (λ it. not it.is_cancelled) lines) s.stock)) [
        | inr (x, v) ↦ ground arith
        | inl ((a, t), v) ↦ inl (ships, ground arith)
      ]
]

-- A status that was written is the one that was asked for, whatever the order's was. The stock
-- moves with it only if it is SHIPPED and the order was read as PENDING, CONFIRMED or PROCESSING:
-- then every line that was read as active is committed.
pub write_status-IsShipment :
    (now : ℕ) (read : Order) (lines : List OrderItem) (status : OrderStatus) (s s' : Shop)
    (o : Order)
    → write_status now read lines status s ≡ ok (o, s')
    → (o.status ≡ status)
      × (find_first (is_order read.id) s'.orders ≡ some o)
      × IsShipment read lines status s.stock s'.stock
unfolding write_status
write_status-IsShipment now read lines status s s' o e =
    elim (Result-cases (ship_lines read lines status s)) [
      | inr (x, u) ↦ ground arith
      | inl ((a, s1), u) ↦ elim (Result-cases (update_order now read.id (set_status status) s1)) [
        | inr (x, v) ↦ ground arith
        | inl ((row, s2), v) ↦
            let (b, f, eo, es) = update_order_lem now read.id (set_status status) s1 row s2 v in
            (
              ground arith,
              ground (
                arith,
                find_order-update_order now read.id (set_status status) s1 s2 row (λ x. refl) v,
              ),
              subst (IsShipment read lines status s.stock) (ground arith)
                  (ship_lines-cases read lines status s s1 a u),
            )
      ]
    ]

shipment_commits :
    (read : Order) (lines : List OrderItem) (a b : Stock)
    → is_pre_shipment read.status ≡ true
    → IsShipment read lines shipped a b
    → commit_lines (filter_where (λ it. not it.is_cancelled) lines) a ≡ ok (tt, b)
shipment_commits read lines a b pre (inl (ships, commits)) = commits
shipment_commits read lines a b pre (inr (other, same)) = ground arith

-- Two requests to ship an order that had both read it before it was shipped, run one after the
-- other, commit its lines twice if both succeed.
pub shipped_twice :
    (now later : ℕ) (read : Order) (lines : List OrderItem) (s s1 s2 : Shop) (o1 o2 : Order)
    → is_pre_shipment read.status ≡ true
    → write_status now read lines shipped s ≡ ok (o1, s1)
    → write_status later read lines shipped s1 ≡ ok (o2, s2)
    → let active = filter_where (λ it. not it.is_cancelled) lines in
      (commit_lines active s.stock ≡ ok (tt, s1.stock))
      × (commit_lines active s1.stock ≡ ok (tt, s2.stock))
shipped_twice now later read lines s s1 s2 o1 o2 pre e1 e2 = (
  shipment_commits read lines s.stock s1.stock pre
      (write_status-IsShipment now read lines shipped s s1 o1 e1).2,
  shipment_commits read lines s1.stock s2.stock pre
      (write_status-IsShipment later read lines shipped s1 s2 o2 e2).2,
)

-- A cancellation of an order succeeds only for its owner, while it is PENDING or CONFIRMED, and
-- releases every line that is active. The order is then CANCELLED, and a second cancellation is
-- refused, so the lines are released once.
pub cancelled_once :
    (now later user id : ℕ) (s s' : Shop) (o o' : Order)
    → find_first (is_order id) s.orders ≡ some o
    → cancel_order now user id s ≡ ok (o', s')
    → (is_owner user o.user_id ≡ true)
      × (is_status o.status pending || is_status o.status confirmed ≡ true)
      × (release_lines (filter_where (is_active_line id) s.items) s.stock ≡ ok (tt, s'.stock))
      × (o'.status ≡ cancelled)
      × (cancel_order later user id s' ≡ err bad_request)
unfolding cancel_order find_own update_order
cancelled_once now later user id s s' o o' pk e = elim (Bool-cases (is_owner user o.user_id)) [
  | inr other ↦ ground arith
  | inl own ↦ elim (Bool-cases (is_status o.status pending || is_status o.status confirmed)) [
    | inr late ↦ ground arith
    | inl early ↦
        let lines : List OrderItem = filter_where (is_active_line id) s.items in
        let after : Order = record o { status = cancelled; updated_at = now } in
        elim (Result-cases (release_lines lines s.stock)) [
          | inr (x, v) ↦ ground arith
          | inl ((a, t), v) ↦ (
            own,
            early,
            ground arith,
            ground arith,
            ground (
              arith,
              find_first-test (is_order id) s.orders o pk,
              find_first-replace_first_self (is_order id) after s.orders o pk,
            ),
          )
        ]
  ]
]
