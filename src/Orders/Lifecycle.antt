-- ===== src/Orders/Lifecycle.antt =====
-- backend/src/orders/orders.service.ts: the cancellation and the return of an order by its owner,
-- and the status that an administrator sets.
pub mod Guards
pub mod Returns
use shop_verse.Base.{
  ℕ, ◌+◌, ◌*◌, max, min, Bool, true, false, not, ◌&&◌, ◌||◌, Option, none, some, List, [], ◌∷◌, map,
  find_first, filter_where, any, leb, ltb, ◌==◌, if◌then◌else◌, Result, ok, err, Tx, Action, ◌>>=◌,
  ◌>>◌, pure, throw_if, or_throw, gets, transact, not_found, bad_request,
}
use shop_verse.Stock.{Stock}
use shop_verse.Inventory.{release, commit_shipment}
use shop_verse.Orders.Tables.{
  Shop, Order, OrderItem, OrderStatus, TrackingEvent, ReturnRequest, ReturnItem, pending, confirmed,
  processing, shipped, delivered, cancelled, refunded, return_requested, is_status, is_order,
  is_owner, on_stock, update_order, set_status, add_tracking, PaymentStatus,
}

abbrev pub is_line : ℕ → OrderItem → Bool
is_line order it = order == it.order_id

abbrev pub is_active_line : ℕ → OrderItem → Bool
is_active_line order it = order == it.order_id && not it.is_cancelled

-- order.findFirst by id, the primary key, and owner.
unfoldable pub find_own : (user id : ℕ) → Tx Shop Order
find_own user id s = elim (find_first (is_order id) s.orders) [
  | none ↦ err not_found
  | some o ↦ if is_owner user o.user_id then ok (o, s) else err not_found
]

unfoldable pub release_lines : List OrderItem → Tx Stock (Unit {0})
release_lines [] = pure tt
release_lines (it ∷ its) = release it.variant_id it.quantity >> release_lines its

unfoldable pub commit_lines : List OrderItem → Tx Stock (Unit {0})
commit_lines [] = pure tt
commit_lines (it ∷ its) = commit_shipment it.variant_id it.quantity >> commit_lines its

unfoldable pub cancel_order : (now user id : ℕ) → Tx Shop Order
cancel_order now user id = do
  o ← find_own user id
  throw_if (not (is_status o.status pending || is_status o.status confirmed)) bad_request
  lines ← gets (λ s. filter_where (is_active_line id) s.items)
  on_stock (release_lines lines)
  update_order now id (set_status cancelled)

abbrev pub is_pre_shipment : OrderStatus → Bool
is_pre_shipment st = is_status st pending || is_status st confirmed || is_status st processing

abbrev pub is_shipping : Order → OrderStatus → Bool
is_shipping o status = is_status status shipped && is_pre_shipment o.status

unfoldable pub ship_lines : Order → List OrderItem → OrderStatus → Tx Shop (Unit {0})
ship_lines o lines status s =
    if is_shipping o status
    then on_stock (commit_lines (filter_where (λ it. not it.is_cancelled) lines)) s
    else ok (tt, s)

-- The transaction of `updateOrderStatus`, on the order and the lines that were read before it.
unfoldable pub write_status : (now : ℕ) → Order → List OrderItem → OrderStatus → Tx Shop Order
write_status now o lines status = do
  ship_lines o lines status
  row ← update_order now o.id (set_status status)
  add_tracking (record { order_id = o.id; status = status; created_at = now })
  pure row

-- What `updateOrderStatus` sends after its transaction, without waiting for its success.
pub data Notice : Type 0 where
  shipped_email delivered_email refund_email : (order : ℕ) → Notice
  credit_referral : (user : ℕ) → Notice
  order_delivered : (order : ℕ) (user : Option ℕ) (total : ℕ) → Notice
  clawback_points : (user order : ℕ) → Notice

abbrev pub referral_notice : Option ℕ → List Notice
referral_notice none = []
referral_notice (some u) = credit_referral u ∷ []

abbrev pub clawback_notice : Option ℕ → ℕ → List Notice
clawback_notice none o = []
clawback_notice (some u) o = clawback_points u o ∷ []

abbrev pub delivery_notices : Order → List Notice → List Notice
delivery_notices o [] = delivered_email o.id ∷ order_delivered o.id o.user_id o.total ∷ []
delivery_notices o (n ∷ ns) = delivered_email o.id ∷ n ∷ order_delivered o.id o.user_id o.total ∷ []

unfoldable pub notices : OrderStatus → Order → List Notice
notices shipped o = shipped_email o.id ∷ []
notices delivered o = delivery_notices o (referral_notice o.user_id)
notices refunded o = refund_email o.id ∷ clawback_notice o.user_id o.id
notices st o = []

unfoldable pub update_order_status : (now id : ℕ) → OrderStatus → Action Shop (Order × List Notice)
update_order_status now id status s = elim (find_first (is_order id) s.orders) [
  | none ↦ (err not_found, s)
  | some o ↦ elim (write_status now o (filter_where (is_line id) s.items) status s) [
    | ok (row, s') ↦ (ok (row, notices status o), s')
    | err e ↦ (err e, s)
  ]
]

-- The smallest of some windows. The list of lines is not empty where it is asked for.
abbrev pub strictest : (ℕ → ℕ) → OrderItem → List OrderItem → ℕ
strictest window it [] = window it.variant_id
strictest window it (x ∷ xs) = min (window it.variant_id) (strictest window x xs)

abbrev pub window_days : (ℕ → ℕ) → List OrderItem → ℕ
window_days window [] = 0
window_days window (x ∷ xs) = strictest window x xs

-- The newest DELIVERED event of an order.
abbrev pub last_delivery : ℕ → List TrackingEvent → Option ℕ
last_delivery id [] = none
last_delivery id (e ∷ es) =
    let rest : Option ℕ = last_delivery id es in
    if id == e.order_id && is_status e.status delivered
    then some (elim rest [ none ↦ e.created_at | some t ↦ max e.created_at t ])
    else rest

abbrev pub delivered_at : Order → List TrackingEvent → ℕ
delivered_at o es = elim (last_delivery o.id es) [ none ↦ o.updated_at | some t ↦ t ]

abbrev pub day_ms : ℕ
day_ms = 86400000

abbrev pub is_empty : {A : Type 0} → List A → Bool
is_empty [] = true
is_empty (x ∷ xs) = false

abbrev pub has_return : ℕ → Shop → Bool
has_return id s = any (λ r. id == r.order_id) s.returns

-- `window` gives the return window in days of a variant's category, the default of 7 included.
unfoldable pub request_return : (window : ℕ → ℕ) (now user id : ℕ) → Tx Shop ReturnRequest
request_return window now user id = do
  o ← find_own user id
  throw_if (not (is_status o.status delivered)) bad_request
  requested ← gets (has_return id)
  throw_if requested bad_request
  lines ← gets (λ s. filter_where (is_active_line id) s.items)
  throw_if (is_empty lines) bad_request
  throw_if (leb (window_days window lines) 0) bad_request
  at ← gets (λ s. delivered_at o s.tracking)
  throw_if (ltb (at + window_days window lines * day_ms) now) bad_request
  let r : ReturnRequest = record {
    order_id = id;
    items = map (λ it. record { order_item_id = it.id; quantity = it.quantity }) lines;
  }
  λ s. ok (tt, record s { returns = r ∷ s.returns })
  update_order now id (set_status return_requested)
  pure r

-- updatePaymentStatus asks for nothing.
abbrev pub update_payment_status : (now id payment : ℕ) → PaymentStatus → Tx Shop Order
update_payment_status now id payment status =
    update_order now id (λ o. record o { payment_id = some payment; payment_status = status })
