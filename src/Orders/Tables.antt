-- ===== src/Orders/Tables.antt =====
-- The tables around `Order` (prisma/schema/main.prisma), with those of stock and money. Prices and
-- amounts are millionths of the currency, whose code the order holds. Of `cancelledAt` and
-- `refundedAt` the services only ask whether they are set. The newest row of a list comes first.
use shop_verse.Base.{
  ℕ, Bool, true, false, Option, none, some, List, ◌∷◌, find_first, replace_first, ◌==◌, ok, err, Tx,
  fault,
}
use Prim.Native.String.{String}
use shop_verse.Stock.{Stock}
use shop_verse.Reservation.{CartReservation, Db}
use shop_verse.Coupons.{Promotions}
use shop_verse.Wallet.Tables.{Books, Reference}

pub data OrderStatus : Type 0 where
  pending confirmed processing cancelling shipped delivered cancelled return_requested returned
        refunded :
      OrderStatus

pub data PaymentStatus : Type 0 where
  unpaid paid fully_refunded partially_refunded : PaymentStatus

pub data PaymentMethod : Type 0 where
  stripe cod : PaymentMethod

pub data ReconcileStatus : Type 0 where
  awaiting matched discrepant resolved : ReconcileStatus

pub data RefundRequestStatus : Type 0 where
  requested approved in_process completed rejected failed : RefundRequestStatus

pub data RefundDestination : Type 0 where
  original_payment to_wallet : RefundDestination

abbrev pub status_code : OrderStatus → ℕ
status_code pending = 0
status_code confirmed = 1
status_code processing = 2
status_code cancelling = 3
status_code shipped = 4
status_code delivered = 5
status_code cancelled = 6
status_code return_requested = 7
status_code returned = 8
status_code refunded = 9

abbrev pub is_status : OrderStatus → OrderStatus → Bool
is_status a b = status_code a == status_code b

abbrev pub payment_code : PaymentStatus → ℕ
payment_code unpaid = 0
payment_code paid = 1
payment_code fully_refunded = 2
payment_code partially_refunded = 3

abbrev pub is_cod : PaymentMethod → Bool
is_cod stripe = false
is_cod cod = true

pub record Order : Type 0 where
  pub id : ℕ
  pub user_id : Option ℕ
  pub status : OrderStatus
  pub payment_method : PaymentMethod
  pub payment_status : PaymentStatus
  pub subtotal : ℕ
  pub discount_amount : ℕ
  pub shipping_fee : ℕ
  pub tax_amount : ℕ
  pub total : ℕ
  pub wallet_amount_used : ℕ
  pub currency : String
  pub coupon_code : Option ℕ
  pub payment_id : Option ℕ
  pub updated_at : ℕ

pub record OrderItem : Type 0 where
  pub id : ℕ
  pub order_id : ℕ
  pub variant_id : ℕ
  pub quantity : ℕ
  pub price : ℕ
  pub is_cancelled : Bool
  pub is_refunded : Bool

pub record TrackingEvent : Type 0 where
  pub order_id : ℕ
  pub status : OrderStatus
  pub created_at : ℕ

pub record ReturnItem : Type 0 where
  pub order_item_id : ℕ
  pub quantity : ℕ

pub record ReturnRequest : Type 0 where
  pub order_id : ℕ
  pub items : List ReturnItem

pub record RefundRequest : Type 0 where
  pub order_id : ℕ
  pub order_item_id : Option ℕ
  pub amount : ℕ
  pub status : RefundRequestStatus
  pub destination : RefundDestination
  pub gateway_ref : Option ℕ
  pub reference : Reference
  pub retry_count : ℕ
  pub updated_at : ℕ

pub record PaymentReconciliation : Type 0 where
  pub gateway_ref : Reference
  pub order_id : Option ℕ
  pub gateway_amount : ℕ
  pub internal_amount : Option ℕ
  pub discrepancy : Option ℕ
  pub status : ReconcileStatus

pub record Shop : Type 0 where
  pub stock : Stock
  pub books : Books
  pub orders : List Order
  pub items : List OrderItem
  pub tracking : List TrackingEvent
  pub returns : List ReturnRequest
  pub refunds : List RefundRequest
  pub reconciliations : List PaymentReconciliation
  pub reservations : List CartReservation
  pub next_reservation : ℕ
  pub promotions : Promotions
  pub next_order : ℕ
  pub next_item : ℕ

abbrev pub is_order : ℕ → Order → Bool
is_order i o = i == o.id

abbrev pub is_item : ℕ → OrderItem → Bool
is_item i it = i == it.id

abbrev pub is_owner : ℕ → Option ℕ → Bool
is_owner user none = false
is_owner user (some u) = user == u

abbrev pub on_stock : {A : Type 0} → Tx Stock A → Tx Shop A
on_stock m s = elim (m s.stock) [ ok (a, t) ↦ ok (a, record s { stock = t }) | err e ↦ err e ]

abbrev pub on_books : {A : Type 0} → Tx Books A → Tx Shop A
on_books m s = elim (m s.books) [ ok (a, b) ↦ ok (a, record s { books = b }) | err e ↦ err e ]

abbrev pub on_promotions : {A : Type 0} → Tx Promotions A → Tx Shop A
on_promotions m s = elim (m s.promotions) [
  | ok (a, p) ↦ ok (a, record s { promotions = p })
  | err e ↦ err e
]

-- The tables of the reservations, which share those of the stock.
abbrev pub reservation_db : Shop → Db
reservation_db s = record {
  stock = s.stock;
  reservations = s.reservations;
  next_id = s.next_reservation;
}

abbrev pub put_reservations : Db → Shop → Shop
put_reservations d s = record s {
  stock = d.stock;
  reservations = d.reservations;
  next_reservation = d.next_id;
}

abbrev pub on_reservations : {A : Type 0} → Tx Db A → Tx Shop A
on_reservations m s = elim (m (reservation_db s)) [
  | ok (a, d) ↦ ok (a, put_reservations d s)
  | err e ↦ err e
]

-- tx.order.update by id; `updatedAt` is set by every update. The answer is the new row.
unfoldable pub update_order : (now id : ℕ) → (Order → Order) → Tx Shop Order
update_order now id f s = elim (find_first (is_order id) s.orders) [
  | none ↦ err fault
  | some o ↦
      let o' : Order = record (f o) { updated_at = now } in
      ok (o', record s { orders = replace_first (is_order id) o' s.orders })
]

-- tx.orderItem.update by id.
unfoldable pub update_item : ℕ → (OrderItem → OrderItem) → Tx Shop (Unit {0})
update_item id f s = elim (find_first (is_item id) s.items) [
  | none ↦ err fault
  | some it ↦ ok (tt, record s { items = replace_first (is_item id) (f it) s.items })
]

abbrev pub set_status : OrderStatus → Order → Order
set_status status o = record o { status = status }

abbrev pub add_tracking : TrackingEvent → Tx Shop (Unit {0})
add_tracking e s = ok (tt, record s { tracking = e ∷ s.tracking })
