-- ===== src/Orders/Lines.antt =====
-- backend/src/orders/orders.service.ts: the cancellation and the refund of one line of an order.
-- What is read before a transaction is an argument of what the transaction writes, so that two
-- requests that read the same rows can be run one after the other.
pub mod Refunds
pub mod Races
use shop_verse.Base.{
  ℕ, ◌+◌, ◌*◌, Bool, true, false, not, ◌&&◌, ◌||◌, Option, none, some, List, [], ◌∷◌, find_first,
  replace_first, filter_where, count_where, any, all, sum_by, ltb, ◌==◌, if◌then◌else◌, Result, ok,
  err, Error, Tx, Action, ◌>>=◌, ◌>>◌, pure, throw_if, or_throw, gets, not_found, bad_request,
  unique_violation, check_violation,
}
use shop_verse.Inventory.{release}
use shop_verse.Wallet.Tables.{
  Books, Wallet, WalletTransaction, Reference, refund_item, credit_type, wallet_credit,
  upsert_wallet, create_transaction, create_entry, is_same_reference,
}
use shop_verse.Orders.Tables.{
  completed, to_wallet, Shop, Order, OrderItem, OrderStatus, PaymentStatus, RefundRequest,
  cancelled, processing, pending, confirmed, fully_refunded, partially_refunded, payment_code,
  is_status, is_order, is_item, on_stock, on_books, update_order, update_item,
}
use shop_verse.Orders.Lifecycle.{find_own, is_line, is_pre_shipment}

abbrev pub line_total : OrderItem → ℕ
line_total it = it.price * it.quantity

-- `remainingItems`, their total and whether all are cancelled.
abbrev pub remaining : ℕ → List OrderItem → List OrderItem
remaining item lines = filter_where (λ i. not (i.id == item)) lines

abbrev pub new_total : ℕ → List OrderItem → ℕ
new_total item lines = sum_by line_total (remaining item lines)

abbrev pub is_all_cancelled : ℕ → List OrderItem → Bool
is_all_cancelled item lines = all (λ i. i.is_cancelled) (remaining item lines)

abbrev pub recalculate : ℕ → Order → List OrderItem → Order → Order
recalculate item read lines o = record o {
  total = if is_all_cancelled item lines then 0 else new_total item lines;
  status = if is_all_cancelled item lines then cancelled else read.status;
}

-- The transaction of `cancelOrderItem`, on the order, its lines and the line that were read.
unfoldable pub write_cancelled_item : (now : ℕ) → Order → List OrderItem → OrderItem → Tx Shop Order
write_cancelled_item now read lines it = do
  update_item it.id (λ i. record i { is_cancelled = true })
  on_stock (release it.variant_id it.quantity)
  update_order now read.id (recalculate it.id read lines)

-- What comes before it.
abbrev pub cancellable_item : (user order item : ℕ) → Tx Shop (Order × OrderItem)
cancellable_item user order item = do
  o ← find_own user order
  throw_if (not (is_pre_shipment o.status)) bad_request
  it ← λ s. or_throw (find_first (is_item item) (filter_where (is_line order) s.items)) not_found s
  throw_if it.is_cancelled bad_request
  pure (o, it)

unfoldable pub cancel_order_item : (now user order item : ℕ) → Tx Shop Order
unfolding write_cancelled_item
cancel_order_item now user order item = do
  read ← cancellable_item user order item
  lines ← gets (λ s. filter_where (is_line order) s.items)
  write_cancelled_item now read.0 lines read.1

pub data RefundOutcome : Type 0 where
  already_refunded : RefundOutcome
  refunded_line : (amount : ℕ) → PaymentStatus → RefundOutcome

-- orderItem.updateMany by id where `refundedAt` is null. The answer says whether a row changed.
unfoldable pub mark_refunded : ℕ → Tx Shop Bool
mark_refunded item s = elim (find_first (is_item item) s.items) [
  | none ↦ ok (false, s)
  | some it ↦
      if it.is_refunded
      then ok (false, s)
      else ok (
        true,
        record s {
          items = replace_first (is_item item) (record it { is_refunded = true }) s.items;
        },
      )
]

-- The request of a line's refund, which is completed at once.
abbrev pub line_refund : (now : ℕ) → Order → OrderItem → RefundRequest
line_refund now read it = record {
  order_id = read.id;
  order_item_id = some it.id;
  amount = line_total it;
  status = completed;
  destination = to_wallet;
  gateway_ref = none;
  reference = refund_item read.id it.id;
  retry_count = 0;
  updated_at = now;
}

-- refundRequest.create; the table has a CHECK that the amount is positive, and the reference is
-- unique.
unfoldable pub create_refund_request : RefundRequest → Tx Shop (Unit {0})
create_refund_request r s =
    if r.amount == 0
    then err check_violation
    else if any (λ x. is_same_reference r.reference x.reference) s.refunds
    then err unique_violation
    else ok (tt, record s { refunds = r ∷ s.refunds })

-- The wallet's part: the credit, its transaction and the ledger entry. A transaction that is
-- already there is a bad request.
unfoldable pub credit_refund : (user amount : ℕ) → Reference → Tx Books (Unit {0})
credit_refund user amount ref s = elim (upsert_wallet user amount s) [
  | err e ↦ err e
  | ok (w, b) ↦
      let t : WalletTransaction = record {
        wallet_id = w.id;
        amount = amount;
        type = credit_type;
        reference = ref;
        balance_after = w.balance;
      } in
      elim (create_transaction t b) [
        | err unique_violation ↦ err bad_request
        | err e ↦ err e
        | ok (u, b') ↦
            create_entry
              (record {
                type = wallet_credit;
                debit_amount = 0;
                credit_amount = amount;
                reference = ref;
              })
              b'
      ]
]

abbrev pub eligible : ℕ → List OrderItem → List OrderItem
eligible order items = filter_where (λ i. is_line order i && not i.is_cancelled) items

abbrev pub count_all : OrderItem → Bool
count_all i = true

-- The order's payment status by how many of its eligible lines are refunded.
abbrev pub rolled_up : List OrderItem → PaymentStatus → PaymentStatus
rolled_up lines before =
    let refunds = count_where (λ i. i.is_refunded) lines in
    let total = count_where count_all lines in
    if ltb 0 total && refunds == total
    then fully_refunded
    else if ltb 0 refunds
    then partially_refunded
    else before

abbrev pub set_payment : PaymentStatus → Order → Order
set_payment p o = record o { payment_status = p }

unfoldable pub write_payment : (now : ℕ) → Order → PaymentStatus → Tx Shop PaymentStatus
write_payment now read next s =
    if payment_code next == payment_code read.payment_status
    then ok (next, s)
    else elim (update_order now read.id (set_payment next) s) [
      | err e ↦ err e
      | ok (o, s') ↦ ok (next, s')
    ]

unfoldable pub roll_up : (now : ℕ) → Order → Tx Shop PaymentStatus
roll_up now read s =
    write_payment now read (rolled_up (eligible read.id s.items) read.payment_status) s

unfoldable pub pay_refund : (now user : ℕ) → Order → OrderItem → Tx Shop RefundOutcome
pay_refund now user read it = do
  create_refund_request (line_refund now read it)
  on_books (credit_refund user (line_total it) (refund_item read.id it.id))
  next ← roll_up now read
  pure (refunded_line (line_total it) next)

-- The transaction of `refundOrderItem`, on the rows that were read before it.
unfoldable pub write_refund : (now user : ℕ) → Order → OrderItem → Tx Shop RefundOutcome
write_refund now user read it = do
  marked ← mark_refunded it.id
  if marked then pay_refund now user read it else pure already_refunded

abbrev pub or_not_found : Option ℕ → Tx Shop ℕ
or_not_found u = or_throw u not_found

unfoldable pub refund_read : (now order : ℕ) → OrderItem → Tx Shop RefundOutcome
refund_read now order it = do
  o ← λ s. or_throw (find_first (is_order order) s.orders) not_found s
  user ← or_not_found o.user_id
  write_refund now user o it

unfoldable pub refund_order_item : (now order item : ℕ) → Tx Shop RefundOutcome
refund_order_item now order item = do
  it ← λ s. or_throw (find_first (λ i. is_item item i && is_line order i) s.items) not_found s
  if it.is_refunded then pure already_refunded else refund_read now order it
