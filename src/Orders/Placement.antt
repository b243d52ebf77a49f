-- ===== src/Orders/Placement.antt =====
-- backend/src/orders/orders.service.ts: placeOrder, from the checks before its transaction to the
-- payment from the wallet after it. The fraud check, the address, the prices of the products, the
-- tax strategy and the verdict of the hook are arguments. The e-mail, the events and the clearing
-- of the cart come after, and no failure of theirs is seen.
pub mod Preparation
pub mod Writes
pub mod Composition
pub mod Invariants
pub mod Guest
mod Tests
use shop_verse.Base.{
  ℕ, ◌+◌, ◌-◌, ◌*◌, Bool, true, false, not, Option, none, some, List, [], ◌∷◌, ◌++◌, find_first,
  map, sum_by, leb, ltb, ◌==◌, if◌then◌else◌, Result, ok, err, Error, Tx, Action, ◌>>=◌, ◌>>◌, pure,
  throw_if, gets, or_throw, bad_request, not_found,
}
use Prim.Native.String.{String}
use shop_verse.Wallet.Tables.{Wallet, order_wallet, is_user}
use shop_verse.Wallet.{debit}
use shop_verse.Coupons.{apply_discount, use_coupon}
use shop_verse.Reservation.{CartReservation, CartReservationItem}
use shop_verse.Reservation.Checkout.{
  Product, Validation, valid, missing, not_owner, ran_out, not_active, price_drift,
  validate_for_checkout, consume,
}
use shop_verse.Orders.Pricing.{StoreConfig, Quote, quote, get_store_config, wallet_part}
use shop_verse.Orders.Tables.{
  Shop, Order, OrderItem, PaymentMethod, stripe, pending, unpaid, on_promotions, on_reservations,
  reservation_db, add_tracking,
}

pub record Environment : Type 0 where
  pub is_blocked : Bool
  pub has_address : Bool
  pub product : ℕ → Product
  pub settings : Option StoreConfig
  pub tax_strategy : Option (ℕ → ℕ)
  pub hook_rejects : CartReservation → Bool

-- The body of the request. A `reservationId` of 0 is none.
pub record PlaceOrder : Type 0 where
  pub reservation_id : ℕ
  pub coupon_code : Option ℕ
  pub wallet_amount : ℕ

pub record Draft : Type 0 where
  pub reservation : CartReservation
  pub amounts : Quote
  pub currency : String
  pub coupon_code : Option ℕ
  pub wallet_amount_used : ℕ

pub record NewItem : Type 0 where
  pub variant_id : ℕ
  pub quantity : ℕ
  pub price : ℕ

-- A locked price and the price of a new item are in ten-thousandths of the currency, the price of a
-- row in millionths.
abbrev pub locked_item : CartReservationItem → NewItem
locked_item it = record {
  variant_id = it.variant_id;
  quantity = it.quantity;
  price = it.locked_price;
}

abbrev pub locked_total : List CartReservationItem → ℕ
locked_total = sum_by λ it. it.locked_price * it.quantity

abbrev pub require_valid : Validation → Tx Shop CartReservation
require_valid (valid r) s = ok (r, s)
require_valid missing s = err bad_request
require_valid not_owner s = err bad_request
require_valid ran_out s = err bad_request
require_valid (not_active st) s = err bad_request
require_valid (price_drift items) s = err bad_request

abbrev pub new_total : List NewItem → ℕ
new_total = sum_by λ it. it.price * it.quantity

-- The discount of a code, if there is one, on an amount in ten-thousandths.
abbrev pub discount_of : (now amount : ℕ) → Option ℕ → Option ℕ → Tx Shop ℕ
discount_of now amount none user s = ok (0, s)
discount_of now amount (some code) user s = on_promotions (apply_discount now code amount user) s

abbrev pub balance_of : ℕ → Shop → ℕ
balance_of user s = elim (find_first (is_user user) s.books.wallets) [
  | none ↦ 0
  | some w ↦ w.balance
]

-- Everything before the transaction. Nothing is written.
unfoldable pub prepare : Environment → (now user : ℕ) → PlaceOrder → Tx Shop Draft
prepare env now user dto = do
  throw_if env.is_blocked bad_request
  throw_if (dto.reservation_id == 0) bad_request
  check ←
      gets (λ s. validate_for_checkout env.product dto.reservation_id user now (reservation_db s))
  r ← require_valid check
  throw_if (not env.has_address) not_found
  discount ← discount_of now (locked_total r.items) dto.coupon_code (some user)
  let q : Quote =
      quote env.tax_strategy (get_store_config env.settings) (locked_total r.items * 100) discount
  balance ← gets (balance_of user)
  throw_if (env.hook_rejects r) bad_request
  pure (record {
    reservation = r;
    amounts = q;
    currency = (get_store_config env.settings).currency;
    coupon_code = dto.coupon_code;
    wallet_amount_used = wallet_part dto.wallet_amount balance q.total;
  })

abbrev pub order_lines : (order item : ℕ) → List NewItem → List OrderItem
order_lines order item [] = []
order_lines order item (it ∷ its) =
    record {
      id = item;
      order_id = order;
      variant_id = it.variant_id;
      quantity = it.quantity;
      price = it.price * 100;
      is_cancelled = false;
      is_refunded = false;
    }
    ∷ order_lines order (item + 1) its

-- What a line, a new item and an item of a reservation are of: the variant and the quantity.
abbrev pub of_line : OrderItem → ℕ × ℕ
of_line l = (l.variant_id, l.quantity)

abbrev pub of_new : NewItem → ℕ × ℕ
of_new it = (it.variant_id, it.quantity)

abbrev pub of_reserved : CartReservationItem → ℕ × ℕ
of_reserved it = (it.variant_id, it.quantity)

abbrev pub count_items : List NewItem → ℕ
count_items = sum_by λ it. 1

-- order.create with its items. An order is PENDING, UNPAID and by STRIPE by default.
abbrev pub new_order : (now id : ℕ) → Option ℕ → Draft → Order
new_order now id user d = record {
  id = id;
  user_id = user;
  status = pending;
  payment_method = stripe;
  payment_status = unpaid;
  subtotal = d.amounts.subtotal;
  discount_amount = d.amounts.discount_amount;
  shipping_fee = d.amounts.shipping_fee;
  tax_amount = d.amounts.tax_amount;
  total = d.amounts.total;
  wallet_amount_used = d.wallet_amount_used;
  currency = d.currency;
  coupon_code = d.coupon_code;
  payment_id = none;
  updated_at = now;
}

unfoldable pub create_order : (now user : ℕ) → Draft → Tx Shop Order
create_order now user d s =
    let o : Order = new_order now s.next_order (some user) d in
    ok (
      o,
      record s {
        orders = o ∷ s.orders;
        items =
            order_lines s.next_order s.next_item (map locked_item d.reservation.items) ++ s.items;
        next_order = s.next_order + 1;
        next_item = s.next_item + count_items (map locked_item d.reservation.items);
      },
    )

unfoldable pub use_code : (now : ℕ) → Option ℕ → Option ℕ → Tx Shop (Unit {0})
use_code now none user s = ok (tt, s)
use_code now (some code) user s = on_promotions (use_coupon now code user) s

-- The transaction.
unfoldable pub write_order : (now user : ℕ) → Draft → Tx Shop Order
write_order now user d = do
  o ← create_order now user d
  on_reservations (consume d.reservation.id)
  use_code now d.coupon_code (some user)
  pure o

-- The debit after the commit; its failure is swallowed.
unfoldable pub pay_from_wallet : (user : ℕ) → Order → Shop → Shop
pay_from_wallet user o s =
    if ltb 0 o.wallet_amount_used
    then record s { books = (debit user o.wallet_amount_used (order_wallet o.id) s.books).1 }
    else s

abbrev pub after_order : (now user : ℕ) → Order → Shop → Shop
after_order now user o s =
    let paid = pay_from_wallet user o s in
    record paid {
      tracking = record { order_id = o.id; status = pending; created_at = now } ∷ paid.tracking;
    }

unfoldable pub place_order : Environment → (now user : ℕ) → PlaceOrder → Action Shop Order
place_order env now user dto s = elim ((prepare env now user dto >>= write_order now user) s) [
  | err e ↦ (err e, s)
  | ok (o, s') ↦ (ok o, after_order now user o s')
]
