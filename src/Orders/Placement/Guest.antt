-- ===== src/Orders/Placement/Guest.antt =====
-- placeGuestOrder in backend/src/orders/orders.service.ts, from its checks to the tracking event.
pub mod Reserved
pub mod Cases
pub mod Outcome
use shop_verse.Base.{
  ℕ, ◌+◌, ◌*◌, Bool, not, ◌&&◌, Option, none, some, List, [], ◌∷◌, ◌++◌, find_first, sum_by, leb,
  false, Result, ok, err, Tx, Action, ◌>>=◌, ◌>>◌, pure, throw_if, gets, or_throw, bad_request,
  not_found,
}
use Prim.Native.String.{String}
use shop_verse.Stock.{Stock, is_variant}
use shop_verse.Inventory.{reserve}
use shop_verse.Coupons.{use_coupon}
use shop_verse.Reservation.{effective_price}
use shop_verse.Orders.Pricing.{Quote, quote, get_store_config}
use shop_verse.Orders.Tables.{Shop, Order, stripe, pending, unpaid, on_stock, on_promotions}
use shop_verse.Orders.Placement.{
  Environment, NewItem, order_lines, count_items, discount_of, new_total,
}

pub record GuestItem : Type 0 where
  pub variant_id : ℕ
  pub quantity : ℕ

abbrev pub of_guest_item : GuestItem → ℕ × ℕ
of_guest_item it = (it.variant_id, it.quantity)

pub record GuestOrder : Type 0 where
  pub items : List GuestItem
  pub coupon_code : Option ℕ

pub record GuestDraft : Type 0 where
  pub items : List NewItem
  pub amounts : Quote
  pub currency : String
  pub coupon_code : Option ℕ

-- `stock - reservedStock >= quantity`, written as a sum.
unfoldable pub check_item : Environment → GuestItem → Tx Shop NewItem
check_item env it = do
  variant ← λ s. or_throw (find_first (is_variant it.variant_id) s.stock.variants) not_found s
  throw_if
      (not (leb (variant.reserved_stock + it.quantity) variant.stock)
        && not variant.backorder_allowed)
      bad_request
  let p = env.product it.variant_id
  pure (record {
    variant_id = it.variant_id;
    quantity = it.quantity;
    price = effective_price p.base_price p.discount_pct;
  })

unfoldable pub check_items : Environment → List GuestItem → Tx Shop (List NewItem)
check_items env [] = pure []
check_items env (it ∷ its) = do
  first ← check_item env it
  rest ← check_items env its
  pure (first ∷ rest)

-- The checks before the transaction.
unfoldable pub prepare_guest : Environment → (now : ℕ) → GuestOrder → Tx Shop GuestDraft
prepare_guest env now dto = do
  throw_if env.is_blocked bad_request
  items ← check_items env dto.items
  discount ← discount_of now (new_total items) dto.coupon_code none
  pure (record {
    items = items;
    amounts =
        quote env.tax_strategy (get_store_config env.settings) (new_total items * 100) discount;
    currency = (get_store_config env.settings).currency;
    coupon_code = dto.coupon_code;
  })

-- The calls of `reserve` pass no flag, so they do not allow a backorder.
unfoldable pub reserve_all : List GuestItem → Tx Stock (Unit {0})
reserve_all [] = pure tt
reserve_all (it ∷ its) = reserve it.variant_id it.quantity false >> reserve_all its

abbrev pub guest_order : (now id : ℕ) → GuestDraft → Order
guest_order now id d = record {
  id = id;
  user_id = none;
  status = pending;
  payment_method = stripe;
  payment_status = unpaid;
  subtotal = d.amounts.subtotal;
  discount_amount = d.amounts.discount_amount;
  shipping_fee = d.amounts.shipping_fee;
  tax_amount = d.amounts.tax_amount;
  total = d.amounts.total;
  wallet_amount_used = 0;
  currency = d.currency;
  coupon_code = d.coupon_code;
  payment_id = none;
  updated_at = now;
}

unfoldable pub create_guest_order : (now : ℕ) → GuestDraft → Tx Shop Order
create_guest_order now d s =
    let o : Order = guest_order now s.next_order d in
    ok (
      o,
      record s {
        orders = o ∷ s.orders;
        items = order_lines s.next_order s.next_item d.items ++ s.items;
        next_order = s.next_order + 1;
        next_item = s.next_item + count_items d.items;
      },
    )

-- A guest's use of a coupon is counted, and not recorded.
unfoldable pub use_guest_code : (now : ℕ) → Option ℕ → Tx Shop (Unit {0})
use_guest_code now none s = ok (tt, s)
use_guest_code now (some code) s = on_promotions (use_coupon now code none) s

-- The transaction.
unfoldable pub write_guest_order : (now : ℕ) → List GuestItem → GuestDraft → Tx Shop Order
write_guest_order now its d = do
  on_stock (reserve_all its)
  o ← create_guest_order now d
  use_guest_code now d.coupon_code
  pure o

abbrev pub tracked : (now : ℕ) → Order → Shop → Shop
tracked now o s = record s {
  tracking = record { order_id = o.id; status = pending; created_at = now } ∷ s.tracking;
}

unfoldable pub place_guest_order : Environment → (now : ℕ) → GuestOrder → Action Shop Order
place_guest_order env now dto s =
    elim ((prepare_guest env now dto >>= write_guest_order now dto.items) s) [
      | err e ↦ (err e, s)
      | ok (o, s') ↦ (ok o, tracked now o s')
    ]
