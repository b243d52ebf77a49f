-- ===== src/Reservation/Tables.antt =====
-- The rows that backend/src/cart/cart-reservation.service.ts reads and writes. Times are
-- milliseconds. A base price is in cents and a locked price in hundredths of a cent, so that
-- `basePrice * (1 - discountPct / 100)` is exact at whole percentages (at most 100).
use shop_verse.Base.{
  ℕ, ◌-◌, ◌*◌, Bool, true, false, ◌&&◌, none, some, List, find_first, replace_first, ltb, ◌==◌,
  if◌then◌else◌, Tx, ok, err,
}
use shop_verse.Stock.{Stock}

pub data CartReservationStatus : Type 0 where
  active expired consumed : CartReservationStatus

pub record CartReservationItem : Type 0 where
  pub variant_id : ℕ
  pub warehouse_id : ℕ
  pub quantity : ℕ
  pub locked_price : ℕ
  pub locked_mrp : ℕ

pub record CartReservation : Type 0 where
  pub id : ℕ
  pub cart_id : ℕ
  pub user_id : ℕ
  pub status : CartReservationStatus
  pub expires_at : ℕ
  pub is_flash : Bool
  pub created_at : ℕ
  pub items : List CartReservationItem

pub record Db : Type 0 where
  pub stock : Stock
  pub reservations : List CartReservation
  pub next_id : ℕ

abbrev pub is_active : CartReservationStatus → Bool
is_active active = true
is_active _ = false

abbrev pub is_reservation : ℕ → CartReservation → Bool
is_reservation id r = id == r.id

-- An ACTIVE reservation of the user that has not run out.
abbrev pub is_live : ℕ → ℕ → CartReservation → Bool
is_live user now r = user == r.user_id && is_active r.status && ltb now r.expires_at

-- updateMany WHERE id AND status = ACTIVE; the answer is `count` > 0.
unfoldable pub flip_active : ℕ → CartReservationStatus → Tx Db Bool
flip_active id status s = elim (find_first (is_reservation id) s.reservations) [
  | none ↦ ok (false, s)
  | some r ↦
      if is_active r.status
      then ok (
        true,
        record s {
          reservations =
              replace_first (is_reservation id) (record r { status = status }) s.reservations;
        },
      )
      else ok (false, s)
]

abbrev pub lift_stock : {A : Type 0} → Tx Stock A → Tx Db A
lift_stock m s = elim (m s.stock) [ ok (a, t) ↦ ok (a, record s { stock = t }) | err e ↦ err e ]

-- A product as the cart joins it to an item: its price and the windows of its flash sales.
pub record FlashSaleItem : Type 0 where
  pub starts_at : ℕ
  pub ends_at : ℕ
  -- 0 for no cap
  pub per_user_max_qty : ℕ

pub record CartItem : Type 0 where
  pub variant_id : ℕ
  pub quantity : ℕ
  pub base_price : ℕ
  pub discount_pct : ℕ
  pub flash_sale_items : List FlashSaleItem

pub record Cart : Type 0 where
  pub id : ℕ
  pub user_id : ℕ
  pub items : List CartItem

abbrev pub effective_price : ℕ → ℕ → ℕ
effective_price base_price discount_pct = base_price * (100 - discount_pct)

-- The quantity of a variant in a warehouse among some items.
abbrev pub quantity_in : ℕ → ℕ → CartReservationItem → ℕ
quantity_in wh v it = if wh == it.warehouse_id && v == it.variant_id then it.quantity else 0
