-- ===== src/Reservation/Create.antt =====
-- `createReservation` of backend/src/cart/cart-reservation.service.ts.
pub mod Tokens
use shop_verse.Base.{
  ℕ, suc, ◌+◌, ◌-◌, ◌*◌, ◌≤◌, Bool, true, false, not, ◌&&◌, ◌||◌, Option, none, some, List, [], ◌∷◌,
  ◌++◌, map, find_first, filter_where, sum_by, any, length, leb, ltb, ◌==◌, if◌then◌else◌, Result,
  ok, err, bad_request, fault, Error,
}
use shop_verse.Stock.{Stock, is_row, ensure_row, get_default_warehouse_id}
use shop_verse.Inventory.{reserve_sellable}
use shop_verse.Gate.{Gates, try_reserve_gate, init_reserve_gate}
use shop_verse.Reservation.Tables.{
  Cart, CartItem, CartReservation, CartReservationItem, CartReservationStatus, Db, FlashSaleItem,
  active, expired, consumed, effective_price,
}
use shop_verse.Reservation.Release.{quantity_of, release_gates, enforce_concurrent_cap}

abbrev pub reservation_ttl_ms : ℕ
reservation_ttl_ms = 15 * 60 * 1000

abbrev pub flash_reservation_ttl_ms : ℕ
flash_reservation_ttl_ms = 5 * 60 * 1000

abbrev pub is_running : ℕ → FlashSaleItem → Bool
is_running now f = leb f.starts_at now && leb now f.ends_at

abbrev is_held_status : CartReservationStatus → Bool
is_held_status expired = false
is_held_status _ = true

-- The quantity of the variant in the user's ACTIVE and CONSUMED reservations.
abbrev pub used_quantity : ℕ → ℕ → List CartReservation → ℕ
used_quantity user v =
    sum_by λ r.
      if user == r.user_id && is_held_status r.status then sum_by (quantity_of v) r.items else 0

abbrev exceeds_cap : ℕ → Db → CartItem → Option FlashSaleItem → Bool
exceeds_cap user s it none = false
exceeds_cap user s it (some f) =
    ltb 0 f.per_user_max_qty
    && ltb f.per_user_max_qty (used_quantity user it.variant_id s.reservations + it.quantity)

-- The loop over the items that enforces `perUserMaxQty`.
unfoldable pub exceeds_flash_cap : ℕ → ℕ → Db → List CartItem → Bool
exceeds_flash_cap user now s =
    any λ it. exceeds_cap user s it (find_first (is_running now) it.flash_sale_items)

unfoldable pub is_flash_cart : ℕ → List CartItem → Bool
is_flash_cart now = any λ it. any (is_running now) it.flash_sale_items

-- What the gates answer for an item: go on with a token taken, go on without, or reject.
pub data GateAnswer : Type 0 where
  taken open_ shut : GateAnswer

abbrev pub sellable_in : ℕ → ℕ → Stock → ℕ
sellable_in wh v s = elim (find_first (is_row wh v) s.inventory) [
  | none ↦ 0
  | some r ↦ r.stock - r.reserved
]

abbrev second_answer : Option Bool → GateAnswer
second_answer none = open_
second_answer (some true) = taken
second_answer (some false) = shut

-- The gate is asked, filled from the database if it is not there, and asked once more.
unfoldable pub ask_gate : ℕ → ℕ → ℕ → Stock → Gates → GateAnswer × Gates
ask_gate wh v qty s g =
    let (first, g₁) = try_reserve_gate wh v qty g in
    elim first [
      | some true ↦ (taken, g₁)
      | some false ↦ (shut, g₁)
      | none ↦
          let (retry, g₂) =
            try_reserve_gate wh v qty (init_reserve_gate wh v (sellable_in wh v s) g₁) in
          (second_answer retry, g₂)
    ]

abbrev pub locked_item : ℕ → CartItem → CartReservationItem
locked_item wh it = record {
  variant_id = it.variant_id;
  warehouse_id = wh;
  quantity = it.quantity;
  locked_price = effective_price it.base_price it.discount_pct;
  locked_mrp = it.base_price * 100;
}

abbrev is_bad_request : Error → Bool
is_bad_request bad_request = true
is_bad_request _ = false

-- An item's pass through the loop ends with the tables or an error, the items whose tokens this
-- attempt has taken, and the gates.
abbrev pub Pass : Type 0
Pass = Result Stock × List CartReservationItem × Gates

-- The UPDATEs of an item. Where there is too little stock the tokens of the attempt are given back.
unfoldable pub reserve_line : CartReservationItem → List CartReservationItem → Stock → Gates → Pass
reserve_line it tokens s g = elim (reserve_sellable it.warehouse_id it.variant_id it.quantity s) [
  | ok (u, t) ↦ (ok t, tokens, g)
  | err e ↦ (err e, tokens, if is_bad_request e then release_gates tokens g else g)
]

abbrev pub on_answer :
    GateAnswer → CartReservationItem → List CartReservationItem → Stock → Gates → Pass
on_answer taken it tokens s g = reserve_line it (tokens ++ (it ∷ [])) s g
on_answer open_ it tokens s g = reserve_line it tokens s g
on_answer shut it tokens s g = (err bad_request, tokens, g)

unfoldable pub pass_line :
    Bool → CartReservationItem → List CartReservationItem → Stock → Gates → Pass
pass_line flash it tokens s g = elim (ensure_row it.warehouse_id it.variant_id s) [
  | err e ↦ (err e, tokens, g)
  | ok (u, t) ↦
      let (answer, g') = ask_gate it.warehouse_id it.variant_id it.quantity t g in
      if flash then on_answer answer it tokens t g' else reserve_line it tokens t g
]

unfoldable pub pass_lines :
    Bool → List CartReservationItem → List CartReservationItem → Stock → Gates → Pass
pass_lines flash [] tokens s g = (ok s, tokens, g)
pass_lines flash (it ∷ its) tokens s g =
    let (end, tokens', g') = pass_line flash it tokens s g in
    elim end [ err e ↦ (err e, tokens', g') | ok t ↦ pass_lines flash its tokens' t g' ]

pub record CreatedReservation : Type 0 where
  pub reservation_id : ℕ
  pub expires_at : ℕ
  pub items : List CartReservationItem
  pub subtotal : ℕ

abbrev pub line_total : CartReservationItem → ℕ
line_total it = it.locked_price * it.quantity

abbrev pub expiry : Bool → ℕ → ℕ
expiry flash now = now + (if flash then flash_reservation_ttl_ms else reservation_ttl_ms)

abbrev pub new_reservation : Bool → ℕ → Cart → ℕ → List CartReservationItem → CartReservation
new_reservation flash now cart id lines = record {
  id = id;
  cart_id = cart.id;
  user_id = cart.user_id;
  status = active;
  expires_at = expiry flash now;
  is_flash = flash;
  created_at = now;
  items = lines;
}

abbrev pub describe : CartReservation → CreatedReservation
describe r = record {
  reservation_id = r.id;
  expires_at = r.expires_at;
  items = r.items;
  subtotal = sum_by line_total r.items;
}

abbrev pub with_reservation : CartReservation → Stock → Db → Db
with_reservation r t s = record s {
  stock = t;
  reservations = s.reservations ++ (r ∷ []);
  next_id = s.next_id + 1;
}

abbrev pub committed : CartReservation → Db → Pass → Result CreatedReservation × (Db × Gates)
committed r s (err e, tokens, g) = (err e, (s, g))
committed r s (ok t, tokens, g) = (ok (describe r), (with_reservation r t s, g))

-- The `$transaction`: on an error the tables are as they were, the gates are not.
unfoldable pub insert_reservation : Cart → ℕ → Db × Gates → Result CreatedReservation × (Db × Gates)
unfolding is_flash_cart
insert_reservation cart now (s, g) = elim (get_default_warehouse_id s.stock) [
  | err e ↦ (err e, (s, g))
  | ok (wh, t) ↦
      let flash = is_flash_cart now cart.items in
      let r = new_reservation flash now cart s.next_id (map (locked_item wh) cart.items) in
      committed r s (pass_lines flash r.items [] t g)
]

abbrev hook_answer : Option (Cart → Bool) → Cart → Db → Result Bool
hook_answer none cart s = ok false
hook_answer (some rejects) cart s =
    if length cart.items == 0
    then ok true
    else elim (get_default_warehouse_id s.stock) [ err e ↦ err e | ok (wh, t) ↦ ok (rejects cart) ]

-- `createReservation`. `rejects` is what the plugins' `cart.beforeReserve` handlers say of the
-- cart, `none` where no plugin has one; their context needs the DEFAULT warehouse.
unfoldable pub create_reservation :
    Option (Cart → Bool) → List Cart → ℕ → ℕ → Db × Gates → Result CreatedReservation × (Db × Gates)
unfolding exceeds_flash_cap insert_reservation
create_reservation rejects carts user now (s, g) =
    elim (find_first (λ c. user == c.user_id) carts) [
      | none ↦ (err bad_request, (s, g))
      | some cart ↦ elim (hook_answer rejects cart s) [
        | err e ↦ (err e, (s, g))
        | ok rejected ↦
            let (s', g') = enforce_concurrent_cap user now (s, g) in
            if length cart.items == 0 || rejected
            then (err bad_request, (s, g))
            else if exceeds_flash_cap user now s' cart.items
            then (err bad_request, (s', g'))
            else insert_reservation cart now (s', g')
      ]
    ]
