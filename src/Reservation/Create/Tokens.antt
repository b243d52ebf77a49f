-- ===== src/Reservation/Create/Tokens.antt =====
-- What a rejected attempt of `createReservation` leaves in the gates.
use shop_verse.Base.{
  ℕ, ◌-◌, ◌≤◌, ◌<◌, ◌≡◌, refl, true, false, ◌&&◌, some, List, [], ◌∷◌, ◌++◌, find_first,
  replace_first, find_first-test, find_first-replace_first_self, replace_first-replace_first, arith,
  ok, err, bad_request, ◌==◌,
}
use shop_verse.Stock.{Stock, ensure_row}
use shop_verse.Inventory.{reserve_sellable}
use shop_verse.Gate.{Gate, is_gate, try_reserve_gate, release_reserve_gate}
use shop_verse.Reservation.Tables.{CartReservationItem}
use shop_verse.Reservation.Release.{release_gates}
use shop_verse.Reservation.Create.{ask_gate, reserve_line, pass_line, pass_lines}

find_gate-replace_first_ne :
    (a u wh v : ℕ) (y : Gate) (gs : List Gate)
    → is_gate wh v y ≡ true
    → (a == wh && u == v) ≡ false
    → find_first (is_gate a u) (replace_first (is_gate wh v) y gs) ≡ find_first (is_gate a u) gs
find_gate-replace_first_ne a u wh v y [] t n = refl
find_gate-replace_first_ne a u wh v y (x ∷ xs) t n =
    ground (arith, find_gate-replace_first_ne a u wh v y xs t n)

abbrev pub with_tokens : CartReservationItem → ℕ → Gate → List Gate → List Gate
with_tokens it n g gs =
    replace_first (is_gate it.warehouse_id it.variant_id) (record g { tokens = n }) gs

-- An item whose gate has too few tokens is refused.
pass_line_shut :
    (it : CartReservationItem) (tokens : List CartReservationItem) (s t : Stock) (gs : List Gate)
    (h : Gate)
    → find_first (is_gate it.warehouse_id it.variant_id) gs ≡ some h
    → h.tokens < it.quantity
    → ensure_row it.warehouse_id it.variant_id s ≡ ok (tt, t)
    → pass_line true it tokens s (some gs) ≡ (err bad_request, tokens, some gs)
unfolding pass_line ask_gate try_reserve_gate
pass_line_shut it tokens s t gs h found short there = ground arith

module _ (it : CartReservationItem) (s t : Stock) (gs : List Gate) (g : Gate)
    (found : find_first (is_gate it.warehouse_id it.variant_id) gs ≡ some g)
    (enough : it.quantity ≤ g.tokens)
    (there : ensure_row it.warehouse_id it.variant_id s ≡ ok (tt, t)) where
  -- An item whose gate has tokens for it takes them and goes to the database.
  pass_line_taken :
      (tokens : List CartReservationItem)
      → pass_line true it tokens s (some gs)
        ≡ reserve_line it
            (tokens ++ (it ∷ []))
            t
            (some (with_tokens it (g.tokens - it.quantity) g gs))
  unfolding pass_line ask_gate try_reserve_gate
  pass_line_taken tokens = ground arith

  -- Too little stock in the database: the tokens of the attempt are given back.
  pub refused_by_stock :
      reserve_sellable it.warehouse_id it.variant_id it.quantity t ≡ err bad_request
      → pass_lines true (it ∷ []) [] s (some gs) ≡ (err bad_request, it ∷ [], some gs)
  unfolding pass_lines reserve_line release_gates release_reserve_gate
  refused_by_stock h =
      let y : Gate = record g { tokens = g.tokens - it.quantity } in
      ground (
        arith,
        pass_line_taken [],
        find_first-test (is_gate it.warehouse_id it.variant_id) gs g found,
        find_first-replace_first_self (is_gate it.warehouse_id it.variant_id) y gs g found,
        replace_first-replace_first (is_gate it.warehouse_id it.variant_id) y gs g found,
      )

  module _ (t' t'' : Stock) (second : CartReservationItem) (h : Gate)
      (reserved : reserve_sellable it.warehouse_id it.variant_id it.quantity t ≡ ok (tt, t'))
      (found' : find_first (is_gate second.warehouse_id second.variant_id) gs ≡ some h)
      (apart : (second.warehouse_id == it.warehouse_id && second.variant_id == it.variant_id)
        ≡ false)
      (short : h.tokens < second.quantity)
      (there' : ensure_row second.warehouse_id second.variant_id t' ≡ ok (tt, t'')) where
    pass_line_reserved :
        pass_line true it [] s (some gs)
        ≡ (ok t', it ∷ [], some (with_tokens it (g.tokens - it.quantity) g gs))
    unfolding reserve_line
    pass_line_reserved = ground (arith, pass_line_taken [])

    -- A flash-sale cart of two items whose first item takes its tokens and is reserved, and whose
    -- second item finds too few tokens in its gate: the attempt is a bad request, and the tokens of
    -- the first item are not given back.
    pub refused_by_gate :
        pass_lines true (it ∷ second ∷ []) [] s (some gs)
        ≡ (err bad_request, it ∷ [], some (with_tokens it (g.tokens - it.quantity) g gs))
    unfolding pass_lines
    refused_by_gate =
        let y : Gate = record g { tokens = g.tokens - it.quantity } in
        ground (
          arith,
          pass_line_reserved,
          find_first-test (is_gate it.warehouse_id it.variant_id) gs g found,
          find_gate-replace_first_ne second.warehouse_id second.variant_id it.warehouse_id
              it.variant_id y gs,
          pass_line_shut second (it ∷ []) t' t'' (with_tokens it (g.tokens - it.quantity) g gs) h,
        )
