-- ===== src/Reservation/Invariant/Held.antt =====
-- What the ACTIVE reservations hold of a variant in a warehouse.
use shop_verse.Base.{ℕ, ◌≤◌, sum_by, if◌then◌else◌}
use shop_verse.Stock.Consistency.{IsConsistent}
use shop_verse.Stock.Reserved.{reserved_at}
use shop_verse.Reservation.Tables.{CartReservation, Db, is_active, quantity_in}

abbrev pub held_by : ℕ → ℕ → CartReservation → ℕ
held_by wh v r = if is_active r.status then sum_by (quantity_in wh v) r.items else 0

abbrev pub held : ℕ → ℕ → Db → ℕ
held wh v s = sum_by (held_by wh v) s.reservations

-- The stock tables are consistent, and no more is held than is reserved.
pub record IsSound (s : Db) : Type 0 where
  pub consistent : IsConsistent s.stock
  pub backed : (wh v : ℕ) → held wh v s ≤ reserved_at wh v s.stock
