-- ===== src/Gate.antt =====
-- The reserve gates of backend/src/common/redis.service.ts: token counters that cap the rush on a
-- flash-sale variant before the database is asked. `none` is a service that is not enabled or does
-- not answer; expiry of a key is its absence. A counter never goes below zero: the script takes
-- tokens only where there are enough.
use shop_verse.Base.{
  ℕ, ◌+◌, ◌-◌, Bool, true, false, ◌&&◌, Option, none, some, List, ◌∷◌, find_first, replace_first,
  ltb, ◌==◌, if◌then◌else◌,
}

pub record Gate : Type 0 where
  pub warehouse_id : ℕ
  pub variant_id : ℕ
  pub tokens : ℕ

abbrev pub Gates : Type 0
Gates = Option (List Gate)

-- The key `reserve:gate:wh:<whId>:var:<variantId>`.
abbrev pub is_gate : ℕ → ℕ → Gate → Bool
is_gate wh v g = wh == g.warehouse_id && v == g.variant_id

-- `none` is null (no key, or no Redis), `some false` a definite reject.
abbrev pub try_key : ℕ → ℕ → ℕ → List Gate → Option Bool × List Gate
try_key wh v qty gs = elim (find_first (is_gate wh v) gs) [
  | none ↦ (none, gs)
  | some g ↦
      if ltb g.tokens qty
      then (some false, gs)
      else (some true, replace_first (is_gate wh v) (record g { tokens = g.tokens - qty }) gs)
]

unfoldable pub try_reserve_gate : ℕ → ℕ → ℕ → Gates → Option Bool × Gates
try_reserve_gate wh v qty none = (none, none)
try_reserve_gate wh v qty (some gs) = let (answer, gs') = try_key wh v qty gs in (answer, some gs')

-- INCRBY if the key exists.
unfoldable pub release_reserve_gate : ℕ → ℕ → ℕ → Gates → Gates
release_reserve_gate wh v qty none = none
release_reserve_gate wh v qty (some gs) = elim (find_first (is_gate wh v) gs) [
  | none ↦ some gs
  | some g ↦ some (replace_first (is_gate wh v) (record g { tokens = g.tokens + qty }) gs)
]

-- SET NX.
unfoldable pub init_reserve_gate : ℕ → ℕ → ℕ → Gates → Gates
init_reserve_gate wh v tokens none = none
init_reserve_gate wh v tokens (some gs) = elim (find_first (is_gate wh v) gs) [
  | some g ↦ some gs
  | none ↦ some (record { warehouse_id = wh; variant_id = v; tokens = tokens } ∷ gs)
]
