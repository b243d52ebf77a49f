-- ===== src/Plugins/Strategies/Order.antt =====
-- The order in which packages/sdk/src/runtime/strategy-registry.ts hands out chained strategies.
use shop_verse.Base.{
  ℕ, ◌≤◌, ◌≡◌, refl, Bool, List, [], ◌∷◌, map, filter_where, order_by, insert_by, All, leb, ◌==◌,
  arith, ok, inl, inr, Bool-cases,
}
use shop_verse.Plugins.Strategies.{Registration, Registry, list_chained, discount}

abbrev pub priority_of : Registration → ℕ
priority_of r = r.impl.priority

-- Each row comes no later than the rows after it.
abbrev pub IsSorted : List Registration → Type 0
IsSorted [] = Unit
IsSorted (r ∷ rs) = All (λ q. priority_of r ≤ priority_of q) rs × IsSorted rs

All-insert :
    (n : ℕ) (a : Registration) (rs : List Registration)
    → n ≤ priority_of a
    → All (λ q. n ≤ priority_of q) rs
    → All (λ q. n ≤ priority_of q) (insert_by priority_of a rs)
All-insert n a [] h hs = (h, tt)
All-insert n a (r ∷ rs) h (k, ks) = elim (Bool-cases (leb (priority_of a) (priority_of r))) [
  | inl before ↦ rw before (h, (k, ks))
  | inr after ↦ rw after (k, All-insert n a rs h ks)
]

All-above :
    (m n : ℕ) (rs : List Registration)
    → m ≤ n
    → All (λ q. n ≤ priority_of q) rs
    → All (λ q. m ≤ priority_of q) rs
All-above m n [] h hs = tt
All-above m n (r ∷ rs) h (k, ks) = (omega (arith, h, k), All-above m n rs h ks)

insert_by-IsSorted :
    (a : Registration) (rs : List Registration)
    → IsSorted rs
    → IsSorted (insert_by priority_of a rs)
insert_by-IsSorted a [] h = (tt, tt)
insert_by-IsSorted a (r ∷ rs) (h, hs) = elim (Bool-cases (leb (priority_of a) (priority_of r))) [
  | inl before ↦
      let low : priority_of a ≤ priority_of r = ground (arith, before) in
      rw before ((low, All-above (priority_of a) (priority_of r) rs low h), (h, hs))
  | inr after ↦
      let low : priority_of r ≤ priority_of a = ground (arith, after) in
      rw after (All-insert (priority_of r) a rs low h, insert_by-IsSorted a rs hs)
]

order_by-IsSorted : (rs : List Registration) → IsSorted (order_by priority_of rs)
order_by-IsSorted [] = tt
order_by-IsSorted (r ∷ rs) = insert_by-IsSorted r (order_by priority_of rs) (order_by-IsSorted rs)

abbrev pub has_priority : ℕ → Registration → Bool
has_priority n r = n == priority_of r

-- To insert a row does not change the order among the rows of one priority, and the row comes
-- first.
insert_by-stable :
    (n : ℕ) (a : Registration) (rs : List Registration)
    → filter_where (has_priority n) (insert_by priority_of a rs)
      ≡ filter_where (has_priority n) (a ∷ rs)
insert_by-stable n a [] = refl
insert_by-stable n a (r ∷ rs) = elim (Bool-cases (leb (priority_of a) (priority_of r))) [
  | inl before ↦ rw before refl
  | inr after ↦ ground (arith, insert_by-stable n a rs)
]

order_by-stable :
    (n : ℕ) (rs : List Registration)
    → filter_where (has_priority n) (order_by priority_of rs) ≡ filter_where (has_priority n) rs
order_by-stable n [] = refl
order_by-stable n (r ∷ rs) =
    ground (arith, insert_by-stable n r (order_by priority_of rs), order_by-stable n rs)

-- The chained strategies come by rising priority, and the registrations of each priority are all
-- there, in the order in which they stand in the registry.
pub list_chained_lem :
    (reg : Registry)
    → (rs : List Registration) × (list_chained discount reg ≡ ok (map (λ r. r.impl) rs))
      × IsSorted rs
      × ((n : ℕ) → filter_where (has_priority n) rs ≡ filter_where (has_priority n) (reg discount))
unfolding list_chained
list_chained_lem reg = (
  order_by priority_of (reg discount),
  refl,
  order_by-IsSorted (reg discount),
  λ n. order_by-stable n (reg discount),
)
