-- ===== src/Base/Rows.antt =====
-- Tables as lists of rows. A key that is unique selects at most one row: the first that fits.
use Prim.Native.Nat.{ℕ, ◌+◌, ◌≤◌}
use mathlib.Core.Path.{◌≡◌, subst}
use mathlib.Core.Logic.{inl, inr}
use mathlib.Core.Bool.{Bool, true}
use mathlib.Core.Option.{Option, none, some, some-injective}
use mathlib.Core.List.{List, [], ◌∷◌}
use native.Mathlib.Omega.{arith}
use shop_verse.Base.Tests.{if◌then◌else◌, Bool-cases}
use shop_verse.Base.Lists.{sum_by, All}

none-some {ℓ} : {A : Type ℓ} {r : A} → none ≡ some r → ⊥
none-some e = cc

module _ {ℓ} {A : Type ℓ} where
  abbrev pub find_first : (A → Bool) → List A → Option A
  find_first p [] = none
  find_first p (x ∷ xs) = if p x then some x else find_first p xs

  -- The row that a unique key selects is given anew.
  abbrev pub replace_first : (A → Bool) → A → List A → List A
  replace_first p y [] = []
  replace_first p y (x ∷ xs) = if p x then y ∷ xs else x ∷ replace_first p y xs

  -- Every row that the test selects is given anew.
  abbrev pub update_where : (A → Bool) → (A → A) → List A → List A
  update_where p f [] = []
  update_where p f (x ∷ xs) = (if p x then f x else x) ∷ update_where p f xs

  abbrev pub filter_where : (A → Bool) → List A → List A
  filter_where p [] = []
  filter_where p (x ∷ xs) = let rest = filter_where p xs in if p x then x ∷ rest else rest

  abbrev pub count_where : (A → Bool) → List A → ℕ
  count_where p [] = 0
  count_where p (x ∷ xs) = (if p x then 1 else 0) + count_where p xs

  pub sum_by-replace_first :
      (g : A → ℕ) (p : A → Bool) (y : A) (xs : List A) (r : A)
      → find_first p xs ≡ some r
      → sum_by g (replace_first p y xs) + g r ≡ sum_by g xs + g y
  sum_by-replace_first g p y [] r h = ground arith
  sum_by-replace_first g p y (x ∷ xs) r h = ground (arith, sum_by-replace_first g p y xs r)

  pub All-replace_first {κ} :
      (P : A → Type κ) (p : A → Bool) (y : A) (xs : List A)
      → All P xs
      → P y
      → All P (replace_first p y xs)
  All-replace_first P p y [] h hy = h
  All-replace_first P p y (x ∷ xs) (h, hs) hy = ground (arith, All-replace_first P p y xs hs hy)

  pub All-find_first {κ} :
      (P : A → Type κ) (p : A → Bool) (xs : List A) (r : A)
      → find_first p xs ≡ some r
      → All P xs
      → P r
  All-find_first P p [] r e h = absurd (none-some e)
  All-find_first P p (x ∷ xs) r e (h, hs) = elim (Bool-cases (p x)) [
    | inl t ↦ subst P (some-injective _ _ (rw t at e)) h
    | inr f ↦ All-find_first P p xs r (rw f at e) hs
  ]

  pub find_first-test : (p : A → Bool) (xs : List A) (r : A) → find_first p xs ≡ some r → p r ≡ true
  find_first-test p [] r e = ground arith
  find_first-test p (x ∷ xs) r e = ground (arith, find_first-test p xs r)

  pub sum_by-le : (f g : A → ℕ) (xs : List A) → All (λ x. f x ≤ g x) xs → sum_by f xs ≤ sum_by g xs
  sum_by-le f g [] h = omega arith
  sum_by-le f g (x ∷ xs) (h, hs) = omega (arith, sum_by-le f g xs hs)

  pub le-sum_by :
      (g : A → ℕ) (p : A → Bool) (xs : List A) (r : A)
      → find_first p xs ≡ some r
      → g r ≤ sum_by g xs
  le-sum_by g p [] r h = ground arith
  le-sum_by g p (x ∷ xs) r h = ground (arith, le-sum_by g p xs r)

  pub find_first-replace_first_self :
      (p : A → Bool) (y : A) (xs : List A) (r : A)
      → find_first p xs ≡ some r
      → p y ≡ true
      → find_first p (replace_first p y xs) ≡ some y
  find_first-replace_first_self p y [] r h t = ground arith
  find_first-replace_first_self p y (x ∷ xs) r h t =
      ground (arith, find_first-replace_first_self p y xs r)

  -- To write back the row that was found undoes a write of it.
  pub replace_first-replace_first :
      (p : A → Bool) (y : A) (xs : List A) (r : A)
      → find_first p xs ≡ some r
      → p y ≡ true
      → replace_first p r (replace_first p y xs) ≡ xs
  replace_first-replace_first p y [] r h t = ground arith
  replace_first-replace_first p y (x ∷ xs) r h t =
      ground (arith, replace_first-replace_first p y xs r)

  pub replace_first_same :
      (p : A → Bool) (xs : List A) (r : A) → find_first p xs ≡ some r → replace_first p r xs ≡ xs
  replace_first_same p [] r h = ground arith
  replace_first_same p (x ∷ xs) r h = ground (arith, replace_first_same p xs r)
