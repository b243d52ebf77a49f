-- ===== src/Base/Queries.antt =====
-- The clauses of a query, WHERE, ORDER BY and LIMIT, on the rows that they keep.
use Prim.Native.Nat.{ℕ, ◌≤◌, zero, suc}
use mathlib.Core.Path.{◌≡◌, refl}
use mathlib.Core.Logic.{inl, inr}
use mathlib.Core.Bool.{Bool, true, false, ◌||◌}
use mathlib.Core.List.{List, [], ◌∷◌}
use mathlib.Core.Option.{some}
unfoldable use mathlib.Core.List.{}
use native.Mathlib.Omega.{arith}
use shop_verse.Base.Tests.{leb, ◌==◌, if◌then◌else◌, Bool-cases}
use shop_verse.Base.Lists.{length, take, any, All}
use shop_verse.Base.Rows.{filter_where, update_where, find_first, replace_first, count_where}

module _ {ℓ} {A : Type ℓ} where
  pub All-weaken {κ ι} :
      (P : A → Type κ) (Q : A → Type ι) (xs : List A) → ((x : A) → P x → Q x) → All P xs → All Q xs
  All-weaken P Q [] f h = tt
  All-weaken P Q (x ∷ xs) f (h, hs) = (f x h, All-weaken P Q xs f hs)

  pub All-zip {κ ι μ} :
      (P : A → Type κ) (Q : A → Type ι) (R : A → Type μ) (xs : List A)
      → ((x : A) → P x → Q x → R x)
      → All P xs
      → All Q xs
      → All R xs
  All-zip P Q R [] f h k = tt
  All-zip P Q R (x ∷ xs) f (h, hs) (k, ks) = (f x h k, All-zip P Q R xs f hs ks)

  pub All-update_where {κ ι} :
      (P : A → Type κ) (Q : A → Type ι) (p : A → Bool) (f : A → A) (xs : List A)
      → ((x : A) → P x → Q (if p x then f x else x))
      → All P xs
      → All Q (update_where p f xs)
  All-update_where P Q p f [] step h = tt
  All-update_where P Q p f (x ∷ xs) step (h, hs) = (step x h, All-update_where P Q p f xs step hs)

  pub All-filter_where {κ} :
      (P : A → Type κ) (p : A → Bool) (xs : List A)
      → All (λ x. p x ≡ true → P x) xs
      → All P (filter_where p xs)
  All-filter_where P p [] h = tt
  All-filter_where P p (x ∷ xs) (h, hs) = ground (arith, All-filter_where P p xs hs, h)

  pub length-filter_where : (p : A → Bool) (xs : List A) → length (filter_where p xs) ≤ length xs
  length-filter_where p [] = omega arith
  length-filter_where p (x ∷ xs) = ground (arith, length-filter_where p xs)

  pub take-short : (n : ℕ) (xs : List A) → length xs ≤ n → take n xs ≡ xs
  take-short zero [] h = refl
  take-short zero (x ∷ xs) h = ground arith
  take-short (suc n) [] h = refl
  take-short (suc n) (x ∷ xs) h = ground (arith, take-short n xs)

  pub update_where-none :
      (p : A → Bool) (f : A → A) (xs : List A) → any p xs ≡ false → update_where p f xs ≡ xs
  update_where-none p f [] h = refl
  update_where-none p f (x ∷ xs) h = ground (arith, update_where-none p f xs)

  pub length-update_where :
      (p : A → Bool) (f : A → A) (xs : List A) → length (update_where p f xs) ≡ length xs
  length-update_where p f [] = refl
  length-update_where p f (x ∷ xs) = ground (arith, length-update_where p f xs)

  any-filter_where_more :
      (p q : A → Bool) (x : A) (xs : List A)
      → any q (filter_where p xs) ≡ true
      → any q (filter_where p (x ∷ xs)) ≡ true
  any-filter_where_more p q x xs h = elim (Bool-cases (p x)) [
    | inl t ↦ ground arith
    | inr n ↦ ground arith
  ]

  -- A row that the test keeps is found among those that it keeps, by whatever finds itself.
  pub any-filter_where :
      (p : A → Bool) (q : A → A → Bool) (xs : List A)
      → ((x : A) → q x x ≡ true)
      → All (λ x. p x ≡ true → any (q x) (filter_where p xs) ≡ true) xs
  any-filter_where p q [] self = tt
  any-filter_where p q (x ∷ xs) self = (
    λ h. ground (arith, self x),
    All-weaken (λ y. p y ≡ true → any (q y) (filter_where p xs) ≡ true)
        (λ y. p y ≡ true → any (q y) (filter_where p (x ∷ xs)) ≡ true) xs
        (λ y f h. any-filter_where_more p (q y) x xs (f h)) (any-filter_where p q xs self),
  )

  -- ORDER BY: insertion into a list that is sorted by the key.

  -- Whether a row fits says whether some are counted.
  pub any-count_where :
      (p : A → Bool) (xs : List A) → any p xs ≡ (if count_where p xs == 0 then false else true)
  any-count_where p [] = refl
  any-count_where p (x ∷ xs) = ground (arith, any-count_where p xs)

  pub find_first-replace_first_present :
      (p : A → Bool) (y : A) (xs : List A)
      → any p xs ≡ true
      → p y ≡ true
      → find_first p (replace_first p y xs) ≡ some y
  find_first-replace_first_present p y [] h t = ground arith
  find_first-replace_first_present p y (x ∷ xs) h t =
      ground (arith, find_first-replace_first_present p y xs)

module _ {ℓ} {A : Type ℓ} (key : A → ℕ) where
  abbrev pub insert_by : A → List A → List A
  insert_by a [] = a ∷ []
  insert_by a (x ∷ xs) = if leb (key a) (key x) then a ∷ x ∷ xs else x ∷ insert_by a xs

  abbrev pub order_by : List A → List A
  order_by [] = []
  order_by (x ∷ xs) = insert_by x (order_by xs)

  any-insert_by : (p : A → Bool) (a : A) (xs : List A) → any p (insert_by a xs) ≡ (p a || any p xs)
  any-insert_by p a [] = refl
  any-insert_by p a (x ∷ xs) = ground (arith, any-insert_by p a xs)

  pub any-order_by : (p : A → Bool) (xs : List A) → any p (order_by xs) ≡ any p xs
  any-order_by p [] = refl
  any-order_by p (x ∷ xs) = ground (arith, any-insert_by p x (order_by xs), any-order_by p xs)

  length-insert_by : (a : A) (xs : List A) → length (insert_by a xs) ≡ suc (length xs)
  length-insert_by a [] = refl
  length-insert_by a (x ∷ xs) = ground (arith, length-insert_by a xs)

  pub length-order_by : (xs : List A) → length (order_by xs) ≡ length xs
  length-order_by [] = refl
  length-order_by (x ∷ xs) = ground (arith, length-insert_by x (order_by xs), length-order_by xs)

  All-insert_by {κ} :
      (P : A → Type κ) (a : A) (xs : List A) → P a → All P xs → All P (insert_by a xs)
  All-insert_by P a [] h hs = (h, tt)
  All-insert_by P a (x ∷ xs) h (k, ks) = ground (arith, All-insert_by P a xs h ks, h, k, ks)

  pub All-order_by {κ} : (P : A → Type κ) (xs : List A) → All P xs → All P (order_by xs)
  All-order_by P [] h = tt
  All-order_by P (x ∷ xs) (h, hs) = All-insert_by P x (order_by xs) h (All-order_by P xs hs)
