-- ===== src/Plugins/Tests.antt =====
-- Versions, scopes and strategies.
use shop_verse.Base.{
  ℕ, ◌≡◌, ◌↔◌, refl, true, false, some, List, [], ◌∷◌, map, filter_where, arith, ok, err, conflict,
  codes,
}
use shop_verse.Plugins.Semver.{
  parse_semver, read_number, read_dot, read_tag, trim, satisfies, in_caret, compare_parts,
}
use shop_verse.Plugins.Semver.Ranges.{Precedes, caret_end, triple, satisfies_iff}
use shop_verse.Plugins.Scopes.{covers_scope, find_forbidden_scopes}
use shop_verse.Plugins.Strategies.{
  Strategy, Registry, Registration, payment_gateway, discount, single, chained, register,
  get_single, owner_of, list_chained,
}
use shop_verse.Plugins.Strategies.Registry.{
  IsRegistry, registering, unregistering, call_all, call_all-IsRegistry, registered_single,
}
use shop_verse.Plugins.Strategies.Order.{IsSorted, has_priority, list_chained_lem}

kernel_version : parse_semver (codes "0.2.5") ≡ some (triple 0 2 5)
unfolding parse_semver read_number read_dot read_tag
kernel_version = refl

tagged :
    parse_semver (codes "1.10.0-alpha.1")
    ≡ some (record (triple 1 10 0) { prerelease = some (codes "alpha.1") })
unfolding parse_semver read_number read_dot read_tag
tagged = refl

base_version : parse_semver (codes "0.2.3") ≡ some (triple 0 2 3)
unfolding parse_semver read_number read_dot read_tag
base_version = refl

trimmed : trim (codes " ^0.2.3 ") ≡ codes "^0.2.3"
unfolding trim
trimmed = refl

satisfies_iff_example : (satisfies (codes "0.2.5") (codes " ^0.2.3 ") ≡ true) ↔ (
    ¬ Precedes (triple 0 2 5) (triple 0 2 3) × Precedes (triple 0 2 5) (caret_end (triple 0 2 3)))
satisfies_iff_example =
    (satisfies_iff (codes "0.2.5") (codes " ^0.2.3 ") (codes "0.2.3") (triple 0 2 5) (triple 0 2 3)
        kernel_version base_version).0
      trimmed

admitted : satisfies (codes "0.2.5") (codes " ^0.2.3 ") ≡ true
unfolding satisfies parse_semver read_number read_dot read_tag trim in_caret compare_parts
admitted = refl

refused_minor : satisfies (codes "0.3.0") (codes "^0.2.3") ≡ false
unfolding satisfies parse_semver read_number read_dot read_tag trim in_caret compare_parts
refused_minor = refl

-- A scope that a manifest may declare covers one that it may not.
undeclared : find_forbidden_scopes (codes "wallet:*" ∷ []) ≡ []
unfolding find_forbidden_scopes
undeclared = refl

covers : covers_scope (codes "wallet:*") (codes "wallet:write") ≡ true
unfolding covers_scope
covers = refl

abbrev stripe_impl : Strategy
stripe_impl = record { id = 1; mode = single; priority = 0 }

abbrev empty_registry : Registry
empty_registry t = []

empty-IsRegistry : IsRegistry empty_registry
empty-IsRegistry t = record { once = λ p. omega arith; alone = λ s. omega arith; in_mode = tt }

call_all-IsRegistry_run : IsRegistry (
    call_all
      (registering payment_gateway 5 stripe_impl
        ∷ registering payment_gateway 6 stripe_impl
        ∷ unregistering 5
        ∷ [])
      empty_registry)
call_all-IsRegistry_run =
    call_all-IsRegistry
      (registering payment_gateway 5 stripe_impl
        ∷ registering payment_gateway 6 stripe_impl
        ∷ unregistering 5
        ∷ [])
      empty_registry empty-IsRegistry

abbrev with_stripe : Registry
with_stripe = call_all (registering payment_gateway 5 stripe_impl ∷ []) empty_registry

registers : register payment_gateway 5 stripe_impl empty_registry ≡ ok (tt, with_stripe)
unfolding register
registers = refl

registered_single_run :
    (get_single payment_gateway with_stripe ≡ ok (some stripe_impl))
    × (owner_of payment_gateway with_stripe ≡ some 5)
    × (register payment_gateway 6 stripe_impl with_stripe ≡ err conflict)
registered_single_run =
    registered_single payment_gateway 5 6 stripe_impl stripe_impl empty_registry with_stripe refl
      refl refl registers

abbrev ten_first : Strategy
ten_first = record { id = 2; mode = chained; priority = 10 }

abbrev two_discounts : Registry
two_discounts =
    call_all
      (registering discount 5 (record ten_first { priority = 20 })
        ∷ registering discount 6 ten_first
        ∷ [])
      empty_registry

list_chained_lem_run :
    (rs : List Registration) × (list_chained discount two_discounts ≡ ok (map (λ r. r.impl) rs))
    × IsSorted rs
    × ((n : ℕ)
        → filter_where (has_priority n) rs ≡ filter_where (has_priority n) (two_discounts discount))
list_chained_lem_run = list_chained_lem two_discounts
