-- ===== src/Plugins/Strategies.antt =====
-- packages/sdk/src/runtime/strategy-registry.ts. A type without registrations has an empty list,
-- which is also what `byType` without the type means to every reader. A priority is not negative
-- here.
pub mod Registry
pub mod Order
use shop_verse.Base.{
  ℕ, Bool, true, false, not, Option, none, some, List, [], ◌∷◌, ◌++◌, any, map, length, find_first,
  filter_where, replace_first, order_by, ◌==◌, if◌then◌else◌, Result, ok, err, Tx, bad_request,
  conflict, fault,
}

pub data StrategyType : Type 0 where
  payment_gateway fraud_signal discount shipping_carrier earn_rule invoice_format tax : StrategyType

pub data StrategyMode : Type 0 where
  single composable chained : StrategyMode

abbrev pub expected_mode : StrategyType → StrategyMode
expected_mode payment_gateway = single
expected_mode fraud_signal = composable
expected_mode discount = chained
expected_mode shipping_carrier = single
expected_mode earn_rule = composable
expected_mode invoice_format = single
expected_mode tax = single

abbrev pub type_code : StrategyType → ℕ
type_code payment_gateway = 0
type_code fraud_signal = 1
type_code discount = 2
type_code shipping_carrier = 3
type_code earn_rule = 4
type_code invoice_format = 5
type_code tax = 6

abbrev pub mode_code : StrategyMode → ℕ
mode_code single = 0
mode_code composable = 1
mode_code chained = 2

abbrev pub is_mode : StrategyMode → StrategyMode → Bool
is_mode a b = mode_code a == mode_code b

-- An implementation with its `meta`; the priority is 0 by default.
pub record Strategy : Type 0 where
  pub id : ℕ
  pub mode : StrategyMode
  pub priority : ℕ

pub record Registration : Type 0 where
  pub plugin_id : ℕ
  pub impl : Strategy

abbrev pub Registry : Type 0
Registry = StrategyType → List Registration

abbrev pub of_plugin : ℕ → Registration → Bool
of_plugin p r = p == r.plugin_id

abbrev pub set_list : StrategyType → List Registration → Registry → Registry
set_list t rs reg u = if type_code t == type_code u then rs else reg u

-- A single strategy: the same plugin replaces, another one is refused.
abbrev pub claim_single : Registration → List Registration → Result (List Registration)
claim_single entry [] = ok (entry ∷ [])
claim_single entry (r ∷ rs) = if of_plugin entry.plugin_id r then ok (entry ∷ []) else err conflict

-- The others: in the place of the plugin's entry if it has one, or else at the end.
abbrev pub append : Registration → List Registration → List Registration
append entry rs =
    if any (of_plugin entry.plugin_id) rs
    then replace_first (of_plugin entry.plugin_id) entry rs
    else rs ++ (entry ∷ [])

abbrev pub store : StrategyType → Result (List Registration) → Tx Registry (Unit {0})
store t (ok rs) reg = ok (tt, set_list t rs reg)
store t (err e) reg = err e

unfoldable pub register : StrategyType → (plugin : ℕ) → Strategy → Tx Registry (Unit {0})
register t plugin impl reg =
    let entry : Registration = record { plugin_id = plugin; impl = impl } in
    if not (is_mode impl.mode (expected_mode t)) then err bad_request else elim (expected_mode t) [
      | single ↦ store t (claim_single entry (reg t)) reg
      | composable ↦ ok (tt, set_list t (append entry (reg t)) reg)
      | chained ↦ ok (tt, set_list t (append entry (reg t)) reg)
    ]

abbrev pub first : List Registration → Option Registration
first [] = none
first (r ∷ rs) = some r

abbrev pub impl_of : Option Registration → Option Strategy
impl_of none = none
impl_of (some r) = some r.impl

-- A lookup by the wrong mode throws.
unfoldable pub get_single : StrategyType → Registry → Result (Option Strategy)
get_single t reg =
    if is_mode (expected_mode t) single then ok (impl_of (first (reg t))) else err fault

unfoldable pub list_composable : StrategyType → Registry → Result (List Strategy)
list_composable t reg =
    if is_mode (expected_mode t) composable then ok (map (λ r. r.impl) (reg t)) else err fault

-- `sort` is stable.
unfoldable pub list_chained : StrategyType → Registry → Result (List Strategy)
list_chained t reg =
    if is_mode (expected_mode t) chained
    then ok (map (λ r. r.impl) (order_by (λ r. r.impl.priority) (reg t)))
    else err fault

unfoldable pub owner_of : StrategyType → Registry → Option ℕ
owner_of t reg = elim (first (reg t)) [ none ↦ none | some r ↦ some r.plugin_id ]

unfoldable pub count : StrategyType → Registry → ℕ
count t reg = length (reg t)

unfoldable pub unregister_plugin : (plugin : ℕ) → Registry → Registry
unregister_plugin plugin reg t = filter_where (λ r. not (of_plugin plugin r)) (reg t)
