-- ===== src/Plugins/Strategies/Registry.antt =====
-- What holds of the registry of packages/sdk/src/runtime/strategy-registry.ts after any calls.
use shop_verse.Base.{
  ==_self, ap, ◌∙◌, ℕ, ◌+◌, ◌≤◌, ◌≡◌, ◌⊎◌, refl, Bool, true, false, not, some, List, [], ◌∷◌, ◌++◌,
  any, length, filter_where, replace_first, count_where, All, ◌==◌, if◌then◌else◌, arith, Result,
  ok, err, Error, inl, inr, subst, sym, Bool-cases, All-append, All-replace_first, All-filter_where,
  All-weaken, length-filter_where, transact, conflict, bad_request,
}
use shop_verse.Plugins.Strategies.{
  payment_gateway, fraud_signal, discount, shipping_carrier, earn_rule, invoice_format, tax,
  StrategyType, StrategyMode, single, composable, chained, expected_mode, type_code, is_mode,
  Strategy, Registration, Registry, of_plugin, set_list, claim_single, append, register, get_single,
  owner_of, unregister_plugin,
}

-- At most one registration by each plugin, at most one at all of a single strategy, and all in the
-- mode of the type.
pub record IsKept (t : StrategyType) (rs : List Registration) : Type 0 where
  pub once : (p : ℕ) → count_where (of_plugin p) rs ≤ 1
  pub alone : is_mode (expected_mode t) single ≡ true → length rs ≤ 1
  pub in_mode : All (λ r. is_mode r.impl.mode (expected_mode t) ≡ true) rs

abbrev pub IsRegistry : Registry → Type 0
IsRegistry reg = (t : StrategyType) → IsKept t (reg t)

count-replace_first :
    (p : ℕ) (entry : Registration) (rs : List Registration)
    → count_where (of_plugin p) (replace_first (of_plugin entry.plugin_id) entry rs)
      ≤ count_where (of_plugin p) rs
count-replace_first p entry [] = omega arith
count-replace_first p entry (r ∷ rs) = ground (arith, count-replace_first p entry rs)

count-absent :
    (p q : ℕ) (rs : List Registration)
    → any (of_plugin q) rs ≡ false
    → (p == q) ≡ true
    → count_where (of_plugin p) rs ≡ 0
count-absent p q [] h e = refl
count-absent p q (r ∷ rs) h e = ground (arith, count-absent p q rs)

count-last :
    (p : ℕ) (entry : Registration) (rs : List Registration)
    → count_where (of_plugin p) (rs ++ (entry ∷ []))
      ≡ count_where (of_plugin p) rs + (if p == entry.plugin_id then 1 else 0)
count-last p entry [] = ground arith
count-last p entry (r ∷ rs) = ground (arith, count-last p entry rs)

count-filter_where :
    (p : ℕ) (f : Registration → Bool) (rs : List Registration)
    → count_where (of_plugin p) (filter_where f rs) ≤ count_where (of_plugin p) rs
count-filter_where p f [] = omega arith
count-filter_where p f (r ∷ rs) = ground (arith, count-filter_where p f rs)

append-IsKept :
    (t : StrategyType) (entry : Registration) (rs : List Registration)
    → is_mode (expected_mode t) single ≡ false
    → is_mode entry.impl.mode (expected_mode t) ≡ true
    → IsKept t rs
    → IsKept t (append entry rs)
append-IsKept t entry rs many good h = elim (Bool-cases (any (of_plugin entry.plugin_id) rs)) [
  | inl there ↦ rw there (record {
    once = λ p. omega (arith, h.once p, count-replace_first p entry rs);
    alone = λ s. ground (arith, many);
    in_mode =
        All-replace_first (λ r. is_mode r.impl.mode (expected_mode t) ≡ true)
          (of_plugin entry.plugin_id) entry rs h.in_mode good;
  })
  | inr absent ↦ rw absent (record {
    once = λ p.
        ground (arith, h.once p, count-last p entry rs, count-absent p entry.plugin_id rs absent);
    alone = λ s. ground (arith, many);
    in_mode =
        All-append (λ r. is_mode r.impl.mode (expected_mode t) ≡ true) rs (entry ∷ []) h.in_mode
          (good, tt);
  })
]

one-IsKept :
    (t : StrategyType) (entry : Registration)
    → is_mode entry.impl.mode (expected_mode t) ≡ true
    → IsKept t (entry ∷ [])
one-IsKept t entry good = record {
  once = λ p. ground arith;
  alone = λ s. omega arith;
  in_mode = (good, tt);
}

abbrev type_of : ℕ → StrategyType
type_of n =
    if n == 0
    then payment_gateway
    else if n == 1
    then fraud_signal
    else if n == 2
    then discount
    else if n == 3
    then shipping_carrier
    else if n == 4
    then earn_rule
    else if n == 5
    then invoice_format
    else tax

type_of-type_code : (t : StrategyType) → type_of (type_code t) ≡ t
type_of-type_code payment_gateway = refl
type_of-type_code fraud_signal = refl
type_of-type_code discount = refl
type_of-type_code shipping_carrier = refl
type_of-type_code earn_rule = refl
type_of-type_code invoice_format = refl
type_of-type_code tax = refl

same_type : (t u : StrategyType) → (type_code t == type_code u) ≡ true → t ≡ u
same_type t u h =
    let same : type_code t ≡ type_code u = ground arith in
    sym (type_of-type_code t) ∙ ap type_of same ∙ type_of-type_code u

set_list-IsRegistry :
    (t : StrategyType) (rs : List Registration) (reg : Registry)
    → IsRegistry reg
    → IsKept t rs
    → IsRegistry (set_list t rs reg)
set_list-IsRegistry t rs reg h k u = elim (Bool-cases (type_code t == type_code u)) [
  | inl same ↦ rw same (subst (λ x. IsKept x rs) (same_type t u same) k)
  | inr other ↦ rw other (h u)
]

Mode-cases : (m : StrategyMode) → (m ≡ single) ⊎ (m ≡ composable) ⊎ (m ≡ chained)
Mode-cases single = inl refl
Mode-cases composable = inr (inl refl)
Mode-cases chained = inr (inr refl)

claim_single-cases :
    (entry : Registration) (rs : List Registration)
    → (claim_single entry rs ≡ ok (entry ∷ [])) ⊎ (claim_single entry rs ≡ err conflict)
claim_single-cases entry [] = inl refl
claim_single-cases entry (r ∷ rs) = elim (Bool-cases (of_plugin entry.plugin_id r)) [
  | inl own ↦ inl (rw own refl)
  | inr other ↦ inr (rw other refl)
]

err-ok : {A : Type 0} {x : Error} {a : A} → err x ≡ ok a → ⊥
err-ok e = cc

abbrev written : Unit {0} → Registry → Result (Unit {0} × Registry)
written u reg = ok (u, reg)

written-injective : {u v : Unit {0}} {a b : Registry} → written u a ≡ written v b → a ≡ b
written-injective e = cc

-- The answer of a registration: an error, or a list that is kept.
register-cases :
    (t : StrategyType) (plugin : ℕ) (impl : Strategy) (reg : Registry)
    → IsRegistry reg
    → ((e : Error) × (register t plugin impl reg ≡ err e))
      ⊎ ((rs : List Registration) × IsKept t rs
          × (register t plugin impl reg ≡ written tt (set_list t rs reg)))
unfolding register
register-cases t plugin impl reg h =
    let entry : Registration = record { plugin_id = plugin; impl = impl } in
    elim (Bool-cases (is_mode impl.mode (expected_mode t))) [
      | inr wrong ↦ inl (bad_request, rw wrong refl)
      | inl good ↦ elim (Mode-cases (expected_mode t)) [
        | inl s ↦ elim (claim_single-cases entry (reg t)) [
          | inl won ↦ inr (entry ∷ [], one-IsKept t entry good, rw (good, s, won) refl)
          | inr lost ↦ inl (conflict, rw (good, s, lost) refl)
        ]
        | inr (inl c) ↦ inr (
          append entry (reg t),
          append-IsKept t entry (reg t) (ground (arith, c)) good (h t),
          rw (good, c) refl,
        )
        | inr (inr c) ↦ inr (
          append entry (reg t),
          append-IsKept t entry (reg t) (ground (arith, c)) good (h t),
          rw (good, c) refl,
        )
      ]
    ]

unregister_plugin-IsRegistry :
    (plugin : ℕ) (reg : Registry) → IsRegistry reg → IsRegistry (unregister_plugin plugin reg)
unfolding unregister_plugin
unregister_plugin-IsRegistry plugin reg h t =
    let keep : Registration → Bool = λ r. not (of_plugin plugin r) in
    record {
      once = λ p. omega (arith, (h t).once p, count-filter_where p keep (reg t));
      alone = λ s. omega (arith, (h t).alone s, length-filter_where keep (reg t));
      in_mode =
          All-filter_where (λ r. is_mode r.impl.mode (expected_mode t) ≡ true) keep (reg t)
            (All-weaken (λ r. is_mode r.impl.mode (expected_mode t) ≡ true)
              (λ r. keep r ≡ true → is_mode r.impl.mode (expected_mode t) ≡ true) (reg t)
              (λ r m k. m) (h t).in_mode);
    }

-- What plugins do with the registry. A registration that throws leaves it as it is.
pub data Call : Type 0 where
  registering : StrategyType → (plugin : ℕ) → Strategy → Call
  unregistering : (plugin : ℕ) → Call

abbrev pub call : Call → Registry → Registry
call (registering t plugin impl) reg = (transact (register t plugin impl) reg).1
call (unregistering plugin) reg = unregister_plugin plugin reg

abbrev pub call_all : List Call → Registry → Registry
call_all [] reg = reg
call_all (c ∷ cs) reg = call_all cs (call c reg)

call-IsRegistry : (c : Call) (reg : Registry) → IsRegistry reg → IsRegistry (call c reg)
call-IsRegistry (unregistering plugin) reg h = unregister_plugin-IsRegistry plugin reg h
call-IsRegistry (registering t plugin impl) reg h = elim (register-cases t plugin impl reg h) [
  | inl (e, q) ↦ rw (call, q) h
  | inr (rs, k, q) ↦ rw (call, q) (set_list-IsRegistry t rs reg h k)
]

-- Through any sequence of registrations and removals, whichever of them fail, no plugin has two
-- registrations of a type, a single strategy has at most one registration at all, and each is in
-- the mode that the type expects.
pub call_all-IsRegistry :
    (cs : List Call) (reg : Registry) → IsRegistry reg → IsRegistry (call_all cs reg)
call_all-IsRegistry [] reg h = h
call_all-IsRegistry (c ∷ cs) reg h = call_all-IsRegistry cs (call c reg) (call-IsRegistry c reg h)

mode_single : (m : StrategyMode) → is_mode m single ≡ true → m ≡ single
mode_single single h = refl
mode_single composable h = ground arith
mode_single chained h = ground arith

-- What a successful registration of a single strategy leaves of its type.
single_rows :
    (t : StrategyType) (plugin : ℕ) (impl : Strategy) (reg reg' : Registry)
    → expected_mode t ≡ single
    → register t plugin impl reg ≡ written tt reg'
    → reg' t ≡ record { plugin_id = plugin; impl = impl } ∷ []
unfolding register
single_rows t plugin impl reg reg' s e =
    let entry : Registration = record { plugin_id = plugin; impl = impl } in
    elim (Bool-cases (is_mode impl.mode (expected_mode t))) [
      | inr wrong ↦ absurd (err-ok (rw wrong at e))
      | inl good ↦ elim (claim_single-cases entry (reg t)) [
        | inr lost ↦ absurd (err-ok (rw (good, s, lost) at e))
        | inl won ↦
            let same : set_list t (entry ∷ []) reg ≡ reg' =
              written-injective (rw (good, s, won) at e) in
            ap (λ (f : Registry). f t) (sym same) ∙ rw (==_self (type_code t)) refl
      ]
    ]

-- A plugin that has registered a single strategy is its owner: the lookup gives its implementation,
-- and a registration by another plugin is a conflict.
pub registered_single :
    (t : StrategyType) (plugin other : ℕ) (impl rival : Strategy) (reg reg' : Registry)
    → is_mode (expected_mode t) single ≡ true
    → is_mode rival.mode (expected_mode t) ≡ true
    → (other == plugin) ≡ false
    → register t plugin impl reg ≡ written tt reg'
    → (get_single t reg' ≡ ok (some impl))
      × (owner_of t reg' ≡ some plugin)
      × (register t other rival reg' ≡ err conflict)
unfolding register get_single owner_of
registered_single t plugin other impl rival reg reg' s good ne e =
    let rows = single_rows t plugin impl reg reg' (mode_single (expected_mode t) s) e in
    let mode = mode_single (expected_mode t) s in
    (rw (s, rows) refl, rw (owner_of, rows) refl, rw (good, mode, rows, ne) refl)
