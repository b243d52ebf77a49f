-- ===== src/Plugins/Scopes.antt =====
-- packages/sdk/src/runtime/scope-checker.ts. A scope is a text, `<resource>:<action>`.
use shop_verse.Base.{
  ◌≡◌, refl, Bool, false, ◌&&◌, ◌||◌, Option, none, some, List, [], ◌∷◌, any, filter_where, ◌==◌,
  if◌then◌else◌, inl, inr, Bool-cases, Text, codes, is_same_text, Tx, ok, err, forbidden,
}

abbrev pub forbidden_plugin_scopes : List Text
forbidden_plugin_scopes =
    codes "*"
    ∷ codes "admin:*"
    ∷ codes "admin:write"
    ∷ codes "wallet:write"
    ∷ codes "payments:write"
    ∷ []

-- `split(':')`: what comes before the first colon, and what comes after it, if there is one.
abbrev pub before_colon : Text → Text
before_colon [] = []
before_colon (c ∷ cs) = if c == b':' then [] else c ∷ before_colon cs

abbrev pub after_colon : Text → Option Text
after_colon [] = none
after_colon (c ∷ cs) = let rest = after_colon cs in if c == b':' then some cs else rest

abbrev pub upto_colon : Option Text → Option Text
upto_colon none = none
upto_colon (some t) = some (before_colon t)

-- The first two parts.
abbrev pub resource : Text → Text
resource = before_colon

abbrev pub action : Text → Option Text
action s = upto_colon (after_colon s)

abbrev pub is_action : Text → Option Text → Bool
is_action t none = false
is_action t (some a) = is_same_text t a

unfoldable pub covers_scope : (granted required : Text) → Bool
covers_scope granted required =
    is_same_text granted required
    || is_same_text granted (codes "*")
    || (is_same_text (resource granted) (resource required)
        && (is_action (codes "*") (action granted)
            || (is_action (codes "write") (action granted)
                && is_action (codes "read") (action required))))

unfoldable pub has_scope : (required : Text) → List Text → Bool
has_scope required granted = any (λ g. covers_scope g required) granted

unfoldable pub assert_scope : {S : Type 0} → (required : Text) → List Text → Tx S (Unit {0})
assert_scope required [] s = err forbidden
assert_scope required (g ∷ gs) s =
    let rest = assert_scope required gs s in if covers_scope g required then ok (tt, s) else rest

unfoldable pub find_forbidden_scopes : List Text → List Text
find_forbidden_scopes declared =
    filter_where (λ s. any (λ f. is_same_text f s) forbidden_plugin_scopes) declared

-- The check throws exactly where the test answers no.
pub assert_scope_lem :
    {S : Type 0} (required : Text) (granted : List Text) (s : S)
    → assert_scope required granted s
      ≡ (if has_scope required granted then ok (tt, s) else err forbidden)
unfolding assert_scope has_scope
assert_scope_lem required [] s = refl
assert_scope_lem required (g ∷ gs) s = elim (Bool-cases (covers_scope g required)) [
  | inl yes_scope ↦ rw yes_scope refl
  | inr no_scope ↦ rw no_scope (assert_scope_lem required gs s)
]
