-- ===== src/Fraud/Blocks.antt =====
-- The blacklist of backend/src/fraud/fraud.service.ts is a set of values of each type.
use shop_verse.Base.{
  ℕ, ◌≡◌, refl, Bool, true, false, ◌&&◌, ◌||◌, not, List, [], ◌∷◌, any, replace_first, update_where,
  ◌==◌, arith, inl, inr, Bool-cases,
}
use shop_verse.Fraud.{
  Watch, Blacklist, BlacklistType, list_code, is_listed, is_blacklisted, add_to_blacklist,
  remove_from_blacklist,
}

abbrev pub is_same : BlacklistType → ℕ → BlacklistType → ℕ → Bool
is_same t v u x = list_code t == list_code u && v == x

abbrev is_hit : BlacklistType → ℕ → Blacklist → Bool
is_hit t v b = is_listed t v b && b.is_active

abbrev entry : BlacklistType → ℕ → Blacklist
entry t v = record { type = t; value = v; is_active = true }

-- A row that a key selects has the key.
same_key : (a b c d p q : ℕ) → (a == c && b == d) ≡ true → (p == c && q == d) ≡ (p == a && q == b)
same_key a b c d p q h = ground (arith, h)

covered :
    (same listed active rest : Bool)
    → listed ≡ same
    → (same && true || rest) ≡ (same || (listed && active || rest))
covered same listed active rest e = ground (arith, e)

swapped : (hit same new rest : Bool) → new ≡ (same || rest) → (hit || new) ≡ (same || (hit || rest))
swapped hit same new rest e = ground (arith, e)

hit-replaced :
    (t u : BlacklistType) (v x : ℕ) (bs : List Blacklist)
    → any (is_listed u x) bs ≡ true
    → any (is_hit t v) (replace_first (is_listed u x) (entry u x) bs)
      ≡ (is_same t v u x || any (is_hit t v) bs)
hit-replaced t u v x [] h = ground arith
hit-replaced t u v x (b ∷ bs) h = elim (Bool-cases (is_listed u x b)) [
  | inl here ↦ rw here (
      covered (is_same t v u x) (is_listed t v b) b.is_active (any (is_hit t v) bs)
        (same_key (list_code u) x (list_code b.type) b.value (list_code t) v here))
  | inr there ↦
      let rest = hit-replaced t u v x bs (rw there at h) in
      rw there (
        swapped (is_hit t v b) (is_same t v u x)
          (any (is_hit t v) (replace_first (is_listed u x) (entry u x) bs)) (any (is_hit t v) bs)
          rest)
]

hit-updated :
    (t u : BlacklistType) (v x : ℕ) (bs : List Blacklist)
    → any (is_hit t v) (update_where (is_listed u x) (λ b. record b { is_active = false }) bs)
      ≡ (not (is_same t v u x) && any (is_hit t v) bs)
hit-updated t u v x [] = ground arith
hit-updated t u v x (b ∷ bs) = ground (arith, hit-updated t u v x bs)

is_blacklisted-add :
    (t u : BlacklistType) (v x : ℕ) (w : Watch)
    → is_blacklisted t v (add_to_blacklist u x w) ≡ (is_same t v u x || is_blacklisted t v w)
unfolding is_blacklisted add_to_blacklist
is_blacklisted-add t u v x w = ground (arith, hit-replaced t u v x w.blacklist)

is_blacklisted-remove :
    (t u : BlacklistType) (v x : ℕ) (w : Watch)
    → is_blacklisted t v (remove_from_blacklist u x w)
      ≡ (not (is_same t v u x) && is_blacklisted t v w)
unfolding is_blacklisted remove_from_blacklist
is_blacklisted-remove t u v x w = hit-updated t u v x w.blacklist

-- What an administrator does to the list.
pub data Edit : Type 0 where
  adding removing : BlacklistType → (value : ℕ) → Edit

abbrev pub edit : Edit → Watch → Watch
edit (adding t v) w = add_to_blacklist t v w
edit (removing t v) w = remove_from_blacklist t v w

abbrev pub edit_all : List Edit → Watch → Watch
edit_all [] w = w
edit_all (e ∷ es) w = edit_all es (edit e w)

-- A set of values of each type, and the edits on it.
abbrev pub Blocks : Type 0
Blocks = BlacklistType → ℕ → Bool

abbrev pub edited : Edit → Blocks → Blocks
edited (adding u x) s t v = is_same t v u x || s t v
edited (removing u x) s t v = not (is_same t v u x) && s t v

abbrev pub edited_all : List Edit → Blocks → Blocks
edited_all [] s = s
edited_all (e ∷ es) s = edited_all es (edited e s)

edit_lem :
    (e : Edit) (w : Watch) (s : Blocks)
    → ((t : BlacklistType) (v : ℕ) → is_blacklisted t v w ≡ s t v)
    → (t : BlacklistType) (v : ℕ) → is_blacklisted t v (edit e w) ≡ edited e s t v
edit_lem (adding u x) w s h t v = rw (is_blacklisted-add t u v x w) (rw (h t v) refl)
edit_lem (removing u x) w s h t v = rw (is_blacklisted-remove t u v x w) (rw (h t v) refl)

-- The table with its active and inactive rows is a set of values of each type: through any sequence
-- of additions and removals, a value is on the list exactly if it is in the set that the same
-- additions and removals make of the values that were on the list.
pub edit_all-refines :
    (es : List Edit) (w : Watch) (s : Blocks)
    → ((t : BlacklistType) (v : ℕ) → is_blacklisted t v w ≡ s t v)
    → (t : BlacklistType) (v : ℕ) → is_blacklisted t v (edit_all es w) ≡ edited_all es s t v
edit_all-refines [] w s h t v = h t v
edit_all-refines (e ∷ es) w s h t v =
    edit_all-refines es (edit e w) (edited e s) (edit_lem e w s h) t v
