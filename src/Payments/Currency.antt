-- ===== src/Payments/Currency.antt =====
-- backend/src/payments/payments.service.ts: amounts in the minor units of a currency.
use shop_verse.Base.{
  Text, codes, is_same_text, ℕ, ◌+◌, ◌*◌, ◌/◌, ◌≤◌, ◌<◌, Bool, ◌&&◌, List, [], ◌∷◌, map, any, leb,
  if◌then◌else◌, arith, inl, inr, Bool-cases,
}

-- `toLowerCase` on the letters of ASCII, which are those of the codes of ISO 4217.
unfoldable pub to_lower : Text → Text
to_lower = map λ c. if leb b'A' c && leb c b'Z' then c + 32 else c

abbrev pub zero_decimal_currencies : List Text
zero_decimal_currencies =
    codes "bif"
    ∷ codes "clp"
    ∷ codes "djf"
    ∷ codes "gnf"
    ∷ codes "jpy"
    ∷ codes "kmf"
    ∷ codes "krw"
    ∷ codes "mga"
    ∷ codes "pyg"
    ∷ codes "rwf"
    ∷ codes "ugx"
    ∷ codes "vnd"
    ∷ codes "vuv"
    ∷ codes "xaf"
    ∷ codes "xof"
    ∷ codes "xpf"
    ∷ []

abbrev pub three_decimal_currencies : List Text
three_decimal_currencies = codes "bhd" ∷ codes "jod" ∷ codes "kwd" ∷ codes "omr" ∷ codes "tnd" ∷ []

unfoldable pub is_zero_decimal : Text → Bool
is_zero_decimal cur = any (is_same_text cur) zero_decimal_currencies

unfoldable pub is_three_decimal : Text → Bool
is_three_decimal cur = any (is_same_text cur) three_decimal_currencies

-- `Math.round` of an amount in millionths, in units of so many millionths; a tie goes up.
abbrev pub round_units : (unit amount : ℕ) → ℕ
round_units unit amount = (2 * amount + unit) / (2 * unit)

unfoldable pub to_minor_units : (amount : ℕ) → Text → ℕ
to_minor_units amount cur =
    if is_zero_decimal cur
    then round_units 1000000 amount
    else if is_three_decimal cur
    then round_units 1000 amount
    else round_units 10000 amount

-- The minor unit of a currency in millionths.
abbrev pub minor_unit : Text → ℕ
minor_unit cur =
    if is_zero_decimal cur then 1000000 else if is_three_decimal cur then 1000 else 10000

-- What the gateway is asked for is the amount, to the nearest minor unit of the currency.
pub to_minor_units_nearest :
    (amount : ℕ) (cur : Text)
    → (2 * (to_minor_units amount cur * minor_unit cur) ≤ 2 * amount + minor_unit cur)
      × (2 * amount < 2 * (to_minor_units amount cur * minor_unit cur) + minor_unit cur)
unfolding to_minor_units
to_minor_units_nearest amount cur = elim (Bool-cases (is_zero_decimal cur)) [
  | inl zero ↦ rw zero (omega arith)
  | inr more ↦ elim (Bool-cases (is_three_decimal cur)) [
    | inl three ↦ rw (more, three) (omega arith)
    | inr two ↦ rw (more, two) (omega arith)
  ]
]
