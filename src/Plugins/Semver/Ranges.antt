-- ===== src/Plugins/Semver/Ranges.antt =====
-- The ranges of packages/sdk/src/runtime/semver.ts as intervals of versions.
use shop_verse.Base.{
  ℕ, ◌+◌, ◌<◌, ◌≡◌, ◌⊎◌, ◌↔◌, true, false, none, some, [], ◌∷◌, ltb, if◌then◌else◌, arith, inl, inr,
  Bool-cases, Text,
}
use shop_verse.Plugins.Semver.{
  SemverParts, compare_parts, is_negative, in_caret, in_tilde, is_exact, in_range, satisfies,
  parse_semver, trim, is_digit, read_number,
}

-- The order of the triples, without the tags.
abbrev pub Precedes : SemverParts → SemverParts → Type 0
Precedes a b =
    (a.major < b.major)
    ⊎ ((a.major ≡ b.major) × ((a.minor < b.minor) ⊎ ((a.minor ≡ b.minor) × (a.patch < b.patch))))

abbrev pub IsSameTriple : SemverParts → SemverParts → Type 0
IsSameTriple a b = (a.major ≡ b.major) × (a.minor ≡ b.minor) × (a.patch ≡ b.patch)

abbrev pub triple : (major minor patch : ℕ) → SemverParts
triple x y z = record { major = x; minor = y; patch = z; prerelease = none }

-- The first version after those that a caret admits, and after those that a tilde admits.
abbrev pub caret_end : SemverParts → SemverParts
caret_end b =
    if ltb 0 b.major
    then triple (b.major + 1) 0 0
    else if ltb 0 b.minor
    then triple 0 (b.minor + 1) 0
    else triple 0 0 (b.patch + 1)

abbrev pub tilde_end : SemverParts → SemverParts
tilde_end b = triple b.major (b.minor + 1) 0

is_negative_iff : (a b : SemverParts) → (is_negative (compare_parts a b) ≡ true) ↔ Precedes a b
unfolding compare_parts
is_negative_iff a b = ground arith

is_exact_iff : (a b : SemverParts) → (is_exact a b ≡ true) ↔ IsSameTriple a b
unfolding is_exact compare_parts
is_exact_iff a b = ground arith

in_tilde_iff :
    (v b : SemverParts) → (in_tilde v b ≡ true) ↔ (¬ Precedes v b × Precedes v (tilde_end b))
unfolding in_tilde
in_tilde_iff v b = ground (arith, is_negative_iff v b)

in_caret_iff :
    (v b : SemverParts) → (in_caret v b ≡ true) ↔ (¬ Precedes v b × Precedes v (caret_end b))
unfolding in_caret
in_caret_iff v b = elim (Bool-cases (ltb 0 b.major)) [
  | inl some_major ↦ ground (arith, is_negative_iff v b)
  | inr no_major ↦ elim (Bool-cases (ltb 0 b.minor)) [
    | inl some_minor ↦ ground (arith, is_negative_iff v b)
    | inr no_minor ↦ ground (arith, is_negative_iff v b)
  ]
]

-- A text that does not begin with a digit is no version.
parse_semver-other : (c : ℕ) (cs : Text) → is_digit c ≡ false → parse_semver (c ∷ cs) ≡ none
unfolding parse_semver read_number
parse_semver-other c cs h = ground arith

in_range-exact :
    (v b : SemverParts) (text : Text) → parse_semver text ≡ some b → in_range v text ≡ is_exact v b
in_range-exact v b [] e = ground arith
in_range-exact v b (c ∷ cs) e = elim (Bool-cases (is_digit c)) [
  | inl digit ↦ ground arith
  | inr other ↦ ground (arith, parse_semver-other c cs other)
]

-- A version that can be read, against a range that is a base with a caret, with a tilde or alone,
-- white space around it left out. It satisfies the caret exactly if it is not before the base and
-- before the next version whose leftmost number that is not 0 is higher, the tilde exactly if it is
-- not before the base and before the next minor version, and a base alone exactly if the three
-- numbers are the same.
pub satisfies_iff :
    (version range text : Text) (v b : SemverParts)
    → parse_semver version ≡ some v
    → parse_semver text ≡ some b
    → (trim range ≡ b'^' ∷ text
        → (satisfies version range ≡ true) ↔ (¬ Precedes v b × Precedes v (caret_end b)))
      × (trim range ≡ b'~' ∷ text
          → (satisfies version range ≡ true) ↔ (¬ Precedes v b × Precedes v (tilde_end b)))
      × (trim range ≡ text → (satisfies version range ≡ true) ↔ IsSameTriple v b)
unfolding satisfies
satisfies_iff version range text v b ev eb = (
  λ er. ground (arith, ev, eb, er, in_caret_iff v b),
  λ er. ground (arith, ev, eb, er, in_tilde_iff v b),
  λ er. ground (arith, ev, eb, er, in_range-exact v b text eb, is_exact_iff v b),
)
