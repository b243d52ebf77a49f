-- ===== src/Plugins/Semver.antt =====
-- packages/sdk/src/runtime/semver.ts. A version is a text; its numbers have no upper limit here.
pub mod Ranges
use shop_verse.Base.{
  ℕ, ◌+◌, ◌-◌, ◌*◌, Bool, true, false, not, ◌&&◌, ◌||◌, Option, none, some, List, [], ◌∷◌, ◌++◌,
  all, contains, leb, ltb, ◌==◌, if◌then◌else◌, Text,
}
use Prim.Native.Nat.{compare, Ordering}

pub record SemverParts : Type 0 where
  pub major : ℕ
  pub minor : ℕ
  pub patch : ℕ
  pub prerelease : Option Text

abbrev pub is_digit : ℕ → Bool
is_digit c = leb b'0' c && leb c b'9'

-- `[0-9A-Za-z.-]`.
abbrev pub is_tag : ℕ → Bool
is_tag c =
    is_digit c || (leb b'A' c && leb c b'Z') || (leb b'a' c && leb c b'z') || c == b'.' || c == b'-'

-- The digits that come next, after the number `n`, and what is left of the text.
abbrev pub more_digits : ℕ → Text → ℕ × Text
more_digits n [] = (n, [])
more_digits n (c ∷ cs) =
    let rest = more_digits (10 * n + (c - b'0')) cs in if is_digit c then rest else (n, c ∷ cs)

-- `\d+`.
unfoldable pub read_number : Text → Option (ℕ × Text)
read_number [] = none
read_number (c ∷ cs) = if is_digit c then some (more_digits (c - b'0') cs) else none

unfoldable pub read_dot : Text → Option Text
read_dot [] = none
read_dot (c ∷ cs) = if c == b'.' then some cs else none

-- `(?:-([0-9A-Za-z.-]+))?$`: nothing, or a dash and a tag that is not empty.
unfoldable pub read_tag : Text → Option (Option Text)
read_tag [] = some none
read_tag (c ∷ []) = none
read_tag (c ∷ d ∷ ds) = if c == b'-' && all is_tag (d ∷ ds) then some (some (d ∷ ds)) else none

abbrev pub then_read : {A B : Type 0} → Option A → (A → Option B) → Option B
then_read none f = none
then_read (some a) f = f a

unfoldable pub parse_semver : Text → Option SemverParts
parse_semver t = then_read (read_number t) λ x. then_read (read_dot x.1) λ t1.
    then_read (read_number t1) λ y. then_read (read_dot y.1) λ t2. then_read (read_number t2) λ z.
      then_read (read_tag z.1)
        λ tag. some (record { major = x.0; minor = y.0; patch = z.0; prerelease = tag })

-- Negative, zero or positive; the tag is left out.
unfoldable pub compare_parts : SemverParts → SemverParts → Ordering
compare_parts a b =
    if not (a.major == b.major)
    then compare a.major b.major
    else if not (a.minor == b.minor)
    then compare a.minor b.minor
    else compare a.patch b.patch

abbrev pub is_negative : Ordering → Bool
is_negative Ordering.lt = true
is_negative Ordering.eq = false
is_negative Ordering.gt = false

abbrev pub is_zero : Ordering → Bool
is_zero Ordering.lt = false
is_zero Ordering.eq = true
is_zero Ordering.gt = false

-- The white space of `trim` up to U+FEFF.
abbrev pub white_space : List ℕ
white_space =
    9 ∷ 10 ∷ 11 ∷ 12 ∷ 13 ∷ 32 ∷ 160 ∷ 5760 ∷ 8192 ∷ 8193 ∷ 8194 ∷ 8195 ∷ 8196 ∷ 8197 ∷ 8198 ∷ 8199
    ∷ 8200 ∷ 8201 ∷ 8202 ∷ 8232 ∷ 8233 ∷ 8239 ∷ 8287 ∷ 12288 ∷ 65279 ∷ []

abbrev pub trim_start : Text → Text
trim_start [] = []
trim_start (c ∷ cs) = let rest = trim_start cs in if contains c white_space then rest else c ∷ cs

-- White space goes where nothing else comes after it.
abbrev pub add_trimmed : ℕ → Text → Text
add_trimmed c [] = if contains c white_space then [] else c ∷ []
add_trimmed c (d ∷ ds) = c ∷ d ∷ ds

abbrev pub trim_end : Text → Text
trim_end [] = []
trim_end (c ∷ cs) = add_trimmed c (trim_end cs)

unfoldable pub trim : Text → Text
trim t = trim_end (trim_start t)

unfoldable pub in_caret : SemverParts → SemverParts → Bool
in_caret ver base =
    not (is_negative (compare_parts ver base))
    && (if ltb 0 base.major
        then ver.major == base.major
        else if ltb 0 base.minor
        then ver.major == 0 && ver.minor == base.minor
        else ver.major == 0 && ver.minor == 0 && ver.patch == base.patch)

unfoldable pub in_tilde : SemverParts → SemverParts → Bool
in_tilde ver base =
    not (is_negative (compare_parts ver base)) && ver.major == base.major && ver.minor == base.minor

unfoldable pub is_exact : SemverParts → SemverParts → Bool
is_exact ver base = is_zero (compare_parts ver base)

abbrev pub meets : (SemverParts → Bool) → Option SemverParts → Bool
meets test none = false
meets test (some base) = test base

abbrev pub is_empty : Text → Bool
is_empty [] = true
is_empty (c ∷ cs) = false

abbrev pub in_range : SemverParts → Text → Bool
in_range ver [] = meets (is_exact ver) (parse_semver [])
in_range ver (c ∷ cs) =
    if c == b'*' && is_empty cs
    then true
    else if c == b'^'
    then meets (in_caret ver) (parse_semver cs)
    else if c == b'~'
    then meets (in_tilde ver) (parse_semver cs)
    else meets (is_exact ver) (parse_semver (c ∷ cs))

unfoldable pub satisfies : Text → Text → Bool
satisfies version range = elim (parse_semver version) [
  | none ↦ false
  | some ver ↦ in_range ver (trim range)
]
