-- ===== src/Migration/Table.antt =====
-- packages/shopverse-migrate/src/csv.ts: parseCsvTable. A row object is the list of its own keys
-- and values, in the order in which they were set.
use shop_verse.Base.{
  ◌≡◌, refl, Bool, true, false, ◌||◌, not, Option, none, some, List, [], ◌∷◌, ◌++◌, map, any, all,
  filter_where, if◌then◌else◌, arith, ap, ◌∙◌, sym, subst, inl, inr, Bool-cases, Text, codes,
  is_same_text, is_same_text_iff,
}
use shop_verse.Plugins.Semver.{trim}
use shop_verse.Migration.Csv.{is_empty, parse_csv}

abbrev pub RowObject : Type 0
RowObject = List (Text × Text)

pub record CsvTable : Type 0 where
  pub headers : List Text
  pub rows : List RowObject

-- What an empty object inherits, which `in` finds.
abbrev pub inherited : List Text
inherited =
    codes "constructor"
    ∷ codes "hasOwnProperty"
    ∷ codes "isPrototypeOf"
    ∷ codes "propertyIsEnumerable"
    ∷ codes "toLocaleString"
    ∷ codes "toString"
    ∷ codes "valueOf"
    ∷ codes "__proto__"
    ∷ codes "__defineGetter__"
    ∷ codes "__defineSetter__"
    ∷ codes "__lookupGetter__"
    ∷ codes "__lookupSetter__"
    ∷ []

unfoldable pub is_inherited : Text → Bool
is_inherited key = any (is_same_text key) inherited

abbrev pub has_own : Text → RowObject → Bool
has_own key obj = any (λ e. is_same_text key e.0) obj

-- `cells[h] ?? ''`, with the cells from the header's place on.
abbrev pub cell_here : List Text → Text
cell_here [] = []
cell_here (c ∷ cs) = c

abbrev pub later_cells : List Text → List Text
later_cells [] = []
later_cells (c ∷ cs) = cs

-- The inner loop, which the first of two headers of one name wins.
unfoldable pub fill : (headers cells : List Text) → RowObject → RowObject
fill [] cells obj = obj
fill (key ∷ keys) cells obj = fill keys (later_cells cells) (
    if has_own key obj || is_inherited key
    then obj
    else obj ++ ((key, trim (cell_here cells)) ∷ []))

abbrev pub is_blank : List Text → Bool
is_blank cells = all (λ c. is_empty (trim c)) cells

unfoldable pub to_table : List (List Text) → CsvTable
to_table [] = record { headers = []; rows = [] }
to_table (first ∷ others) =
    let headers : List Text = map trim first in
    record {
      headers = headers;
      rows = map (λ cells. fill headers cells []) (filter_where (λ c. not (is_blank c)) others);
    }

unfoldable pub parse_csv_table : Text → CsvTable
parse_csv_table input = to_table (parse_csv input)

abbrev pub value_of : Text → RowObject → Option Text
value_of key [] = none
value_of key (e ∷ es) = if is_same_text key e.0 then some e.1 else value_of key es

-- The cell in the first column of a name; a row that is too short has empty cells there.
abbrev pub first_column : Text → (headers cells : List Text) → Option Text
first_column key [] cells = none
first_column key (h ∷ hs) cells =
    if is_same_text key h
    then some (trim (cell_here cells))
    else first_column key hs (later_cells cells)

abbrev or_else : Option Text → Option Text → Option Text
or_else none o = o
or_else (some t) o = some t

value_of-append :
    (key k : Text) (v : Text) (obj : RowObject)
    → value_of key (obj ++ ((k, v) ∷ []))
      ≡ or_else (value_of key obj) (if is_same_text key k then some v else none)
value_of-append key k v [] = ground arith
value_of-append key k v (e ∷ es) = ground (arith, value_of-append key k v es)

left_true : (a b : Bool) → b ≡ false → (a || b) ≡ true → a ≡ true
left_true a b h k = ground (arith, h, k)

has_own_lem :
    (key : Text) (obj : RowObject)
    → has_own key obj ≡ true
    → (o : Option Text) → or_else (value_of key obj) o ≡ value_of key obj
has_own_lem key [] h o = ground arith
has_own_lem key (e ∷ es) h o = elim (Bool-cases (is_same_text key e.0)) [
  | inl here ↦ ground (arith, here)
  | inr there ↦ ground (arith, there, has_own_lem key es (rw there at h) o)
]

or_else_assoc :
    (a c : Option Text) (b : Bool) (v : Text)
    → or_else (or_else a (if b then some v else none)) c ≡ or_else a (if b then some v else c)
or_else_assoc none c true v = refl
or_else_assoc none c false v = refl
or_else_assoc (some t) c b v = refl

or_else-none : (o : Option Text) → o ≡ or_else o none
or_else-none none = refl
or_else-none (some t) = refl

owned_lem :
    (key k : Text) (obj : RowObject)
    → key ≡ k
    → is_inherited key ≡ false
    → (has_own k obj || is_inherited k) ≡ true
    → has_own key obj ≡ true
owned_lem key k obj e h old =
    subst (λ t. is_inherited t ≡ false → has_own t obj ≡ true) (sym e)
      (λ i. left_true (has_own k obj) (is_inherited k) i old) h

value_of-fill :
    (key : Text) (headers cells : List Text) (obj : RowObject)
    → is_inherited key ≡ false
    → value_of key (fill headers cells obj)
      ≡ or_else (value_of key obj) (first_column key headers cells)
unfolding fill
value_of-fill key [] cells obj h = or_else-none (value_of key obj)
value_of-fill key (k ∷ ks) cells obj h =
    let rest : List Text = later_cells cells in
    let v : Text = trim (cell_here cells) in
    let column : Option Text = first_column key ks rest in
    elim (Bool-cases (has_own k obj || is_inherited k)) [
      | inr new ↦
          rw (fill, new)
            (value_of-fill key ks rest (obj ++ ((k, v) ∷ [])) h
              ∙ ap (λ o. or_else o column) (value_of-append key k v obj)
              ∙ or_else_assoc (value_of key obj) column (is_same_text key k) v)
      | inl old ↦ elim (Bool-cases (is_same_text key k)) [
        | inr other ↦ rw (fill, old, other) (value_of-fill key ks rest obj h)
        | inl same ↦
            let e : key ≡ k = (is_same_text_iff key k).0 same in
            let owned : has_own key obj ≡ true = owned_lem key k obj e h old in
            rw (fill, old, same)
              (value_of-fill key ks rest obj h
                ∙ has_own_lem key obj owned column
                ∙ sym (has_own_lem key obj owned (some v)))
      ]
    ]

-- A row object has under each header the trimmed cell of the first column of that name, or the
-- empty text where the row is too short, and no value under any other name. Headers that an empty
-- object inherits, such as `constructor`, are left out.
pub fill_lem :
    (key : Text) (headers cells : List Text)
    → is_inherited key ≡ false
    → value_of key (fill headers cells []) ≡ first_column key headers cells
fill_lem key headers cells h = value_of-fill key headers cells [] h
