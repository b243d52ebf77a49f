-- ===== src/Migration/Csv.antt =====
-- packages/shopverse-migrate/src/csv.ts: parseCsv. A text is its list of character codes. The
-- source looks one character ahead and then steps over two; here the second is skipped when it is
-- reached.
pub mod RoundTrip
use shop_verse.Base.{
  ℕ, Bool, true, false, ◌&&◌, ◌||◌, not, List, [], ◌∷◌, ◌++◌, ◌==◌, if◌then◌else◌, Text,
}

abbrev pub quote : ℕ
quote = 34

abbrev pub comma : ℕ
comma = 44

abbrev pub carriage_return : ℕ
carriage_return = 13

abbrev pub line_feed : ℕ
line_feed = 10

abbrev pub byte_order_mark : ℕ
byte_order_mark = 65279

-- The variables of the loop, in the order in which they are filled.
pub record Reader : Type 0 where
  pub rows : List (List Text)
  pub row : List Text
  pub field : Text
  pub in_quotes : Bool

abbrev pub add : ℕ → Reader → Reader
add c s = record s { field = s.field ++ (c ∷ []) }

abbrev pub end_field : Reader → Reader
end_field s = record s { row = s.row ++ (s.field ∷ []); field = [] }

abbrev pub end_row : Reader → Reader
end_row s = record s { rows = s.rows ++ ((s.row ++ (s.field ∷ [])) ∷ []); row = []; field = [] }

abbrev pub starts_with_quote : Text → Bool
starts_with_quote [] = false
starts_with_quote (c ∷ cs) = c == quote

-- `text[i] === '"' && text[i + 1] === '"'` inside quotes.
abbrev pub is_doubled : ℕ → Text → Reader → Bool
is_doubled c rest s = s.in_quotes && (c == quote && starts_with_quote rest)

-- One pass of the loop, with the text after the character.
abbrev pub read : ℕ → Text → Reader → Reader
read c rest s =
    if s.in_quotes
    then (if c == quote
        then (if starts_with_quote rest then add quote s else record s { in_quotes = false })
        else add c s)
    else if c == quote
    then record s { in_quotes = true }
    else if c == comma
    then end_field s
    else if c == carriage_return
    then s
    else if c == line_feed
    then end_row s
    else add c s

unfoldable pub scan : Text → (is_skipped : Bool) → Reader → Reader
scan [] is_skipped s = s
scan (c ∷ cs) is_skipped s =
    scan cs (not is_skipped && is_doubled c cs s) (if is_skipped then s else read c cs s)

abbrev pub strip_bom : Text → Text
strip_bom [] = []
strip_bom (c ∷ cs) = if c == byte_order_mark then cs else c ∷ cs

abbrev pub is_empty {ℓ} : {A : Type ℓ} → List A → Bool
is_empty [] = true
is_empty (x ∷ xs) = false

-- The row that the end of the text ends.
abbrev pub flush : Reader → List (List Text)
flush s = if not (is_empty s.field) || not (is_empty s.row) then (end_row s).rows else s.rows

abbrev pub start : Reader
start = record { rows = []; row = []; field = []; in_quotes = false }

unfoldable pub parse_csv : Text → List (List Text)
parse_csv input = flush (scan (strip_bom input) false start)
