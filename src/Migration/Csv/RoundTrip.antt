-- ===== src/Migration/Csv/RoundTrip.antt =====
-- What packages/shopverse-migrate/src/csv.ts reads is what was written by the rules of RFC 4180.
use mathlib.Core.List.{append_assoc, append-nil}
use shop_verse.Base.{
  ℕ, ◌≡◌, refl, Bool, true, false, ◌||◌, List, [], ◌∷◌, ◌++◌, map, any, ◌==◌, if◌then◌else◌, arith,
  inl, inr, ap, ◌∙◌, sym, Bool-cases, Text,
}
use shop_verse.Migration.Csv.{
  quote, comma, carriage_return, line_feed, Reader, starts_with_quote, scan, strip_bom, flush,
  parse_csv,
}

-- A cell of a file; its writer may put quotes around it where it need not.
pub record Cell : Type 0 where
  pub text : Text
  pub is_quoted : Bool

-- A row has a cell at least, and ends with LF or with CR and LF.
pub record Line : Type 0 where
  pub first : Cell
  pub others : List Cell
  pub has_return : Bool

abbrev pub is_special : ℕ → Bool
is_special c = c == quote || c == comma || c == carriage_return || c == line_feed

-- Each piece stands in front of what comes after it.
abbrev pub escape : Text → Text → Text
escape [] rest = rest
escape (c ∷ cs) rest = if c == quote then quote ∷ quote ∷ escape cs rest else c ∷ escape cs rest

abbrev pub plain : Text → Text → Text
plain [] rest = rest
plain (c ∷ cs) rest = c ∷ plain cs rest

abbrev pub write_cell : Cell → Text → Text
write_cell c rest =
    if c.is_quoted || any is_special c.text
    then quote ∷ escape c.text (quote ∷ rest)
    else plain c.text rest

abbrev pub write_others : List Cell → Text → Text
write_others [] rest = rest
write_others (c ∷ cs) rest = comma ∷ write_cell c (write_others cs rest)

abbrev pub line_end : (has_return : Bool) → Text → Text
line_end true rest = carriage_return ∷ line_feed ∷ rest
line_end false rest = line_feed ∷ rest

abbrev pub write_line : Line → Text → Text
write_line l rest = write_cell l.first (write_others l.others (line_end l.has_return rest))

abbrev pub write_all : List Line → Text
write_all [] = []
write_all (l ∷ ls) = write_line l (write_all ls)

abbrev pub values : Line → List Text
values l = l.first.text ∷ map (λ c. c.text) l.others

abbrev pub outside : List (List Text) → List Text → Text → Reader
outside rows row field = record { rows = rows; row = row; field = field; in_quotes = false }

abbrev pub inside : List (List Text) → List Text → Text → Reader
inside rows row field = record { rows = rows; row = row; field = field; in_quotes = true }

-- A character that is not special, and what comes after it.
split_special :
    (c : ℕ) (more : Bool)
    → (is_special c || more) ≡ false
    → ((c == quote) ≡ false)
      × ((c == comma) ≡ false)
      × ((c == carriage_return) ≡ false)
      × ((c == line_feed) ≡ false)
      × (more ≡ false)
split_special c more h = ground (arith, h)

module _ (rows : List (List Text)) (row : List Text) where
  abbrev reads_on : Text → Text → Reader
  reads_on rest field = scan rest false (outside rows row field)

  -- A character that is added, before the rest of its cell.
  joined :
      (rest field t : Text) (c : ℕ)
      → reads_on rest ((field ++ (c ∷ [])) ++ t) ≡ reads_on rest (field ++ c ∷ t)
  joined rest field t c = ap (reads_on rest) (append_assoc field (c ∷ []) t)

  scan-escape :
      (t rest field : Text)
      → starts_with_quote rest ≡ false
      → scan (escape t (quote ∷ rest)) false (inside rows row field) ≡ reads_on rest (field ++ t)
  unfolding scan
  scan-escape [] rest field h = rw (scan, h) (ap (reads_on rest) (sym (append-nil field)))
  scan-escape (c ∷ cs) rest field h = elim (Bool-cases (c == quote)) [
    | inl y ↦
        let e : c ≡ quote = ground (arith, y) in
        let later = scan-escape cs rest (field ++ (quote ∷ [])) h ∙ joined rest field cs quote in
        rw y (later ∙ ap (λ q. reads_on rest (field ++ q ∷ cs)) (sym e))
    | inr n ↦ rw (n, scan, n) (scan-escape cs rest (field ++ (c ∷ [])) h ∙ joined rest field cs c)
  ]

  scan-plain :
      (t rest field : Text)
      → any is_special t ≡ false
      → scan (plain t rest) false (outside rows row field) ≡ reads_on rest (field ++ t)
  unfolding scan
  scan-plain [] rest field h = ap (reads_on rest) (sym (append-nil field))
  scan-plain (c ∷ cs) rest field h =
      let (quote_, comma_, return_, feed_, more) = split_special c (any is_special cs) h in
      rw (scan, quote_, comma_, return_, feed_)
        (scan-plain cs rest (field ++ (c ∷ [])) more ∙ joined rest field cs c)

  scan-cell :
      (c : Cell) (rest : Text)
      → starts_with_quote rest ≡ false
      → scan (write_cell c rest) false (outside rows row []) ≡ reads_on rest c.text
  unfolding scan
  scan-cell c rest h = elim (Bool-cases (c.is_quoted || any is_special c.text)) [
    | inl y ↦ rw y (scan-escape c.text rest [] h)
    | inr n ↦ rw n (scan-plain c.text rest [] (ground (arith, n)))
  ]

-- What follows a cell is no quote.
others_start :
    (cs : List Cell) (has_return : Bool) (rest : Text)
    → starts_with_quote (write_others cs (line_end has_return rest)) ≡ false
others_start [] true rest = refl
others_start [] false rest = refl
others_start (c ∷ cs) has_return rest = refl

module _ (rows : List (List Text)) (rest : Text) (has_return : Bool) where
  -- What is read after a row.
  abbrev after_row : List Text → Reader
  after_row row = scan rest false (outside (rows ++ (row ∷ [])) [] [])

  scan-others :
      (cs : List Cell) (row : List Text) (field : Text)
      → scan (write_others cs (line_end has_return rest)) false (outside rows row field)
        ≡ after_row (row ++ (field ∷ map (λ c. c.text) cs))
  unfolding scan
  scan-others [] row field = elim (Bool-cases has_return) [ inl y ↦ rw y refl | inr n ↦ rw n refl ]
  scan-others (c ∷ cs) row field =
      scan-cell rows (row ++ (field ∷ [])) c (write_others cs (line_end has_return rest))
        (others_start cs has_return rest)
      ∙ scan-others cs (row ++ (field ∷ [])) c.text
      ∙ ap after_row (append_assoc row (field ∷ []) (c.text ∷ map (λ x. x.text) cs))

scan-line :
    (rows : List (List Text)) (l : Line) (rest : Text)
    → scan (write_line l rest) false (outside rows [] [])
      ≡ scan rest false (outside (rows ++ (values l ∷ [])) [] [])
scan-line rows l rest =
    scan-cell rows [] l.first (write_others l.others (line_end l.has_return rest))
      (others_start l.others l.has_return rest)
    ∙ scan-others rows rest l.has_return l.others [] l.first.text

scan-all :
    (ls : List Line) (rows : List (List Text))
    → scan (write_all ls) false (outside rows [] []) ≡ outside (rows ++ map values ls) [] []
unfolding scan
scan-all [] rows = ap (λ r. outside r [] []) (sym (append-nil rows))
scan-all (l ∷ ls) rows =
    scan-line rows l (write_all ls)
    ∙ scan-all ls (rows ++ (values l ∷ []))
    ∙ ap (λ r. outside r [] []) (append_assoc rows (values l ∷ []) (map values ls))

-- A file that was written by the rules of RFC 4180 is read as its rows of cells, with a byte order
-- mark in front or without one: with rows that end with LF or CR LF, cells that hold commas, quotes
-- and line breaks in quotes, quotes doubled there, and any other cell in quotes or not.
pub parse_csv-write_all :
    (ls : List Line) (input : Text)
    → strip_bom input ≡ write_all ls
    → parse_csv input ≡ map values ls
unfolding parse_csv
parse_csv-write_all ls input h = rw h (ap flush (scan-all ls []))
