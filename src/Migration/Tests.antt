-- ===== src/Migration/Tests.antt =====
-- A small export, with quotes, a line break in a cell and CR LF.
use shop_verse.Base.{◌≡◌, refl, true, false, some, [], ◌∷◌, Text, codes}
use shop_verse.Plugins.Semver.{trim}
use shop_verse.Migration.Csv.{byte_order_mark, scan, parse_csv}
use shop_verse.Migration.Csv.RoundTrip.{Line, write_all, parse_csv-write_all}
use shop_verse.Migration.Table.{is_inherited, fill, value_of, fill_lem}

abbrev header : Line
header = record {
  first = record { text = codes "sku"; is_quoted = false };
  others = record { text = codes "name"; is_quoted = true } ∷ [];
  has_return = true;
}

abbrev mug : Line
mug = record {
  first = record { text = codes "m-1"; is_quoted = false };
  others = record { text = codes "a \"big\", blue\nmug "; is_quoted = false } ∷ [];
  has_return = false;
}

abbrev export : Text
export = codes "sku,\"name\"\r\nm-1,\"a \"\"big\"\", blue\nmug \"\n"

written : write_all (header ∷ mug ∷ []) ≡ export
written = refl

parse_csv-write_all_example :
    parse_csv (byte_order_mark ∷ export)
    ≡ (codes "sku" ∷ codes "name" ∷ []) ∷ (codes "m-1" ∷ codes "a \"big\", blue\nmug " ∷ []) ∷ []
parse_csv-write_all_example =
    parse_csv-write_all (header ∷ mug ∷ []) (byte_order_mark ∷ export) refl

-- The last line break may be missing, and a quote that is not closed ends with the text.
loose : parse_csv (codes "a,b\n\"c") ≡ (codes "a" ∷ codes "b" ∷ []) ∷ (codes "c" ∷ []) ∷ []
unfolding parse_csv scan
loose = refl

fill_lem_run :
    value_of
      (codes "b")
      (fill (codes "a" ∷ codes "b" ∷ codes "b" ∷ []) (codes "1" ∷ codes " 2" ∷ []) [])
    ≡ some (codes "2")
unfolding is_inherited trim
fill_lem_run =
    fill_lem (codes "b") (codes "a" ∷ codes "b" ∷ codes "b" ∷ []) (codes "1" ∷ codes " 2" ∷ []) refl

-- A column that is called `constructor` is lost.
lost_column :
    fill (codes "sku" ∷ codes "constructor" ∷ []) (codes "m-1" ∷ codes "Lego" ∷ []) []
    ≡ (codes "sku", codes "m-1") ∷ []
unfolding fill is_inherited trim
lost_column = refl
