-- ===== src/Export/Csv/RoundTrip.antt =====
-- The whole CSV export, read back.
use beacon_backend.Prelude.{
  List, [], ◌∷◌, ◌++◌, true, false, ◌≡◌, refl, sym, ap, ◌∙◌, arith, any, any-append, All, map,
  length, length-map,
}
use beacon_backend.Std.Text.{codes}
use beacon_backend.Model.Report.{Report}
use beacon_backend.Store.Db.{Postgis}
use beacon_backend.Export.Text.{Text, Formats, join_with}
use beacon_backend.Export.Columns.{is_safe_column, is_reserved, extra_columns_from_keys}
use beacon_backend.Export.Columns.Laws.{extra_columns_from_keys_lem}
use beacon_backend.Export.Cells.{csv_row_cells}
use beacon_backend.Export.Csv.{
  csv_columns, hxl_row, needs_quote, comma, csv_line, header, hxl, rows_after, stream_csv,
  export_csv,
}
use beacon_backend.Export.Csv.Reader.{start, read, read_csv}
use beacon_backend.Export.Csv.Laws.{
  read-csv_line, map-csv_cell, safe-needs_quote, rows_after-EndsRow, finish-rows_after,
}

abbrev IsSafe : Text → Type 0
IsSafe col = (is_safe_column col ≡ true) × (is_reserved col ≡ false)

extras-unquoted : (extras : List Text) → All IsSafe extras → any needs_quote extras ≡ false
extras-unquoted [] a = refl
extras-unquoted (c ∷ extras) ((s, r), a) =
    ground (arith, safe-needs_quote c s, extras-unquoted extras a)

tags-unquoted :
    (extras : List Text)
    → All IsSafe extras
    → any needs_quote (map (λ c. codes "#indicator+" ++ c) extras) ≡ false
tags-unquoted [] a = refl
tags-unquoted (c ∷ extras) ((s, r), a) =
    ground (arith, safe-needs_quote c s, tags-unquoted extras a)

-- The header and the HXL row, written without quotes, are the rows as `csv_line` writes them.
header_line :
    (extras : List Text)
    → All IsSafe extras
    → csv_line (header extras) ≡ join_with comma (header extras)
header_line extras a = ap (join_with comma) (
    map-csv_cell (header extras)
      (any-append needs_quote csv_columns extras ∙ extras-unquoted extras a))

hxl_line :
    (extras : List Text) → All IsSafe extras → csv_line (hxl extras) ≡ join_with comma (hxl extras)
hxl_line extras a = ap (join_with comma) (
    map-csv_cell (hxl extras) (
      any-append needs_quote hxl_row (map (λ c. codes "#indicator+" ++ c) extras)
      ∙ tags-unquoted extras a))

module _ {F : Type 0} (fmt : Formats F) (gis : Postgis F) where
  read-stream_csv :
      (extras : List Text) (reports : List (Report F))
      → All IsSafe extras
      → read_csv (stream_csv fmt gis extras reports)
        ≡ header extras ∷ hxl extras ∷ map (csv_row_cells fmt gis extras) reports
  unfolding read_csv stream_csv
  read-stream_csv extras reports a =
      let rows = rows_after fmt gis extras reports in
      let more = 10 ∷ (join_with comma (hxl extras) ++ rows) in
      ap (λ line. read start [] [] (line ++ more)) (sym (header_line extras a))
      ∙ read-csv_line _ _ [] more refl
      ∙ ap (λ line. header extras ∷ read start [] [] (line ++ rows)) (sym (hxl_line extras a))
      ∙ ap (λ rs. header extras ∷ rs)
          (read-csv_line _ _ [] rows (rows_after-EndsRow fmt gis extras reports))
      ∙ ap (λ rs. header extras ∷ rs) (finish-rows_after fmt gis extras (hxl extras) reports)

  pub read-stream_keys :
      (keys : List Text) (reports : List (Report F))
      → let extras = extra_columns_from_keys fmt keys csv_columns in
        read_csv (stream_csv fmt gis extras reports)
        ≡ header extras ∷ hxl extras ∷ map (csv_row_cells fmt gis extras) reports
  read-stream_keys keys reports =
      let (s, a, w) = extra_columns_from_keys_lem fmt keys csv_columns [] in
      read-stream_csv (extra_columns_from_keys fmt keys csv_columns) reports a

  -- Every row has as many cells as the header.
  length-csv_row_cells :
      (extras : List Text) (r : Report F)
      → length (csv_row_cells fmt gis extras r) ≡ length (header extras)
  unfolding csv_row_cells
  length-csv_row_cells extras r = rw (length-map _ extras) refl

  -- Reading the CSV export back gives the header, the HXL row and the cells of every report, in their
  -- order and unchanged, whatever texts they hold; the HXL row and a report have as many cells as the
  -- header.
  pub read_csv-export_csv :
      (keys : List Text) (reports : List (Report F)) (r : Report F)
      → let extras = extra_columns_from_keys fmt keys csv_columns in
        (read_csv (export_csv fmt gis keys reports)
          ≡ header extras ∷ hxl extras ∷ map (csv_row_cells fmt gis extras) reports)
        × (length (csv_row_cells fmt gis extras r) ≡ length (header extras))
        × (length (hxl extras) ≡ length (header extras))
  unfolding export_csv
  read_csv-export_csv keys reports r =
      let extras = extra_columns_from_keys fmt keys csv_columns in
      (read-stream_keys keys reports, length-csv_row_cells extras r, rw (length-map _ extras) refl)
