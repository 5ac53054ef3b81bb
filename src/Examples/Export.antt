-- ===== src/Examples/Export.antt =====
-- The exports at concrete inputs.
use beacon_backend.Prelude.{
  some, List, [], ◌∷◌, true, ◌&&◌, ◌≡◌, refl, ◌+◌, leb, if◌then◌else◌, ◌==◌, length,
}
use beacon_backend.Prelude.Int.{ℤ}
use beacon_backend.Std.Text.{codes}
use beacon_backend.Model.Report.{Report}
use beacon_backend.Store.Db.{Row}
use beacon_backend.Store.Scan.{scan_report}
use beacon_backend.Export.Text.{Text, text, bool, Formats}
use beacon_backend.Export.Columns.{
  modular_keys, is_safe_column, is_reserved, is_taken, snake_from, camel_to_snake, column_of,
  columns_of, flat_value, assign, assign_answers, cell_at, flatten_modular, gather, insert_text,
  sort_texts, extra_columns_from_keys, row_columns, extra_modular_columns,
}
use beacon_backend.Export.Columns.Unique.{SameTexts}
use beacon_backend.Export.Cells.{
  title_tier, export_description, resolved_point, report_h3, point_cells, csv_row_cells,
}
use beacon_backend.Export.Csv.{
  csv_columns, doubled, csv_cell, header, hxl, rows_after, stream_csv, export_csv,
}
use beacon_backend.Export.Csv.Reader.{read, read_csv}
use beacon_backend.Export.Csv.RoundTrip.{read_csv-export_csv}
use beacon_backend.Fixtures.{whole, flat, pending_row}

running : Unit {0}
unfolding is_safe_column is_reserved is_taken snake_from camel_to_snake column_of columns_of
    flat_value assign assign_answers cell_at flatten_modular gather insert_text sort_texts
    extra_columns_from_keys row_columns extra_modular_columns title_tier export_description
    resolved_point report_h3 point_cells csv_row_cells doubled csv_cell rows_after stream_csv
    export_csv read read_csv scan_report
running = tt

-- The one stored object: {"waterLevel": "up, \"2m\"", "fid": true}.
abbrev pub plain : Formats ℤ
plain = record {
  show_float = λ f. codes "36";
  show_time = λ t. codes "2023-02-06T01:17:00Z";
  is_upper = λ c. leb b'A' c && leb c b'Z';
  to_lower = λ c. c + 32;
  parse_object = λ s.
      if s == "{}"
      then some []
      else some ((codes "waterLevel", text (codes "up, \"2m\"")) ∷ (codes "fid", bool true) ∷ []);
}

abbrev first : Row ℤ
first = pending_row "r1" "s1"

abbrev pub answered : Report ℤ
answered = scan_report 2000 (record first { modular = some "{...}" })

abbrev pub keys : List Text
keys = codes "fid" ∷ codes "waterLevel" ∷ []

snake_test : camel_to_snake plain (codes "waterLevel") ≡ codes "water_level"
unfolding running
snake_test = refl

columns_test :
    extra_columns_from_keys plain keys csv_columns ≡ codes "water_level" ∷ codes "x_fid" ∷ []
unfolding running
columns_test = refl

cell_test : csv_cell (codes "up, \"2m\"") ≡ codes "\"up, \"\"2m\"\"\""
unfolding running
cell_test = refl

stored_keys : SameTexts (codes "waterLevel" ∷ codes "fid" ∷ []) (modular_keys plain (answered ∷ []))
unfolding running
stored_keys u = refl

abbrev extras : List Text
extras = extra_columns_from_keys plain keys csv_columns

read_csv-export_csv_example :
    (read_csv (export_csv plain flat keys (answered ∷ []))
      ≡ header extras ∷ hxl extras ∷ csv_row_cells plain flat extras answered ∷ [])
    × (length (csv_row_cells plain flat extras answered) ≡ length (header extras))
    × (length (hxl extras) ≡ length (header extras))
read_csv-export_csv_example = read_csv-export_csv plain flat keys (answered ∷ []) answered
