-- ===== src/Examples/Downloads.antt =====
-- The binary containers and the export endpoint at concrete inputs.
use beacon_backend.Prelude.{
  ℕ, ◌+◌, ◌*◌, ◌%◌, ◌^◌, ◌<◌, none, some, [], ◌∷◌, true, false, ◌≡◌, refl, arith, All, Bool, map,
  length,
}
use beacon_backend.Prelude.Int.{ℤ, pos, pos_part}
use beacon_backend.Std.Text.{codes}
use beacon_backend.Model.User.{User, scope_allows, is_viewer_tier}
use beacon_backend.Std.Text.{trim_space, is_space}
use beacon_backend.Handler.Scope.{scoped_crisis}
use beacon_backend.Store.Db.{Db}
use beacon_backend.Store.Listing.{Search}
use beacon_backend.Export.Cells.{resolved_point}
use beacon_backend.Store.Scan.{scan_report}
use beacon_backend.Store.Exports.{export_each}
use beacon_backend.Export.Columns.{is_safe_column, extra_columns_from_keys}
use beacon_backend.Export.Columns.Order.{IsDistinct}
use beacon_backend.Export.Feature.{property_at, own_properties, modular_properties, geojson_feature}
use beacon_backend.Export.Feature.Laws.{own_at, or_else, property_at-geojson_feature}
use beacon_backend.Export.Shapefile.{Bits, Day, ascii_fixed, shapefile_fields, stream_shapefile}
use beacon_backend.Export.Shapefile.Reader.{words_of, read_shapes, read_table}
use beacon_backend.Export.Shapefile.Records.{numbered}
use beacon_backend.Export.Shapefile.Points.{resolved, points_of, read_shapes-stream_shapefile}
use beacon_backend.Export.Shapefile.Table.{cell, IsPrintable, read_table-stream_shapefile}
use beacon_backend.Export.Geopackage.{gpkg_attr_cols, attr_cols, marks, gpkg_row_args}
use beacon_backend.Export.Geopackage.Laws.{attr_cols-IsDistinct}
use beacon_backend.Handler.Reply.{Reply, sent, refused}
use beacon_backend.Handler.Export.{ExportQuery, ExportOutage, Body, csv_cut, Press, export_reports}
use beacon_backend.Handler.Export.Laws.{IsExport, export_reports-IsExport}
use beacon_backend.Examples.Export.{plain, answered, keys}
use beacon_backend.Fixtures.{whole, flat, pending_row, pending_db, viewer}

abbrev bits : Bits ℤ
bits = record {
  nought = pos 0;
  bits = λ f. pos_part f % 2 ^ 64;
  least = λ a b. a;
  greatest = λ a b. b;
}

fits : (f : ℤ) → bits.bits f < 2 ^ 64
fits f = omega arith

abbrev today : Day
today = record { year = 2026; month = 3; day = 1 }

count_test : length (points_of plain flat bits (answered ∷ answered ∷ [])) ≡ 2
unfolding points_of resolved_point scan_report
count_test = refl

few : 50 + 14 * length (points_of plain flat bits (answered ∷ answered ∷ [])) < 2 ^ 32
few = let e = count_test in omega (arith, e)

read_shapes-stream_shapefile_example :
    (read_shapes
        (stream_shapefile plain flat bits today (answered ∷ answered ∷ [])).shp
        (stream_shapefile plain flat bits today (answered ∷ answered ∷ [])).shx
      ≡ numbered bits 1 (points_of plain flat bits (answered ∷ answered ∷ [])))
    × (2 * words_of (stream_shapefile plain flat bits today (answered ∷ answered ∷ [])).shp
        ≡ length (stream_shapefile plain flat bits today (answered ∷ answered ∷ [])).shp)
read_shapes-stream_shapefile_example =
    read_shapes-stream_shapefile plain flat bits today (answered ∷ answered ∷ []) fits few

row_count_test : length (resolved plain flat bits (answered ∷ [])) ≡ 1
unfolding resolved resolved_point scan_report
row_count_test = refl

few_rows : length (resolved plain flat bits (answered ∷ [])) < 2 ^ 32
few_rows = let e = row_count_test in omega (arith, e)

read_table-stream_shapefile_example :
    (read_table (stream_shapefile plain flat bits today (answered ∷ [])).dbf
      ≡ map
          (λ q. map (cell plain q) (shapefile_fields plain))
          (resolved plain flat bits (answered ∷ [])))
    × (map length (map (cell plain answered) (shapefile_fields plain))
        ≡ 24 ∷ 12 ∷ 40 ∷ 40 ∷ 10 ∷ 16 ∷ 40 ∷ 20 ∷ [])
    × All (All IsPrintable) (map (cell plain answered) (shapefile_fields plain))
read_table-stream_shapefile_example =
    read_table-stream_shapefile plain flat bits today (answered ∷ []) answered few_rows

ascii_fixed_test : ascii_fixed (codes "Café ") 6 ≡ codes "Caf?  "
unfolding ascii_fixed
ascii_fixed_test = refl

property_at-geojson_feature_example :
    (property_at (geojson_feature plain flat answered).properties (codes "water_level")
      ≡ or_else
          (own_at (own_properties plain flat answered) (codes "water_level"))
          (property_at (modular_properties plain flat answered) (codes "water_level")))
    × (property_at
          (geojson_feature plain flat (record answered { adm1_pcode = none })).properties
          (codes "admin1_pcode")
        ≡ property_at (modular_properties plain flat answered) (codes "admin1_pcode"))
property_at-geojson_feature_example =
    property_at-geojson_feature plain flat answered (codes "water_level")

attr_cols-IsDistinct_example :
    IsDistinct
      (codes "fid" ∷ codes "geom" ∷ attr_cols (extra_columns_from_keys plain keys gpkg_attr_cols))
    × All (λ col. is_safe_column col ≡ true) (extra_columns_from_keys plain keys gpkg_attr_cols)
    × (length (
          gpkg_row_args plain flat bits
            (extra_columns_from_keys plain keys gpkg_attr_cols)
            answered)
        ≡ length (marks (extra_columns_from_keys plain keys gpkg_attr_cols)))
attr_cols-IsDistinct_example = attr_cols-IsDistinct plain keys flat bits answered

abbrev search : Search ℤ
search = record {
  holds_text = λ a b. false;
  starts_with = λ a b. false;
  in_box = λ b lat lng. true;
}

abbrev press : Press ℤ
press = record {
  fmt = plain;
  gis = flat;
  search = search;
  fl = bits;
  world = record { min_x = pos 180; min_y = pos 90; max_x = pos 0; max_y = pos 0 };
  today = today;
  now = 2000;
}

abbrev calm : ExportOutage
calm = record { scope = false; keys = false; build = false; rows = none; flushed = 0 }

abbrev all_csv : ExportQuery ℤ
all_csv = record {
  format = "csv";
  crisis_id = "c1";
  bbox = some none;
  damage = [];
  verification = [];
  q = "";
  adm2_pcode = none;
  adm3_pcode = none;
}

abbrev regional : User
regional = record viewer { role = "regional_analyst"; crisis_scope = "c1" ∷ [] }

abbrev two_crises : Db ℤ
two_crises = record pending_db {
  reports =
      record (pending_row "p1" "s1") { crisis_id = some "c1"; modular = some "{...}" }
      ∷ record (pending_row "p2" "s2") { crisis_id = some "c2" }
      ∷ [];
}

export_reports-IsExport_example :
    IsExport press none regional all_csv two_crises
      (export_reports press calm (some regional) all_csv two_crises two_crises)
export_reports-IsExport_example =
    export_reports-IsExport press calm regional all_csv two_crises two_crises refl

abbrev status_of : Reply (Body ℤ) → ℕ
status_of (sent status body) = status
status_of (refused status code) = status

abbrev status_under : ExportOutage → User → ExportQuery ℤ → ℕ
status_under outage u query =
    status_of (export_reports press outage (some u) query two_crises two_crises)

-- Own crisis, another crisis, a viewer, an unknown format.
statuses :
    (status_under calm regional all_csv ≡ 200)
    × (status_under calm regional (record all_csv { crisis_id = "c2" }) ≡ 403)
    × (status_under calm viewer all_csv ≡ 403)
    × (status_under calm regional (record all_csv { format = "pdf" }) ≡ 400)
unfolding export_reports scoped_crisis scope_allows is_viewer_tier trim_space is_space
statuses = (refl, refl, refl, refl)

-- The rows break off at once, before anything has left the buffer.
abbrev broken : ExportOutage
broken = record calm { rows = some 0; flushed = 0 }

abbrev body_is_empty : Reply (Body ℤ) → Bool
body_is_empty (sent status (csv_cut [])) = true
body_is_empty _ = false

-- A CSV is then answered with 200 and nothing, a GeoPackage with an error.
broken_off :
    (status_under broken regional all_csv ≡ 200)
    × (body_is_empty (export_reports press broken (some regional) all_csv two_crises two_crises)
        ≡ true)
    × (status_under broken regional (record all_csv { format = "gpkg" }) ≡ 500)
unfolding export_reports scoped_crisis scope_allows is_viewer_tier trim_space is_space export_each
broken_off = (refl, refl, refl)
