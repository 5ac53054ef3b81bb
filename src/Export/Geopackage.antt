-- ===== src/Export/Geopackage.antt =====
-- The GeoPackage of export_stream.go: gpbPoint, gpkgRowArgs and the table of reports. SQLite, the
-- tables of the container's own and the temporary file are left out.
pub mod Laws
use beacon_backend.Prelude.{
  ℕ, zero, suc, ◌+◌, String, Option, none, some, List, [], ◌∷◌, ◌++◌, Bool, true, false,
  if◌then◌else◌, map, eqb,
}
use beacon_backend.Std.Text.{codes}
use beacon_backend.Photo.Jpeg.{same_bytes}
use beacon_backend.Model.Report.{Report}
use beacon_backend.Store.Db.{Postgis}
use beacon_backend.Export.Text.{Text, Formats, join_with}
use beacon_backend.Export.Bytes.{little}
use beacon_backend.Export.Columns.{
  stable_modular_columns, flatten_modular, cell_at, extra_columns_from_keys,
}
use beacon_backend.Export.Cells.{deref, joined, export_description, resolved_point, report_h3}
use beacon_backend.Export.Shapefile.{Bits, Box}

-- gpkgAttrCols
abbrev pub gpkg_attr_cols : List Text
gpkg_attr_cols =
    codes "id"
    ∷ codes "damage"
    ∷ codes "possibly_damaged"
    ∷ codes "verification"
    ∷ codes "infrastructure"
    ∷ codes "infrastructure_name"
    ∷ codes "infrastructure_other_detail"
    ∷ codes "crisis"
    ∷ codes "debris"
    ∷ codes "building_id"
    ∷ codes "place"
    ∷ codes "description"
    ∷ codes "plus_code"
    ∷ codes "admin2_pcode"
    ∷ codes "admin3_pcode"
    ∷ codes "captured_at"
    ∷ codes "h3id"
    ∷ []

abbrev pub attr_cols : List Text → List Text
attr_cols extras = gpkg_attr_cols ++ (stable_modular_columns ++ extras)

-- A value that is bound in the INSERT.
pub data Arg : Type 0 where
  nil : Arg
  blob : List ℕ → Arg
  text : Text → Arg
  int : ℕ → Arg

abbrev pub ddl_col : Text → Text
ddl_col c = c ++ codes (if same_bytes c (codes "possibly_damaged") then " INTEGER" else " TEXT")

abbrev pub marks : List Text → List Text
marks extras = codes "?" ∷ map (λ c. codes "?") (attr_cols extras)

unfoldable pub create_reports : List Text → Text
create_reports extras =
    codes "CREATE TABLE reports (fid INTEGER PRIMARY KEY AUTOINCREMENT, geom BLOB, "
    ++ (join_with (codes ", ") (map ddl_col (attr_cols extras)) ++ codes ")")

unfoldable pub insert_reports : List Text → Text
insert_reports extras =
    codes "INSERT INTO reports (geom, "
    ++ (join_with (codes ", ") (attr_cols extras)
        ++ (codes ") VALUES (" ++ (join_with (codes ",") (marks extras) ++ codes ")")))

module _ {F : Type 0} (fmt : Formats F) (gis : Postgis F) (fl : Bits F) where
  unfoldable pub gpb_point : F → F → List ℕ
  gpb_point lng lat =
      b'G'
      ∷ b'P'
      ∷ 0x00
      ∷ 0x01
      ∷ (little 4 4326
          ++ (0x01 ∷ (little 4 1 ++ (little 8 (fl.bits lng) ++ little 8 (fl.bits lat)))))

  abbrev pub geom_arg : Option (F × F) → Arg
  geom_arg none = nil
  geom_arg (some (lng, lat)) = blob (gpb_point lng lat)

  unfoldable pub gpkg_row_args : List Text → Report F → List Arg
  unfolding gpb_point export_description report_h3
  gpkg_row_args extras r =
      let flat = flatten_modular fmt r.modular in
      (geom_arg (resolved_point fmt gis r)
        ∷ text (codes r.id)
        ∷ text (codes r.damage)
        ∷ int (if r.possibly_damaged then 1 else 0)
        ∷ text (codes r.verification)
        ∷ text (joined r.infra_types)
        ∷ text (deref r.infra_name)
        ∷ text (deref r.infra_other_detail)
        ∷ text (joined r.crisis_nature)
        ∷ text (codes r.debris)
        ∷ text (deref r.building_id)
        ∷ text (codes r.place)
        ∷ text (export_description r.description)
        ∷ text (deref r.plus_code)
        ∷ text (deref r.adm2_pcode)
        ∷ text (deref r.adm3_pcode)
        ∷ text (fmt.show_time r.captured_at)
        ∷ text (report_h3 fmt gis r)
        ∷ [])
      ++ (map (λ c. text (cell_at fmt flat c)) stable_modular_columns
          ++ map (λ c. text (cell_at fmt flat c)) extras)

  -- The number of resolved reports and the extent of their points.
  unfoldable pub extend : ℕ × Box F → Report F → ℕ × Box F
  extend (n, box) r = elim (resolved_point fmt gis r) [
    | none ↦ (n, box)
    | some (x, y) ↦ (
      n + 1,
      record {
        min_x = fl.least box.min_x x;
        min_y = fl.least box.min_y y;
        max_x = fl.greatest box.max_x x;
        max_y = fl.greatest box.max_y y;
      },
    )
  ]

  unfoldable pub extent_from : ℕ × Box F → List (Report F) → ℕ × Box F
  unfolding extend
  extent_from seen [] = seen
  extent_from seen (r ∷ reports) = extent_from (extend seen r) reports

  -- `world` is the box that the code starts from, turned inside out.
  unfoldable pub extent_of : Box F → List (Report F) → Box F
  unfolding extent_from
  extent_of world reports =
      let (n, box) = extent_from (0, world) reports in
      if eqb n 0
      then record { min_x = fl.nought; min_y = fl.nought; max_x = fl.nought; max_y = fl.nought }
      else box

  -- The table of reports: the statement that makes it, the one that fills it, the values bound in
  -- it for each row, and the extent of its points.
  unfoldable pub stream_gpkg :
      Box F → List Text → List (Report F) → Text × Text × List (List Arg) × Box F
  unfolding create_reports insert_reports gpkg_row_args extent_of
  stream_gpkg world extras reports = (
    create_reports extras,
    insert_reports extras,
    map (gpkg_row_args extras) reports,
    extent_of world reports,
  )
