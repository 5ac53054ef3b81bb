-- ===== src/Export/Cells.antt =====
-- The values of an exported report: titleTier, exportDescription, reportResolved, reportH3 and
-- csvRowCells.
use beacon_backend.Prelude.{
  String, Option, none, some, List, [], ◌∷◌, ◌++◌, ◌==◌, if◌then◌else◌, map,
}
use beacon_backend.Std.{Slice, items}
use beacon_backend.Std.Text.{codes}
use beacon_backend.Model.Report.{Report, ReportDescription}
use beacon_backend.Store.Db.{Postgis}
use beacon_backend.Export.Text.{Text, Formats, join_with, show_bool}
use beacon_backend.Export.Columns.{flatten_modular, cell_at}

-- deref
abbrev pub deref : Option String → Text
deref none = []
deref (some s) = codes s

abbrev pub joined : Slice String → Text
joined xs = join_with (codes ";") (map codes (items xs))

unfoldable pub title_tier : String → Text
title_tier t =
    if t == "minimal"
    then codes "Minimal"
    else if t == "partial"
    then codes "Partial"
    else if t == "complete"
    then codes "Complete"
    else codes "Minimal"

unfoldable pub export_description : Option ReportDescription → Text
export_description none = []
export_description (some d) = if d.translated == "" then codes d.original else codes d.translated

module _ {F : Type 0} (fmt : Formats F) (gis : Postgis F) where
  abbrev pub num_ptr : Option F → Text
  num_ptr none = []
  num_ptr (some f) = fmt.show_float f

  -- The point of a report that has a usable one, as (longitude, latitude).
  unfoldable pub resolved_point : Report F → Option (F × F)
  resolved_point r =
      if r.location_resolved
      then elim r.lat [
        | none ↦ none
        | some lat ↦ elim r.lng [ none ↦ none | some lng ↦ some (lng, lat) ]
      ]
      else none

  unfoldable pub report_h3 : Report F → Text
  unfolding resolved_point
  report_h3 r = elim (resolved_point r) [
    | none ↦ []
    | some (lng, lat) ↦ codes (gis.h3_cell lat lng)
  ]

  -- latStr and lngStr
  unfoldable pub point_cells : Report F → Text × Text
  unfolding resolved_point
  point_cells r = elim (resolved_point r) [
    | none ↦ ([], [])
    | some (lng, lat) ↦ (fmt.show_float lat, fmt.show_float lng)
  ]

  unfoldable pub csv_row_cells : List Text → Report F → List Text
  unfolding title_tier export_description report_h3 point_cells
  csv_row_cells extras r =
      let flat = flatten_modular fmt r.modular in
      let (lat, lng) = point_cells r in
      (codes r.id
        ∷ lat
        ∷ lng
        ∷ fmt.show_time r.captured_at
        ∷ title_tier r.damage_tier
        ∷ codes r.damage
        ∷ joined r.infra_types
        ∷ deref r.infra_name
        ∷ deref r.infra_other_detail
        ∷ joined r.crisis_nature
        ∷ cell_at fmt flat (codes "electricity")
        ∷ cell_at fmt flat (codes "health_services")
        ∷ cell_at fmt flat (codes "pressing_needs")
        ∷ show_bool r.possibly_damaged
        ∷ codes r.debris
        ∷ deref r.building_id
        ∷ codes r.verification
        ∷ codes r.place
        ∷ export_description r.description
        ∷ deref r.plus_code
        ∷ num_ptr r.gps_accuracy_meters
        ∷ deref r.adm1_pcode
        ∷ deref r.adm2_pcode
        ∷ deref r.adm3_pcode
        ∷ report_h3 r
        ∷ [])
      ++ map (cell_at fmt flat) extras
