-- ===== src/Export/Csv.antt =====
-- csvCell, StreamCSV and the fixed columns.
pub mod Reader
pub mod Laws
pub mod RoundTrip
use beacon_backend.Prelude.{
  ℕ, String, List, [], ◌∷◌, ◌++◌, Bool, true, false, ◌||◌, eqb, if◌then◌else◌, any, map,
}
use beacon_backend.Std.Text.{codes}
use beacon_backend.Model.Report.{Report}
use beacon_backend.Store.Db.{Postgis}
use beacon_backend.Export.Text.{Text, Formats, join_with}
use beacon_backend.Export.Columns.{extra_columns_from_keys}
use beacon_backend.Export.Cells.{csv_row_cells}

-- csvColumns
abbrev pub csv_columns : List Text
csv_columns =
    codes "id"
    ∷ codes "latitude"
    ∷ codes "longitude"
    ∷ codes "timestamp"
    ∷ codes "damage_classification"
    ∷ codes "damage"
    ∷ codes "infrastructure_type"
    ∷ codes "infrastructure_name"
    ∷ codes "infrastructure_other_detail"
    ∷ codes "hazard_type"
    ∷ codes "electricity"
    ∷ codes "health_services"
    ∷ codes "pressing_needs"
    ∷ codes "possiblyDamaged"
    ∷ codes "debris"
    ∷ codes "buildingId"
    ∷ codes "verification"
    ∷ codes "place"
    ∷ codes "description"
    ∷ codes "plus_code"
    ∷ codes "accuracy_m"
    ∷ codes "admin1_pcode"
    ∷ codes "admin2_pcode"
    ∷ codes "admin3_pcode"
    ∷ codes "h3id"
    ∷ []

-- hxlRow
abbrev pub hxl_row : List Text
hxl_row =
    codes "#meta+id"
    ∷ codes "#geo+lat"
    ∷ codes "#geo+lon"
    ∷ codes "#date"
    ∷ codes "#severity+grade"
    ∷ codes "#severity+raw"
    ∷ codes "#sector"
    ∷ codes "#loc+name+infrastructure"
    ∷ codes "#loc+name+infrastructure+detail"
    ∷ codes "#cause"
    ∷ codes "#indicator+electricity"
    ∷ codes "#indicator+health"
    ∷ codes "#indicator+needs"
    ∷ codes "#indicator+possibly"
    ∷ codes "#indicator+debris"
    ∷ codes "#loc+building+id"
    ∷ codes "#status+verification"
    ∷ codes "#loc+name"
    ∷ codes "#description"
    ∷ codes "#geo+code+plus"
    ∷ codes "#indicator+accuracy"
    ∷ codes "#loc+adm1+code"
    ∷ codes "#loc+adm2+code"
    ∷ codes "#loc+adm3+code"
    ∷ codes "#geo+h3"
    ∷ []

-- csvNeedsQuote: a quote, a comma or a line feed.
abbrev pub is_special : ℕ → Bool
is_special c = eqb c b'"' || eqb c b',' || eqb c 10

abbrev pub needs_quote : Text → Bool
needs_quote s = any is_special s

-- strings.ReplaceAll(s, `"`, `""`)
unfoldable pub doubled : Text → Text
doubled [] = []
doubled (c ∷ s) = let rest = doubled s in if eqb c b'"' then b'"' ∷ b'"' ∷ rest else c ∷ rest

unfoldable pub csv_cell : Text → Text
unfolding doubled
csv_cell s = if needs_quote s then b'"' ∷ (doubled s ++ b'"' ∷ []) else s

abbrev pub comma : Text
comma = b',' ∷ []

-- A row of cells as it is written.
abbrev pub csv_line : List Text → Text
csv_line cells = join_with comma (map csv_cell cells)

abbrev pub header : List Text → List Text
header extras = csv_columns ++ extras

abbrev pub hxl : List Text → List Text
hxl extras = hxl_row ++ map (λ c. codes "#indicator+" ++ c) extras

module _ {F : Type 0} (fmt : Formats F) (gis : Postgis F) where
  unfoldable pub rows_after : List Text → List (Report F) → Text
  rows_after extras [] = []
  rows_after extras (r ∷ reports) =
      10 ∷ (csv_line (csv_row_cells fmt gis extras r) ++ rows_after extras reports)

  -- StreamCSV; the header and the HXL row are written without quotes.
  unfoldable pub stream_csv : List Text → List (Report F) → Text
  unfolding csv_cell rows_after
  stream_csv extras reports =
      join_with comma (header extras)
      ++ (10 ∷ (join_with comma (hxl extras) ++ rows_after extras reports))

  -- The CSV of the export endpoint, over the keys of ModularKeysRaw.
  unfoldable pub export_csv : List Text → List (Report F) → Text
  unfolding stream_csv
  export_csv keys reports = stream_csv (extra_columns_from_keys fmt keys csv_columns) reports
