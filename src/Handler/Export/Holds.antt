-- ===== src/Handler/Export/Holds.antt =====
-- What the body of an export holds of the reports, for each format.
use beacon_backend.Prelude.{
  String, Option, none, some, List, ◌∷◌, ◌||◌, ◌==◌, ◌≡◌, refl, ap, ◌∙◌, map, if_both, ℕ, take,
  drop, ◌++◌, take-drop,
}
use beacon_backend.Std.Float.{Float}
use beacon_backend.Model.Report.{Report}
use beacon_backend.Store.Db.{Db}
use beacon_backend.Store.Listing.{ListFilter}
use beacon_backend.Store.Exports.{Yielded, export_rows, export_each, modular_keys_raw}
use beacon_backend.Store.Exports.Keys.{modular_keys_raw-export_rows}
use beacon_backend.Export.Text.{Text}
use beacon_backend.Export.Columns.{extra_columns_from_keys, extra_modular_columns}
use beacon_backend.Export.Columns.Agree.{extra_modular_columns-keys}
use beacon_backend.Export.Cells.{csv_row_cells}
use beacon_backend.Export.Csv.{csv_columns, header, hxl, stream_csv}
use beacon_backend.Export.Csv.Reader.{read_csv}
use beacon_backend.Export.Csv.RoundTrip.{read-stream_keys}
use beacon_backend.Export.Feature.{geojson_feature}
use beacon_backend.Export.Kml.{begun_kml, stream_kml}
use beacon_backend.Export.Shapefile.{stream_shapefile}
use beacon_backend.Export.Geopackage.{gpkg_attr_cols, stream_gpkg}
use beacon_backend.Handler.Reply.{Reply, sent, refused}
use beacon_backend.Handler.Export.{
  ExportOutage, Body, geojson, csv, gpkg, kml, shapefile, geojson_cut, csv_cut, kml_cut, Press,
  geojson_of, csv_of, kml_of, gpkg_of, shapefile_of, export_as,
}

-- The rest that is missing may be anything.
abbrev pub IsPrefix {ℓ} : {A : Type ℓ} → List A → List A → Type ℓ
IsPrefix {A = A} xs ys = (rest : List A) × (xs ++ rest ≡ ys)

take-IsPrefix {ℓ} : {A : Type ℓ} (n : ℕ) (xs : List A) → IsPrefix (take n xs) xs
take-IsPrefix n xs = (drop n xs, take-drop n xs)

module _ {F : Type 0} ⦃real : Float F⦄ where
  -- What a body holds of the reports. A whole one, where the rows did not break off: CSV as it is
  -- read back, the others as their writers write them; the dynamic columns are those that the
  -- reports themselves have. A cut one, where they broke off after `n` reports: the beginning of
  -- what is written of the first `n`.
  abbrev pub Holds : Press F → Option ℕ → List (Report F) → Body F → Type 0
  Holds p rows reports (geojson features) =
      (rows ≡ none) × (features ≡ map (geojson_feature p.fmt p.gis) reports)
  Holds p rows reports (csv t) =
      let extras = extra_modular_columns p.fmt reports csv_columns in
      (rows ≡ none)
      × (read_csv t ≡ header extras ∷ hxl extras ∷ map (csv_row_cells p.fmt p.gis extras) reports)
  Holds p rows reports (gpkg t) =
      let extras = extra_modular_columns p.fmt reports gpkg_attr_cols in
      (rows ≡ none) × (t ≡ stream_gpkg p.fmt p.gis p.fl p.world extras reports)
  Holds p rows reports (kml t) = (rows ≡ none) × (t ≡ stream_kml p.fmt p.gis reports)
  Holds p rows reports (shapefile m) =
      (rows ≡ none) × (m ≡ stream_shapefile p.fmt p.gis p.fl p.today reports)
  Holds p rows reports (geojson_cut features) =
      (n : ℕ) × (rows ≡ some n)
      × IsPrefix features (map (geojson_feature p.fmt p.gis) (take n reports))
  Holds p rows reports (csv_cut t) =
      let extras = extra_modular_columns p.fmt reports csv_columns in
      (n : ℕ) × (rows ≡ some n) × IsPrefix t (stream_csv p.fmt p.gis extras (take n reports))
  Holds p rows reports (kml_cut t) =
      (n : ℕ) × (rows ≡ some n) × IsPrefix t (begun_kml p.fmt p.gis (take n reports))

  abbrev pub HoldsAll : Press F → Option ℕ → List (Report F) → Reply (Body F) → Type 0
  HoldsAll p rows reports (refused status code) = Unit
  HoldsAll p rows reports (sent status body) = Holds p rows reports body

  module _ (p : Press F) (f : ListFilter F) (earlier db : Db F)
      (same : earlier.reports ≡ db.reports) where
    abbrev reports : List (Report F)
    reports = export_rows p.gis p.search f p.now db

    abbrev keys : List Text
    keys = modular_keys_raw p.fmt p.search f earlier

    same_keys : modular_keys_raw p.fmt p.search f earlier ≡ modular_keys_raw p.fmt p.search f db
    unfolding modular_keys_raw
    same_keys = rw same refl

    same_columns :
        (fixed : List Text)
        → extra_columns_from_keys p.fmt keys fixed ≡ extra_modular_columns p.fmt reports fixed
    same_columns fixed = rw same_keys (
        extra_modular_columns-keys p.fmt reports (modular_keys_raw p.fmt p.search f db) fixed
          (modular_keys_raw-export_rows p.fmt p.gis p.search f p.now db))

    module _ (outage : ExportOutage) where
      abbrev yielded : Option ℕ → Yielded F
      yielded rows = export_each p.gis p.search f rows p.now db

      geojson_of-Holds :
          (rows : Option ℕ) → Holds p rows reports (geojson_of p outage (yielded rows))
      unfolding geojson_of export_each
      geojson_of-Holds none = (refl, refl)
      geojson_of-Holds (some n) = (n, refl, take-IsPrefix outage.flushed _)

      csv_of-Holds : (rows : Option ℕ) → Holds p rows reports (csv_of p outage keys (yielded rows))
      unfolding csv_of export_each
      csv_of-Holds none = (
        refl,
        read-stream_keys p.fmt p.gis keys reports
            ∙ ap
                (λ extras.
                  header extras ∷ hxl extras ∷ map (csv_row_cells p.fmt p.gis extras) reports)
                (same_columns csv_columns),
      )
      csv_of-Holds (some n) =
          (n, refl, rw (same_columns csv_columns) (take-IsPrefix outage.flushed _))

      kml_of-Holds : (rows : Option ℕ) → Holds p rows reports (kml_of p outage (yielded rows))
      unfolding kml_of export_each
      kml_of-Holds none = (refl, refl)
      kml_of-Holds (some n) = (n, refl, take-IsPrefix outage.flushed _)

      gpkg_of-HoldsAll :
          (rows : Option ℕ) → HoldsAll p rows reports (gpkg_of p outage keys (yielded rows))
      unfolding gpkg_of export_each
      gpkg_of-HoldsAll none =
          if_both (HoldsAll p none reports) outage.build (λ e. tt)
            (λ e. (
              refl,
              ap (λ extras. stream_gpkg p.fmt p.gis p.fl p.world extras reports)
                  (same_columns gpkg_attr_cols),
            ))
      gpkg_of-HoldsAll (some n) = tt

      shapefile_of-HoldsAll :
          (rows : Option ℕ) → HoldsAll p rows reports (shapefile_of p outage (yielded rows))
      unfolding shapefile_of export_each
      shapefile_of-HoldsAll none =
          if_both (HoldsAll p none reports) outage.build (λ e. tt) (λ e. (refl, refl))
      shapefile_of-HoldsAll (some n) = tt

      pub export_as-HoldsAll :
          (format : String)
          → HoldsAll p outage.rows reports (export_as p outage format f earlier db)
      unfolding export_as
      export_as-HoldsAll format =
          let P = HoldsAll p outage.rows reports in
          let rows = outage.rows in
          if_both P (format == "geojson") (λ e. geojson_of-Holds rows)
            (λ e.
              if_both P (format == "csv")
                (λ e. if_both P outage.keys (λ e. tt) (λ e. csv_of-Holds rows))
                (λ e.
                  if_both P (format == "gpkg")
                    (λ e. if_both P outage.keys (λ e. tt) (λ e. gpkg_of-HoldsAll rows))
                    (λ e.
                      if_both P (format == "kml") (λ e. kml_of-Holds rows)
                        (λ e.
                          if_both P (format == "shapefile" || format == "shp")
                            (λ e. shapefile_of-HoldsAll rows) (λ e. tt)))))
