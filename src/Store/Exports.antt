-- ===== src/Store/Exports.antt =====
-- internal/store/stats.go: ExportRows, ExportEach and ModularKeysRaw. The cursor of ExportEach is the
-- list of the reports that it yields, and whether it ended by an error.
pub mod Keys
use beacon_backend.Prelude.{
  ℕ, String, Option, none, some, List, [], ◌∷◌, ◌++◌, Bool, true, false, if◌then◌else◌, any, map,
  select, take,
}
use beacon_backend.Photo.Jpeg.{same_bytes}
use beacon_backend.Std.Float.{Float}
use beacon_backend.Model.Report.{Report}
use beacon_backend.Store.Db.{Row, Db, Postgis}
use beacon_backend.Store.Scan.{scan_report, non_null}
use beacon_backend.Export.Text.{Text, Formats}
use beacon_backend.Export.Columns.{has_text, answers_of}
use beacon_backend.Store.Listing.{ListFilter, Search, matches, ordered}

-- What `fn` was called with, and whether ExportEach returns an error.
pub record Yielded (F : Type 0) : Type 0 where
  pub reports : List (Report F)
  pub failed : Bool

module _ {F : Type 0} ⦃fl : Float F⦄ (gis : Postgis F) (s : Search F) (f : ListFilter F) where
  -- The SELECT of ExportRows and ExportEach.
  unfoldable pub export_rows : ℕ → Db F → List (Report F)
  export_rows now db = map (scan_report now) (ordered gis (select (matches s f) db.reports))

  -- `some n` where the query, a scan, the connection or `fn` fails after `n` reports.
  unfoldable pub export_each : Option ℕ → ℕ → Db F → Yielded F
  unfolding export_rows
  export_each none now db = record { reports = export_rows now db; failed = false }
  export_each (some n) now db = record { reports = take n (export_rows now db); failed = true }

-- DISTINCT
unfoldable pub distinct_keys : List Text → List Text
distinct_keys [] = []
distinct_keys (k ∷ ks) = let rest = distinct_keys ks in if has_text ks k then rest else k ∷ rest

-- The keys of the stored objects; what is no object has none.
module _ {F : Type 0} (fmt : Formats F) where
  unfoldable pub object_keys : List (Row F) → List Text
  object_keys [] = []
  object_keys (r ∷ rows) = map (λ a. a.0) (answers_of fmt (non_null r.modular)) ++ object_keys rows

  unfoldable pub modular_keys_raw : Search F → ListFilter F → Db F → List Text
  unfolding object_keys distinct_keys
  modular_keys_raw s f db = distinct_keys (object_keys (select (matches s f) db.reports))
