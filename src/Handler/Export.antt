-- ===== src/Handler/Export.antt =====
-- internal/handler/export.go: ExportReports, which requireAnalyst guards. Headers of the reply are
-- left out.
pub mod Reached
pub mod Holds
pub mod Laws
use beacon_backend.Prelude.{
  ℕ, zero, String, Option, none, some, List, [], ◌∷◌, Bool, true, false, not, ◌||◌, ◌==◌,
  if◌then◌else◌, map, take,
}
use beacon_backend.Std.Float.{Float}
use beacon_backend.Model.Report.{Report}
use beacon_backend.Model.User.{User}
use beacon_backend.Store.Db.{Db, Postgis}
use beacon_backend.Store.Listing.{ListFilter, Search}
use beacon_backend.Store.Exports.{Yielded, export_each, modular_keys_raw}
use beacon_backend.Export.Text.{Text, Formats}
use beacon_backend.Export.Columns.{extra_columns_from_keys}
use beacon_backend.Export.Csv.{csv_columns, stream_csv}
use beacon_backend.Export.Feature.{Feature, geojson_feature}
use beacon_backend.Export.Kml.{begun_kml, stream_kml}
use beacon_backend.Export.Shapefile.{Bits, Box, Day, Members, stream_shapefile}
use beacon_backend.Export.Geopackage.{Arg, gpkg_attr_cols, stream_gpkg}
use beacon_backend.Handler.Reply.{Reply, sent, refused}
use beacon_backend.Handler.Scope.{scoped_crisis}
use beacon_backend.Handler.Listing.{viewer_tier}

-- The parameters as the query helpers read them; `bbox` is none where its text is no box.
pub record ExportQuery (F : Type 0) : Type 0 where
  pub format : String
  pub crisis_id : String
  pub bbox : Option (Option (F × F × F × F))
  pub damage : List String
  pub verification : List String
  pub q : String
  pub adm2_pcode : Option String
  pub adm3_pcode : Option String

pub data Body (F : Type 0) : Type 0 where
  geojson : List (Feature F) → Body F
  csv : Text → Body F
  gpkg : Text × Text × List (List Arg) × Box F → Body F
  kml : Text → Body F
  shapefile : Members → Body F
  -- What was sent of a streamed format before the rows broke off: features, the last of which may
  -- be cut short, or the beginning of a text.
  geojson_cut : List (Feature F) → Body F
  csv_cut : Text → Body F
  kml_cut : Text → Body F

-- What fails: resolving the crisis, the query of the keys, building a binary container, and the rows,
-- which break off after a number of reports. `flushed` is how much of what was written then had left
-- the buffer, in features or in codes.
pub record ExportOutage : Type 0 where
  pub scope : Bool
  pub keys : Bool
  pub build : Bool
  pub rows : Option ℕ
  pub flushed : ℕ

-- What an export is written with; `world` is the box that the extent of a GeoPackage starts from.
pub record Press (F : Type 0) : Type 0 where
  pub fmt : Formats F
  pub gis : Postgis F
  pub search : Search F
  pub fl : Bits F
  pub world : Box F
  pub today : Day
  pub now : ℕ

module _ {F : Type 0} where
  unfoldable pub export_filter : String → Option (F × F × F × F) → ExportQuery F → ListFilter F
  export_filter cid bbox query = record {
    crisis_id = cid;
    crisis_ids = [];
    damage = query.damage;
    verification = query.verification;
    q = query.q;
    mine = false;
    submitter_id = none;
    building_id = none;
    adm1_pcode = none;
    adm2_pcode = query.adm2_pcode;
    adm3_pcode = query.adm3_pcode;
    cluster = none;
    bbox = bbox;
    limit = 0;
    offset = 0;
    cursor = none;
  }

module _ {F : Type 0} ⦃real : Float F⦄ (p : Press F) (outage : ExportOutage) where
  -- `fails` in front of what is then not reached.
  abbrev pub unless : Bool → String → Body F → Reply (Body F)
  unless fails code body = if fails then refused 500 code else sent 200 body

  -- The three streamed formats: the status is sent before the first row, and an error of the rows
  -- ends the text where it is.
  unfoldable pub geojson_of : Yielded F → Body F
  geojson_of src =
      let features = map (geojson_feature p.fmt p.gis) src.reports in
      if src.failed then geojson_cut (take outage.flushed features) else geojson features

  unfoldable pub csv_of : List Text → Yielded F → Body F
  csv_of keys src =
      let t = stream_csv p.fmt p.gis (extra_columns_from_keys p.fmt keys csv_columns) src.reports in
      if src.failed then csv_cut (take outage.flushed t) else csv t

  unfoldable pub kml_of : Yielded F → Body F
  kml_of src =
      if src.failed
      then kml_cut (take outage.flushed (begun_kml p.fmt p.gis src.reports))
      else kml (stream_kml p.fmt p.gis src.reports)

  -- The two containers, which are built before anything is sent.
  unfoldable pub gpkg_of : List Text → Yielded F → Reply (Body F)
  gpkg_of keys src = unless (src.failed || outage.build) "internal" (
      gpkg (
        stream_gpkg p.fmt p.gis p.fl p.world (extra_columns_from_keys p.fmt keys gpkg_attr_cols)
          src.reports))

  unfoldable pub shapefile_of : Yielded F → Reply (Body F)
  shapefile_of src =
      unless (src.failed || outage.build) "internal"
        (shapefile (stream_shapefile p.fmt p.gis p.fl p.today src.reports))

  -- The switch over the formats. The keys are of the tables `earlier`, the rows of `db`.
  unfoldable pub export_as : String → ListFilter F → Db F → Db F → Reply (Body F)
  unfolding geojson_of csv_of kml_of gpkg_of shapefile_of
  export_as format f earlier db =
      let src = export_each p.gis p.search f outage.rows p.now db in
      let keys = modular_keys_raw p.fmt p.search f earlier in
      if format == "geojson"
      then sent 200 (geojson_of src)
      else if format == "csv"
      then unless outage.keys "internal" (csv_of keys src)
      else if format == "gpkg"
      then (if outage.keys then refused 500 "internal" else gpkg_of keys src)
      else if format == "kml"
      then sent 200 (kml_of src)
      else if format == "shapefile" || format == "shp"
      then shapefile_of src
      else refused 400 "bad_format"

  abbrev pub format_of : ExportQuery F → String
  format_of query = if query.format == "" then "geojson" else query.format

  unfoldable pub export_within :
      Option String → Option (F × F × F × F) → ExportQuery F → Db F → Db F → Reply (Body F)
  unfolding export_as export_filter
  export_within none bbox query earlier db = refused 403 "out_of_scope"
  export_within (some cid) bbox query earlier db =
      export_as (format_of query) (export_filter cid bbox query) earlier db

  -- The crisis and the keys are looked up in `earlier`, before the rows are read from `db`.
  unfoldable pub export_reports : Option User → ExportQuery F → Db F → Db F → Reply (Body F)
  unfolding export_within
  export_reports user query earlier db =
      if viewer_tier user then refused 403 "forbidden" else elim query.bbox [
        | none ↦ refused 400 "bad_bbox"
        | some bbox ↦
            if outage.scope
            then refused 500 "internal"
            else export_within (scoped_crisis user query.crisis_id earlier) bbox query earlier db
      ]
