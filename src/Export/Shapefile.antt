-- ===== src/Export/Shapefile.antt =====
-- internal/service/export_shapefile.go: the members of the shapefile. Temporary files and the ZIP
-- container are left out: a member is its name and its bytes.
pub mod Reader
pub mod Records
pub mod Points
pub mod Table
use beacon_backend.Prelude.{
  ℕ, zero, suc, ◌+◌, ◌-◌, ◌*◌, ◌/◌, ◌%◌, Option, none, some, List, [], ◌∷◌, ◌++◌, Bool, true, false,
  ◌||◌, eqb, ltb, if◌then◌else◌, length,
}
use beacon_backend.Std.{items}
use beacon_backend.Std.Text.{codes}
use beacon_backend.Model.Report.{Report}
use beacon_backend.Store.Db.{Postgis}
use beacon_backend.Export.Text.{Text, Formats}
use beacon_backend.Export.Cells.{deref, joined, title_tier, resolved_point}
use beacon_backend.Export.Bytes.{little, big}

-- Of float64: 0.0, math.Float64bits, math.Min and math.Max.
pub record Bits (F : Type 0) : Type 0 where
  pub nought : F
  pub bits : F → ℕ
  pub least : F → F → F
  pub greatest : F → F → F

-- The day of writing, in UTC.
pub record Day : Type 0 where
  pub year : ℕ
  pub month : ℕ
  pub day : ℕ

pub record ShpField (F : Type 0) : Type 0 where
  pub name : Text
  pub width : ℕ
  pub value : Report F → Text

pub record Box (F : Type 0) : Type 0 where
  pub min_x : F
  pub min_y : F
  pub max_x : F
  pub max_y : F

-- What the pass over the reports has written: the bodies of the three members.
pub record Layer (F : Type 0) : Type 0 where
  pub shp : List ℕ
  pub shx : List ℕ
  pub dbf : List ℕ
  pub count : ℕ
  pub offset_words : ℕ
  pub box : Box F

-- The bytes of beacon-reports.shp, .shx, .dbf and .prj.
pub record Members : Type 0 where
  pub shp : List ℕ
  pub shx : List ℕ
  pub dbf : List ℕ
  pub prj : List ℕ

abbrev pub header_len : ℕ
header_len = 100

abbrev pub record_len : ℕ
record_len = 28

abbrev pub wgs84_prj : Text
wgs84_prj =
    codes
      "GEOGCS[\"GCS_WGS_1984\",DATUM[\"D_WGS_1984\",SPHEROID[\"WGS_1984\",6378137,298.257223563]],PRIMEM[\"Greenwich\",0],UNIT[\"Degree\",0.0174532925199433]]"

abbrev pub zeros : ℕ → List ℕ
zeros zero = []
zeros (suc n) = 0 ∷ zeros n

-- A name in n bytes, padded with zeros.
abbrev pub padded : Text → ℕ → List ℕ
padded s zero = []
padded [] (suc n) = 0 ∷ padded [] n
padded (c ∷ s) (suc n) = c ∷ padded s n

abbrev pub printable : ℕ → ℕ
printable c = if ltb c 0x20 || ltb 0x7E c then b'?' else c

unfoldable pub ascii_fixed : Text → ℕ → List ℕ
ascii_fixed s zero = []
ascii_fixed [] (suc n) = b' ' ∷ ascii_fixed [] n
ascii_fixed (c ∷ s) (suc n) = printable c ∷ ascii_fixed s n

module _ {F : Type 0} (fl : Bits F) where
  -- The bytes 4 to 23 and 68 to 99 stay zero.
  unfoldable pub shp_header : ℕ → Box F → List ℕ
  shp_header file_len box =
      big 4 9994
      ++ (zeros 20
          ++ (big 4 (file_len / 2)
              ++ (little 4 1000
                  ++ (little 4 1
                      ++ (little 8 (fl.bits box.min_x)
                          ++ (little 8 (fl.bits box.min_y)
                              ++ (little 8 (fl.bits box.max_x)
                                  ++ (little 8 (fl.bits box.max_y) ++ zeros 32))))))))

  -- One record of the .shp and one of the .shx.
  unfoldable pub point_record : ℕ → F → F → List ℕ
  point_record number x y =
      big 4 number ++ (big 4 10 ++ (little 4 1 ++ (little 8 (fl.bits x) ++ little 8 (fl.bits y))))

  unfoldable pub index_record : ℕ → List ℕ
  index_record offset = big 4 offset ++ big 4 10

  unfoldable pub widen : ℕ → Box F → F → F → Box F
  widen count box x y =
      if eqb count 0 then record { min_x = x; min_y = y; max_x = x; max_y = y } else record {
        min_x = fl.least box.min_x x;
        min_y = fl.least box.min_y y;
        max_x = fl.greatest box.max_x x;
        max_y = fl.greatest box.max_y y;
      }

module _ {F : Type 0} (fmt : Formats F) where
  unfoldable pub shapefile_fields : List (ShpField F)
  shapefile_fields =
      record { name = codes "id"; width = 24; value = λ r. codes r.id }
      ∷ record { name = codes "damage"; width = 12; value = λ r. title_tier r.damage_tier }
      ∷ record { name = codes "infra"; width = 40; value = λ r. joined r.infra_types }
      ∷ record { name = codes "hazard"; width = 40; value = λ r. joined r.crisis_nature }
      ∷ record { name = codes "verif"; width = 10; value = λ r. codes r.verification }
      ∷ record { name = codes "pluscode"; width = 16; value = λ r. deref r.plus_code }
      ∷ record { name = codes "clusters"; width = 40; value = λ r. joined r.clusters }
      ∷ record { name = codes "timestamp"; width = 20; value = λ r. fmt.show_time r.captured_at }
      ∷ []

  abbrev pub cells_of : List (ShpField F) → Report F → List ℕ
  cells_of [] r = []
  cells_of (f ∷ fields) r = ascii_fixed (f.value r) f.width ++ cells_of fields r

  -- The deletion flag and the fields.
  unfoldable pub table_record : Report F → List ℕ
  unfolding shapefile_fields
  table_record r = b' ' ∷ cells_of shapefile_fields r

  abbrev pub widths : List (ShpField F) → ℕ
  widths [] = 0
  widths (f ∷ fields) = f.width + widths fields

  abbrev pub descriptors : List (ShpField F) → List ℕ
  descriptors [] = []
  descriptors (f ∷ fields) =
      padded f.name 11
      ++ (b'C' ∷ (zeros 4 ++ ((f.width % 256) ∷ 0 ∷ (zeros 14 ++ descriptors fields))))

  unfoldable pub dbf_header : Day → ℕ → List ℕ
  unfolding shapefile_fields
  dbf_header today count =
      let record_size = 1 + widths shapefile_fields in
      let header_size = 32 + 32 * length shapefile_fields + 1 in
      0x03
      ∷ ((today.year - 1900) % 256)
      ∷ (today.month % 256)
      ∷ (today.day % 256)
      ∷ (little 4 count
          ++ (little 2 header_size
              ++ (little 2 record_size
                  ++ (zeros 20 ++ (descriptors shapefile_fields ++ 0x0D ∷ [])))))

module _ {F : Type 0} (fmt : Formats F) (gis : Postgis F) (fl : Bits F) where
  unfoldable pub add_report : Layer F → Report F → Layer F
  add_report l r = elim (resolved_point fmt gis r) [
    | none ↦ l
    | some (x, y) ↦ record {
      shp = l.shp ++ point_record fl (l.count + 1) x y;
      shx = l.shx ++ index_record fl l.offset_words;
      dbf = l.dbf ++ table_record fmt r;
      count = l.count + 1;
      offset_words = l.offset_words + record_len / 2;
      box = widen fl l.count l.box x y;
    }
  ]

  unfoldable pub add_reports : Layer F → List (Report F) → Layer F
  add_reports l [] = l
  add_reports l (r ∷ reports) = add_reports (add_report l r) reports

  abbrev pub empty_layer : Layer F
  empty_layer = record {
    shp = [];
    shx = [];
    dbf = [];
    count = 0;
    offset_words = header_len / 2;
    box = record { min_x = fl.nought; min_y = fl.nought; max_x = fl.nought; max_y = fl.nought };
  }

  -- StreamShapefile
  unfoldable pub stream_shapefile : Day → List (Report F) → Members
  unfolding add_reports
  stream_shapefile today reports =
      let l = add_reports empty_layer reports in
      record {
        shp = shp_header fl (header_len + l.count * record_len) l.box ++ l.shp;
        shx = shp_header fl (header_len + l.count * 8) l.box ++ l.shx;
        dbf = dbf_header fmt today l.count ++ (l.dbf ++ 0x1A ∷ []);
        prj = wgs84_prj;
      }
