-- ===== src/Store/Scan.antt =====
-- internal/store/reports.go: scanReport, reportSelect, GetByID and GetByIdempotencyKey.
use beacon_backend.Prelude.{
  ℕ, ◌-◌, ◌/◌, String, Option, none, some, false, ◌==◌, if◌then◌else◌, find_first,
}
use beacon_backend.Prelude.Int.{ℤ}
use beacon_backend.Std.{or_empty}
use beacon_backend.Std.Float.{Float, of_nat}
use beacon_backend.Model.Vocabulary.{rollup_tier}
use beacon_backend.Model.Report.{AdminRef, AdminChain, ReportDescription, Report}
use beacon_backend.Store.Db.{Row, Db}

abbrev pub or_text : Option String → String → String
or_text none d = d
or_text (some s) d = s

-- `COALESCE(desc_translated, '')`, or the original where that is empty.
unfoldable pub scan_description :
    Option String → Option String → Option String → Option String → Option ReportDescription
scan_description none lang translated translated_lang = none
scan_description (some original) lang translated translated_lang = some (record {
  original = original;
  original_lang = or_text lang "";
  translated = if or_text translated "" == "" then original else or_text translated "";
  translated_lang = translated_lang;
})

abbrev pub pcode : Option AdminRef → Option String
pcode none = none
pcode (some a) = some a.pcode

-- A chain with no level at all counts as no chain.
unfoldable pub scan_admin : Option AdminChain → Option AdminChain
scan_admin none = none
scan_admin (some a) = elim a.adm0 [
  | some _ ↦ some a
  | none ↦ elim a.adm1 [
    | some _ ↦ some a
    | none ↦ elim a.adm2 [ some _ ↦ some a | none ↦ elim a.adm3 [ some _ ↦ some a | none ↦ none ] ]
  ]
]

abbrev pub level : (AdminChain → Option AdminRef) → Option AdminChain → Option String
level f none = none
level f (some a) = pcode (f a)

-- `len(raw) > 0 && string(raw) != "null"`
abbrev pub non_null : Option String → String
non_null none = ""
non_null (some s) = if s == "null" then "" else s

module _ {F : Type 0} ⦃fl : Float F⦄ where
  -- round1(float64(size) / 1e6)
  size_mb : ℤ → F
  size_mb n =
      fl.div (fl.round (fl.mul (fl.div (fl.of_int n) (of_nat 1000000)) (of_nat 10))) (of_nat 10)

  -- `now` is the database's now(); `damage_tier` is a generated column, the rollup of `damage`.
  unfoldable pub scan_report : ℕ → Row F → Report F
  unfolding scan_description scan_admin size_mb rollup_tier
  scan_report now row =
      let admin = scan_admin row.admin in
      record {
        id = row.id;
        idempotency_key = row.idempotency_key;
        crisis_id = or_text row.crisis_id "";
        submitter_id = row.submitter_id;
        damage = row.damage;
        damage_tier = rollup_tier row.damage;
        possibly_damaged = row.possibly_damaged;
        verification = row.verification;
        debris = row.debris;
        infra_types = or_empty row.infra_types;
        infra = or_empty row.infra_types;
        infra_other_detail = row.infra_other_detail;
        infra_name = row.infra_name;
        crisis_nature = or_empty row.crisis_nature;
        crisis = or_empty row.crisis_nature;
        lat = row.lat;
        lng = row.lng;
        location_resolved = row.location_resolved;
        gps_accuracy_meters = row.gps_accuracy_m;
        building_id = row.building_id;
        building_source = row.building_source;
        what3words = row.plus_code;
        plus_code = row.plus_code;
        landmark = row.landmark;
        place = row.place;
        photo_url = row.photo_url;
        location = record {
          lat = row.lat;
          lng = row.lng;
          building_id = row.building_id;
          building_source = row.building_source;
          what3words = row.plus_code;
          plus_code = row.plus_code;
          landmark = row.landmark;
          gps_accuracy_meters = row.gps_accuracy_m;
        };
        admin = admin;
        adm1_pcode = level (λ a. a.adm1) admin;
        adm2_pcode = level (λ a. a.adm2) admin;
        adm3_pcode = level (λ a. a.adm3) admin;
        version = row.version;
        supersedes_report_id = row.supersedes_report_id;
        description =
            scan_description row.desc_original row.desc_original_lang row.desc_translated
              row.desc_translated_lang;
        ai_level = row.ai_level;
        ai_confidence = row.ai_confidence;
        photos = or_empty row.photos;
        size_bytes = row.size_bytes;
        size_mb = size_mb row.size_bytes;
        modular = non_null row.modular;
        anonymization = record row.anonymization { faces_blurred = false; plates_blurred = false };
        clusters = or_empty row.clusters;
        is_mine = row.is_mine;
        synced = row.synced;
        sync = if row.sync_state == "" then "{\"type\":\"Synced\"}" else row.sync_state;
        age_min = (now - row.captured_at) / 60000000;
        captured_at = row.captured_at;
        created_at = some row.created_at;
        updated_at = some row.updated_at;
      }

  -- None where no row is found.
  unfoldable pub get_by_id : ℕ → Db F → String → Option (Report F)
  get_by_id now db id = elim (find_first (λ r. r.id == id) db.reports) [
    | none ↦ none
    | some row ↦ some (scan_report now row)
  ]

  unfoldable pub get_by_idempotency_key : ℕ → Db F → String → Option (Report F)
  get_by_idempotency_key now db key = elim (find_first (λ r. r.idempotency_key == key) db.reports) [
    | none ↦ none
    | some row ↦ some (scan_report now row)
  ]
