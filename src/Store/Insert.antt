-- ===== src/Store/Insert.antt =====
-- internal/store/write.go: UpsertReport, UpsertBuilding, NextVersionForBuilding and
-- RefreshBuildingCurrentDamage; the constraints of internal/migrations that an insert meets.
pub mod Laws
use beacon_backend.Prelude.{
  ℕ, ◌+◌, String, Option, none, some, List, [], ◌∷◌, ◌++◌, Bool, true, false, not, ◌&&◌, ◌||◌, ◌==◌,
  leb, ltb, eqb, if◌then◌else◌, any, all, is_some, select, length, map,
}
use beacon_backend.Prelude.Int.{ℤ, pos, negsuc}
use beacon_backend.Std.{Slice, items, or_empty, is_empty, is_blank, points_to}
use beacon_backend.Model.Vocabulary.{
  damage_tiers, verifications, debris_states, infra_types_all, crisis_natures, contains,
}
use beacon_backend.Model.Report.{ReportDescription, Report}
use beacon_backend.Model.Crisis.{Building}
use beacon_backend.Service.Errors.{
  SqlError, check_violation, unique_violation, foreign_key_violation,
}
use beacon_backend.Store.Db.{Row, BuildingRow, Db, Postgis}

-- A statement: what it returns, or the error that the driver reports, and the tables after it.
pub data Sql (A : Type 0) : Type 0 where
  done : A → Sql A
  failed : SqlError → Sql A

-- "" is stored as NULL.
abbrev pub null_if_empty : String → Option String
null_if_empty s = if s == "" then none else some s

abbrev pub stored_modular : String → Option String
stored_modular s = if s == "" || s == "null" then none else some s

-- Only a genuine translation is stored.
unfoldable pub stored_translation : Option ReportDescription → Option String
stored_translation none = none
stored_translation (some d) =
    if d.translated == "" || d.translated == d.original then none else some d.translated

abbrev pub stored_lang : Option ReportDescription → Option String
stored_lang none = none
stored_lang (some d) = d.translated_lang

abbrev pub stored_original : Option ReportDescription → Option String
stored_original none = none
stored_original (some d) = some d.original

abbrev pub stored_original_lang : Option ReportDescription → Option String
stored_original_lang none = none
stored_original_lang (some d) = some d.original_lang

abbrev or_now : Option ℕ → ℕ → ℕ
or_now none now = now
or_now (some t) now = t

module _ {F : Type 0} (gis : Postgis F) where
  stored_cell : Option F → Option F → Option String
  stored_cell (some lat) (some lng) = null_if_empty (gis.h3_cell lat lng)
  stored_cell _ _ = none

  -- The row that the INSERT writes.
  unfoldable pub row_of : ℕ → Report F → Row F
  unfolding stored_translation stored_cell
  row_of now r = record {
    id = r.id;
    idempotency_key = r.idempotency_key;
    crisis_id = null_if_empty r.crisis_id;
    submitter_id = r.submitter_id;
    damage = r.damage;
    possibly_damaged = r.possibly_damaged;
    verification = r.verification;
    debris = r.debris;
    infra_types = r.infra_types;
    infra_other_detail = r.infra_other_detail;
    infra_name = r.infra_name;
    crisis_nature = r.crisis_nature;
    lat = r.lat;
    lng = r.lng;
    gps_accuracy_m = r.gps_accuracy_meters;
    building_id = r.building_id;
    building_source = r.building_source;
    version = r.version;
    supersedes_report_id = r.supersedes_report_id;
    plus_code = r.plus_code;
    landmark = r.landmark;
    place = r.place;
    photo_url = none;
    desc_original = stored_original r.description;
    desc_original_lang = stored_original_lang r.description;
    desc_translated = stored_translation r.description;
    desc_translated_lang = stored_lang r.description;
    ai_level = r.ai_level;
    ai_confidence = r.ai_confidence;
    photos = r.photos;
    size_bytes = r.size_bytes;
    modular = stored_modular r.modular;
    anonymization = r.anonymization;
    is_mine = r.is_mine;
    synced = r.synced;
    sync_state = if r.sync == "" then "{\"type\":\"Synced\"}" else r.sync;
    captured_at = r.captured_at;
    created_at = or_now r.created_at now;
    updated_at = or_now r.updated_at now;
    admin = r.admin;
    clusters = or_empty r.clusters;
    location_resolved = r.location_resolved;
    h3_r8 = stored_cell r.lat r.lng;
  }

-- ai_confidence BETWEEN 0 AND 100; a NULL passes a CHECK.
abbrev pub is_percent : Option ℤ → Bool
is_percent none = true
is_percent (some (pos n)) = leb n 100
is_percent (some (negsuc n)) = false

-- The type of the column. What does not fit it the driver already refuses, which `passes_checks`
-- counts as a CHECK that fails: it is an error before any row is written either way.
abbrev pub is_smallint : Option ℤ → Bool
is_smallint none = true
is_smallint (some (pos n)) = leb n 32767
is_smallint (some (negsuc n)) = leb n 32767

abbrev is_tier : Option String → Bool
is_tier none = true
is_tier (some l) = contains damage_tiers l

-- `xs <@ ARRAY[...]` on a column that is NOT NULL.
abbrev is_subset : List String → Slice String → Bool
is_subset set none = false
is_subset set (some xs) = all (contains set) xs

-- A foreign key: a NULL references nothing.
abbrev references {ℓ} : {A : Type ℓ} → (A → String) → List A → Option String → Bool
references key table none = true
references key table (some id) = any (λ row. key row == id) table

module _ {F : Type 0} where
  -- The CHECK and NOT NULL constraints of `reports`.
  unfoldable pub passes_checks : Row F → Bool
  passes_checks row =
      contains damage_tiers row.damage
      && contains verifications row.verification
      && contains debris_states row.debris
      && is_tier row.ai_level
      && is_percent row.ai_confidence
      && is_subset infra_types_all row.infra_types
      && is_subset crisis_natures row.crisis_nature
      && is_some row.clusters
      && (if row.location_resolved
          then is_some row.lat && is_some row.lng
          else not (is_blank row.landmark))

  -- The foreign keys of `reports`.
  unfoldable pub references_exist : Db F → Row F → Bool
  references_exist db row =
      references (λ c. c.id) db.crises row.crisis_id
      && references (λ s. s.id) db.submitters row.submitter_id
      && references (λ b. b.id) db.buildings row.building_id
      && references (λ r. r.id) db.reports row.supersedes_report_id

  -- INSERT ... ON CONFLICT (id) DO NOTHING: CHECK constraints first, then the conflict on the id,
  -- then the unique idempotency key, then the foreign keys. True where a row was inserted.
  unfoldable pub insert_report : Row F → Db F → Sql Bool × Db F
  insert_report row db =
      if not (passes_checks row)
      then (failed check_violation, db)
      else if any (λ r. r.id == row.id) db.reports
      then (done false, db)
      else if any (λ r. r.idempotency_key == row.idempotency_key) db.reports
      then (failed unique_violation, db)
      else if not (references_exist db row)
      then (failed foreign_key_violation, db)
      else (done true, record db { reports = db.reports ++ row ∷ [] })

  unfoldable pub upsert_report : Postgis F → ℕ → Report F → Db F → Sql Bool × Db F
  upsert_report gis now r db = insert_report (row_of gis now r) db

  -- COALESCE(EXCLUDED.current_damage, buildings.current_damage)
  unfoldable pub refreshed : Option String → BuildingRow F → BuildingRow F
  refreshed none b = b
  refreshed (some d) b = record b { current_damage = some d }

  abbrev pub on_building : String → (BuildingRow F → BuildingRow F) → BuildingRow F → BuildingRow F
  on_building id f b = if b.id == id then f b else b

  -- INSERT ... ON CONFLICT (id) DO UPDATE of the damage alone.
  unfoldable pub upsert_building : Building F → Db F → Sql (Unit {0}) × Db F
  unfolding refreshed
  upsert_building b db =
      if any (λ row. row.id == b.id) db.buildings
      then (
        done tt,
        record db { buildings = map (on_building b.id (refreshed b.current_damage)) db.buildings },
      )
      else if not (references (λ c. c.id) db.crises (null_if_empty b.crisis_id))
      then (failed foreign_key_violation, db)
      else (
        done tt,
        record db {
          buildings =
              db.buildings
              ++ record {
                id = b.id;
                crisis_id = null_if_empty b.crisis_id;
                lat = b.lat;
                lng = b.lng;
                current_damage = b.current_damage;
              }
                ∷ [];
        },
      )

  -- ORDER BY captured_at DESC, id DESC: whether the first row stands before the second.
  unfoldable pub before : Postgis F → Row F → Row F → Bool
  before gis a b =
      ltb b.captured_at a.captured_at || (eqb a.captured_at b.captured_at && gis.text_lt b.id a.id)

  -- ... LIMIT 1
  unfoldable pub newest : Postgis F → List (Row F) → Option (Row F)
  newest gis [] = none
  newest gis (r ∷ rs) = elim (newest gis rs) [
    | none ↦ some r
    | some s ↦ if before gis r s then some r else some s
  ]

  abbrev pub of_building : String → Row F → Bool
  of_building id row = points_to row.building_id id

  abbrev id_of : Option (Row F) → Option String
  id_of none = none
  id_of (some row) = some row.id

  -- The next version and the report that it supersedes.
  unfoldable pub next_version : Postgis F → String → Db F → ℕ × Option String
  unfolding newest before
  next_version gis building_id db =
      let chain = select (of_building building_id) db.reports in
      (length chain + 1, id_of (newest gis chain))

  abbrev damage_of : Option (Row F) → Option String
  damage_of none = none
  damage_of (some row) = some row.damage

  unfoldable pub refresh_building_current_damage : Postgis F → String → Db F → Db F
  unfolding newest before
  refresh_building_current_damage gis id db =
      let latest = damage_of (newest gis (select (of_building id) db.reports)) in
      record db {
        buildings = map (on_building id (λ b. record b { current_damage = latest })) db.buildings;
      }
