-- ===== src/Store/Db.antt =====
-- The tables of internal/migrations that the modelled statements read and write, one record to a
-- row (a nullable column is an Option), and what PostgreSQL and PostGIS compute for them.
use beacon_backend.Prelude.{ℕ, String, Bool, Option, List}
use beacon_backend.Prelude.Int.{ℤ}
use beacon_backend.Std.{Slice}
use beacon_backend.Model.Report.{PhotoRef, AdminChain, Anonymization}
use beacon_backend.Model.Form.{FormOverrides}

-- A row of `reports`. The jsonb columns hold the values that json.Marshal wrote.
pub record Row (F : Type 0) : Type 0 where
  pub id : String
  pub idempotency_key : String
  pub crisis_id : Option String
  pub submitter_id : Option String
  pub damage : String
  pub possibly_damaged : Bool
  pub verification : String
  pub debris : String
  pub infra_types : Slice String
  pub infra_other_detail : Option String
  pub infra_name : Option String
  pub crisis_nature : Slice String
  pub lat : Option F
  pub lng : Option F
  pub gps_accuracy_m : Option F
  pub building_id : Option String
  pub building_source : Option String
  pub version : ℕ
  pub supersedes_report_id : Option String
  pub plus_code : Option String
  pub landmark : Option String
  pub place : String
  pub photo_url : Option String
  pub desc_original : Option String
  pub desc_original_lang : Option String
  pub desc_translated : Option String
  pub desc_translated_lang : Option String
  pub ai_level : Option String
  pub ai_confidence : Option ℤ
  pub photos : Slice PhotoRef
  pub size_bytes : ℤ
  pub modular : Option String
  pub anonymization : Anonymization
  pub is_mine : Bool
  pub synced : Bool
  pub sync_state : String
  pub captured_at : ℕ
  pub created_at : ℕ
  pub updated_at : ℕ
  pub admin : Option AdminChain
  pub clusters : Slice String
  pub location_resolved : Bool
  pub h3_r8 : Option String

pub record BuildingRow (F : Type 0) : Type 0 where
  pub id : String
  pub crisis_id : Option String
  pub lat : Option F
  pub lng : Option F
  pub current_damage : Option String

pub record CrisisRow (F : Type 0) : Type 0 where
  pub id : String
  pub title : String
  pub area : String
  pub nature : String
  pub center_lat : F
  pub center_lng : F
  pub source : String
  pub started_at : ℕ
  pub radius_km : F
  pub ended_at : Option ℕ
  pub status : String
  pub admin_pcode : Option String
  pub emergent_radius_km : Option F
  pub emergent_window_hrs : Option ℕ
  pub emergent_min_reports : Option ℕ
  pub form_overrides : Option FormOverrides

pub record SubmitterRow : Type 0 where
  pub id : String
  pub anonymous_id : String

-- A row of `report_verification_audit`.
pub record Audit : Type 0 where
  pub report_id : String
  pub from_status : String
  pub to_status : String
  pub actor : String
  pub note : Option String
  pub forced : Bool

-- A row of `report_withdrawals`.
pub record Withdrawal : Type 0 where
  pub report_id : String
  pub submitter_id : Option String
  pub crisis_id : Option String

pub record Db (F : Type 0) : Type 0 where
  pub reports : List (Row F)
  pub buildings : List (BuildingRow F)
  pub crises : List (CrisisRow F)
  pub submitters : List SubmitterRow
  pub audits : List Audit
  pub withdrawals : List Withdrawal

-- `text_lt` is the order of text columns; `dwithin` is ST_DWithin over geography (metres), from a
-- (lat, lng) to a (lat, lng), and `distance` is ST_Distance; `h3_cell` is store.H3CellR8 over the
-- H3 library, "" where that rejects the point; `average` is avg() of a list that is not empty, and
-- `mode` is mode(), none for an empty list.
pub record Postgis (F : Type 0) : Type 0 where
  pub text_lt : String → String → Bool
  pub dwithin : F → F → F → F → F → Bool
  pub distance : F → F → F → F → F
  pub h3_cell : F → F → String
  pub average : List F → F
  pub mode : List String → Option String
