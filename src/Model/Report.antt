-- ===== src/Model/Report.antt =====
-- internal/model/report.go: the report document and the submit request. A pointer is an Option; a
-- slice may be nil; raw JSON is its text, empty when absent; an instant counts microseconds from
-- the earliest one that the database can hold, and a zero time.Time is none.
use beacon_backend.Prelude.{ℕ, String, Bool, true, false, Option}
use beacon_backend.Prelude.Int.{ℤ}
use beacon_backend.Std.{Slice}

pub record PhotoRef : Type 0 where
  pub local_path : String
  pub remote_url : Option String
  pub size_bytes : ℤ

pub record ReportLocation (F : Type 0) : Type 0 where
  pub lat : Option F
  pub lng : Option F
  pub building_id : Option String
  pub building_source : Option String
  pub what3words : Option String
  pub plus_code : Option String
  pub landmark : Option String
  pub gps_accuracy_meters : Option F

pub record ReportDescription : Type 0 where
  pub original : String
  pub original_lang : String
  pub translated : String
  pub translated_lang : Option String

pub record AdminRef : Type 0 where
  pub pcode : String
  pub name : String

pub record AdminChain : Type 0 where
  pub adm0 : Option AdminRef
  pub adm1 : Option AdminRef
  pub adm2 : Option AdminRef
  pub adm3 : Option AdminRef

pub record Anonymization : Type 0 where
  pub anonymous : Bool
  pub exif_stripped : Bool
  pub faces_blurred : Bool
  pub plates_blurred : Bool

abbrev pub default_anonymization : Anonymization
default_anonymization = record {
  anonymous = true;
  exif_stripped = true;
  faces_blurred = false;
  plates_blurred = false;
}

pub record Report (F : Type 0) : Type 0 where
  pub id : String
  pub idempotency_key : String
  pub crisis_id : String
  pub submitter_id : Option String
  pub damage : String
  pub damage_tier : String
  pub possibly_damaged : Bool
  pub verification : String
  pub debris : String
  pub infra_types : Slice String
  pub infra : Slice String
  pub infra_other_detail : Option String
  pub infra_name : Option String
  pub crisis_nature : Slice String
  pub crisis : Slice String
  pub lat : Option F
  pub lng : Option F
  pub location_resolved : Bool
  pub gps_accuracy_meters : Option F
  pub building_id : Option String
  pub building_source : Option String
  pub what3words : Option String
  pub plus_code : Option String
  pub landmark : Option String
  pub place : String
  pub photo_url : Option String
  pub location : ReportLocation F
  pub admin : Option AdminChain
  pub adm1_pcode : Option String
  pub adm2_pcode : Option String
  pub adm3_pcode : Option String
  pub version : ℕ
  pub supersedes_report_id : Option String
  pub description : Option ReportDescription
  pub ai_level : Option String
  pub ai_confidence : Option ℤ
  pub photos : Slice PhotoRef
  pub size_bytes : ℤ
  pub size_mb : F
  pub modular : String
  pub anonymization : Anonymization
  pub clusters : Slice String
  pub is_mine : Bool
  pub synced : Bool
  pub sync : String
  pub age_min : ℕ
  pub captured_at : ℕ
  pub created_at : Option ℕ
  pub updated_at : Option ℕ

pub record SubmitReportRequest (F : Type 0) : Type 0 where
  pub id : String
  pub idempotency_key : String
  pub crisis_id : String
  pub damage : String
  pub possibly_damaged : Bool
  pub debris : String
  pub infra_types : Slice String
  pub infra : Slice String
  pub infra_other_detail : Option String
  pub infra_name : Option String
  pub crisis_nature : Slice String
  pub crisis : Slice String
  pub lat : Option F
  pub lng : Option F
  pub location_resolved : Option Bool
  pub accuracy_meters : Option F
  pub location : Option (ReportLocation F)
  pub building_id : Option String
  pub building_source : Option String
  pub what3words : Option String
  pub plus_code : Option String
  pub landmark : Option String
  pub gps_accuracy_meters : Option F
  pub place : String
  pub description : Option ReportDescription
  pub ai_level : Option String
  pub ai_confidence : Option ℤ
  pub photos : Slice PhotoRef
  pub size_bytes : Option ℤ
  pub modular : String
  pub anonymization : Option Anonymization
  pub sync : String
  pub captured_at : Option ℕ
  pub clusters : Slice String

-- internal/model/report.go: VerificationRequest
pub record VerificationRequest : Type 0 where
  pub status : String
  pub verification : String
  pub note : Option String
  pub force : Bool
