-- ===== src/Model/Crisis.antt =====
-- internal/model/crisis.go: crises, buildings and profiles.
use beacon_backend.Prelude.{ℕ, String, Bool, Option}
use beacon_backend.Prelude.Int.{ℤ}

pub record Crisis (F : Type 0) : Type 0 where
  pub id : String
  pub title : String
  pub area : String
  pub nature : String
  pub lat : F
  pub lng : F
  pub center_lat : F
  pub center_lng : F
  pub source : String
  pub started_at : ℕ
  pub started_ago_hrs : ℕ
  pub glide : Option String
  pub response_level : Option ℤ
  pub radius_km : F
  pub ended_at : Option ℕ
  pub status : String
  pub response_id : Option String
  pub report_count : ℕ
  pub distinct_submitters : ℕ
  pub distance_km : Option F
  pub covers : Option Bool

pub record Building (F : Type 0) : Type 0 where
  pub id : String
  pub crisis_id : String
  pub lat : Option F
  pub lng : Option F
  pub current_damage : Option String
