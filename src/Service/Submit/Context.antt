-- ===== src/Service/Submit/Context.antt =====
-- What Submit reads of its surroundings: the clock at each place that asks it, which database
-- calls fail, the reverse geocoder, the translator and the deployment's thresholds.
use beacon_backend.Prelude.{ℕ, String, Option, Bool, ltb, if◌then◌else◌}
use beacon_backend.Std.Float.{Float}
use beacon_backend.Model.Report.{AdminChain}
use beacon_backend.Store.Db.{Postgis}
use beacon_backend.Store.Emergent.{EmergentConfig, default_emergent_config}

-- The calls of Submit that reach the database, in their order.
pub data Call : Type 0 where
  lookup_id count_burst count_sustained find_duplicate get_crisis assign_crisis : Call
  upsert_building next_version upsert_report refresh_damage commit : Call
  lookup_key detect_emergent read_back : Call

-- translate.Client: none where the service gives no translation.
pub record Translator : Type 0 where
  pub enabled : Bool
  pub target : String
  pub translate : String → Option (String × String)

pub record Env (F : Type 0) : Type 0 where
  pub gis : Postgis F
  pub received_at : ℕ
  pub guarded_at : ℕ
  pub inserted_at : ℕ
  pub read_at : ℕ
  pub fails : Call → Bool
  -- ResolveAdmin at a (lat, lng); none outside every boundary, or on an error.
  pub resolve_admin : F → F → Option AdminChain
  pub translator : Translator
  pub emergent : EmergentConfig F
  pub uuid : String
  pub two_decimals : F → F → String

-- NewReportService: a misconfigured minimum falls back to the defaults.
unfoldable pub service_config : {F : Type 0} ⦃fl : Float F⦄ → EmergentConfig F → EmergentConfig F
service_config cfg = if ltb cfg.min_reports 2 then default_emergent_config else cfg
