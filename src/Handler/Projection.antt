-- ===== src/Handler/Projection.antt =====
-- internal/handler/handlers.go: publicProjection, what a low-trust caller sees of a report.
use beacon_backend.Prelude.{Option, none, some, List, [], ◌==◌, false, if◌then◌else◌, map}
use beacon_backend.Prelude.Int.{pos}
use beacon_backend.Std.{items}
use beacon_backend.Std.Float.{Float, of_nat}
use beacon_backend.Model.Report.{PhotoRef, Report}

-- PhotoRef{RemoteURL: p.RemoteURL}
abbrev pub cleaned : PhotoRef → PhotoRef
cleaned p = record { local_path = ""; remote_url = p.remote_url; size_bytes = pos 0 }

module _ {F : Type 0} ⦃fl : Float F⦄ where
  -- math.Round(x*1000) / 1000
  unfoldable pub coarsen : F → F
  coarsen x = fl.div (fl.round (fl.mul x (of_nat 1000))) (of_nat 1000)

  abbrev pub coarsened : Option F → Option F
  coarsened none = none
  coarsened (some x) = some (coarsen x)

  unfoldable pub public_projection : Report F → Report F
  public_projection rep = record rep {
    submitter_id = none;
    lat = coarsened rep.lat;
    lng = coarsened rep.lng;
    what3words = none;
    plus_code = none;
    landmark = none;
    building_id = none;
    building_source = none;
    gps_accuracy_meters = none;
    location = record {
      lat = coarsened rep.lat;
      lng = coarsened rep.lng;
      building_id = none;
      building_source = none;
      what3words = none;
      plus_code = none;
      landmark = none;
      gps_accuracy_meters = none;
    };
    infra_name = none;
    description = none;
    clusters = some [];
    ai_level = none;
    ai_confidence = none;
    modular = "";
    anonymization = record {
      exif_stripped = false;
      faces_blurred = false;
      plates_blurred = false;
      anonymous = false;
    };
    idempotency_key = "";
    supersedes_report_id = none;
    photo_url = if rep.verification == "verified" then rep.photo_url else none;
    photos = if rep.verification == "verified" then some (map cleaned (items rep.photos)) else none;
  }

  unfoldable pub public_project_all : List (Report F) → List (Report F)
  public_project_all reps = map public_projection reps
