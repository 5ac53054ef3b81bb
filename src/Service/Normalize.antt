-- ===== src/Service/Normalize.antt =====
-- internal/service/report_service.go: normalize and pick2. The function's error is always nil, so
-- the model returns the report alone. `now` is time.Now() in UTC.
pub mod Laws
use Prim.Native.String
use mathlib.Core.List.{foldl}
use beacon_backend.Prelude.{
  ℕ, String, Option, none, some, List, Bool, true, false, ◌==◌, if◌then◌else◌,
}
use beacon_backend.Prelude.Int.{ℤ, pos, add64}
use beacon_backend.Std.{Slice, items, or_empty, is_empty}
use beacon_backend.Std.Text.{trim_space, equal_fold}
use beacon_backend.Std.Float.{Float, of_nat}
use beacon_backend.Model.Report.{
  PhotoRef, ReportLocation, Anonymization, default_anonymization, Report, SubmitReportRequest,
}

-- The alias stands in when the first list is empty, and a nil list becomes an empty one.
coalesce_list : Slice String → Slice String → Slice String
coalesce_list xs alias = or_empty (if is_empty xs then alias else xs)

module _ {F : Type 0} where
  pair : Option F → Option F → Option (F × F)
  pair (some lat) (some lng) = some (lat, lng)
  pair _ _ = none

  -- The switch over the flat pair, then the nested one.
  candidate_coords : SubmitReportRequest F → Option (F × F)
  unfolding pair
  candidate_coords req = elim (pair req.lat req.lng) [
    | some c ↦ some c
    | none ↦ elim req.location [ none ↦ none | some loc ↦ pair loc.lat loc.lng ]
  ]

  -- The closure `pick`: the flat field, else the nested one.
  pick :
      Option String → Option (ReportLocation F) → (ReportLocation F → Option String) → Option String
  pick (some s) loc nested = some s
  pick none none nested = none
  pick none (some l) nested = nested l

  pick2 : Option F → Option F → Option (ReportLocation F) → Option F
  pick2 (some a) flat loc = some a
  pick2 none (some f) loc = some f
  pick2 none none none = none
  pick2 none none (some l) = l.gps_accuracy_meters

abbrev or_else : Option String → Option String → Option String
or_else (some s) t = some s
or_else none t = t

-- Only the one defined value of buildingSource is kept.
trusted_source : Option String → Option String
trusted_source none = none
trusted_source (some s) = if s == "footprint" then some s else none

total_size : List PhotoRef → ℤ
total_size ps = foldl (λ size p. add64 size p.size_bytes) (pos 0) ps

-- Face and plate blurring is not implemented, so it is never claimed.
honest : Option Anonymization → Anonymization
honest none = record default_anonymization { faces_blurred = false; plates_blurred = false }
honest (some a) = record a { faces_blurred = false; plates_blurred = false }

abbrev resolved_coords {ℓ} : {A : Type ℓ} → Bool → Option A → Option A
resolved_coords true c = c
resolved_coords false c = none

module _ {F : Type 0} ⦃fl : Float F⦄ where
  unfoldable pub normalize : ℕ → SubmitReportRequest F → Option String → Report F
  unfolding coalesce_list candidate_coords pick pick2 trusted_source honest total_size
  normalize now req submitter_id =
      let coords =
        resolved_coords (elim req.location_resolved [ none ↦ true | some b ↦ b ])
          (candidate_coords req) in
      let plus_code =
        or_else (pick req.plus_code req.location (λ l. l.plus_code))
          (pick req.what3words req.location (λ l. l.what3words)) in
      record {
        id = req.id;
        idempotency_key =
            if req.idempotency_key == ""
            then (if req.id == "" then "" else String.◌++◌ "idem-" req.id)
            else req.idempotency_key;
        crisis_id = if req.crisis_id == "auto" then "" else req.crisis_id;
        submitter_id = submitter_id;
        damage = req.damage;
        damage_tier = "";
        possibly_damaged = req.possibly_damaged;
        verification = "pending";
        debris = if req.debris == "" then "unsure" else req.debris;
        infra_types = coalesce_list req.infra_types req.infra;
        infra = none;
        infra_other_detail = req.infra_other_detail;
        infra_name = req.infra_name;
        crisis_nature = coalesce_list req.crisis_nature req.crisis;
        crisis = none;
        lat = elim coords [ none ↦ none | some c ↦ some c.0 ];
        lng = elim coords [ none ↦ none | some c ↦ some c.1 ];
        location_resolved = elim coords [ none ↦ false | some _ ↦ true ];
        gps_accuracy_meters = pick2 req.accuracy_meters req.gps_accuracy_meters req.location;
        building_id = pick req.building_id req.location (λ l. l.building_id);
        building_source =
            trusted_source (pick req.building_source req.location (λ l. l.building_source));
        what3words = plus_code;
        plus_code = plus_code;
        landmark = pick req.landmark req.location (λ l. l.landmark);
        place = if equal_fold (trim_space req.place) "your location" then "" else req.place;
        photo_url = none;
        location = record {
          lat = none;
          lng = none;
          building_id = none;
          building_source = none;
          what3words = none;
          plus_code = none;
          landmark = none;
          gps_accuracy_meters = none;
        };
        admin = none;
        adm1_pcode = none;
        adm2_pcode = none;
        adm3_pcode = none;
        version = 1;
        supersedes_report_id = none;
        description = req.description;
        ai_level = req.ai_level;
        ai_confidence = req.ai_confidence;
        photos = or_empty req.photos;
        size_bytes = elim req.size_bytes [
          | some n ↦ n
          | none ↦ total_size (items (or_empty req.photos))
        ];
        size_mb = of_nat 0;
        modular = req.modular;
        anonymization = honest req.anonymization;
        clusters = or_empty req.clusters;
        is_mine = false;
        synced = true;
        sync = req.sync;
        age_min = 0;
        captured_at = elim req.captured_at [ some t ↦ t | none ↦ now ];
        created_at = none;
        updated_at = none;
      }
