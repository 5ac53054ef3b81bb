-- ===== src/Store/Profile.antt =====
-- internal/store/crisis.go: GetOrCreateProfile and deriveBadges; internal/handler/profile.go is in
-- Handler/Profile. The alias of a submitter is left out.
pub mod Laws
use beacon_backend.Prelude.{
  ℕ, ◌+◌, ◌*◌, String, Option, none, some, List, [], ◌∷◌, Bool, ◌==◌, leb, ltb, if◌then◌else◌, map,
  select, length,
}
use beacon_backend.Std.{points_to}
use beacon_backend.Store.Db.{Row, Db}
use beacon_backend.Store.Emergent.{distinct}
use beacon_backend.Store.Withdraw.{resolve_submitter_id}

abbrev pub points_per_verified_report : ℕ
points_per_verified_report = 10

abbrev pub verified_badge_threshold : ℕ
verified_badge_threshold = 5

-- `progress` is the first number of the label "n/5 verified", none for no label.
pub record Badge : Type 0 where
  pub id : String
  pub name : String
  pub earned : Bool
  pub progress : Option ℕ

pub record Profile : Type 0 where
  pub anonymous_id : String
  pub report_count : ℕ
  pub building_count : ℕ
  pub points : ℕ
  pub badges : List Badge

unfoldable pub derive_badges : ℕ → ℕ → ℕ → List Badge
derive_badges reports buildings verified =
    record { id = "first"; name = "First responder"; earned = leb 1 verified; progress = none }
    ∷ record { id = "streets"; name = "Street mapper"; earned = leb 5 buildings; progress = none }
    ∷ record {
      id = "verified";
      name = "Verified eyes";
      earned = leb verified_badge_threshold verified;
      progress = if leb verified_badge_threshold verified then none else some verified;
    }
    ∷ []

module _ {F : Type 0} where
  -- The reports of a submitter.
  abbrev pub reports_of : String → List (Row F) → List (Row F)
  reports_of submitter rows = select (λ r. points_to r.submitter_id submitter) rows

  abbrev pub verified_of : List (Row F) → ℕ
  verified_of rows = length (select (λ r. r.verification == "verified") rows)

  unfoldable pub profile_of : String → String → List (Row F) → Profile
  unfolding derive_badges
  profile_of anonymous_id submitter rows =
      let mine = reports_of submitter rows in
      let buildings = length (distinct (map (λ r. r.building_id) mine)) in
      record {
        anonymous_id = anonymous_id;
        report_count = length mine;
        building_count = buildings;
        points = verified_of mine * points_per_verified_report;
        badges = derive_badges (length mine) buildings (verified_of mine);
      }

  -- `uuid` is the id of a submitter that is new.
  unfoldable pub get_or_create_profile : String → String → Db F → Profile × Db F
  unfolding profile_of
  get_or_create_profile uuid anonymous_id db =
      let (submitter, known) = resolve_submitter_id uuid anonymous_id db in
      (profile_of anonymous_id submitter known.reports, known)
