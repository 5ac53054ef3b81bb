-- ===== src/Examples/Overview.antt =====
-- The overview and the profile at concrete inputs.
use beacon_backend.Prelude.{some, List, [], ◌∷◌, ◌++◌, true, false, ◌≡◌, inl, inr, refl, map, All}
use beacon_backend.Prelude.Int.{ℤ}
use beacon_backend.Model.User.{User}
use beacon_backend.Model.Vocabulary.{contains}
use beacon_backend.Store.Db.{Row, Db}
use beacon_backend.Store.Emergent.{distinct}
use beacon_backend.Store.Withdraw.{resolve_submitter_id}
use beacon_backend.Store.Stats.{crisis_age, buckets_for, bucket_of, series_of, time_series}
use beacon_backend.Store.Stats.Laws.{IsStatus}
use beacon_backend.Store.Profile.{derive_badges, profile_of, get_or_create_profile}
use beacon_backend.Store.Profile.Laws.{rewards, earned_badge, get_or_create_profile-unverified}
use beacon_backend.Handler.Stats.{stats_overview}
use beacon_backend.Handler.Stats.Laws.{IsOverview, stats_overview-IsOverview}
use beacon_backend.Fixtures.{whole, flat, pending_row, pending_db, viewer}

abbrev as_it_is : ℤ → ℤ
as_it_is n = n

abbrev regional : User
regional = record viewer { role = "regional_analyst"; crisis_scope = "c1" ∷ [] }

-- Two reports of one crisis, one of them verified, and one of another crisis.
abbrev db : Db ℤ
db = record pending_db {
  reports =
      record (pending_row "p1" "s1") {
        crisis_id = some "c1";
        verification = "verified";
        damage = "complete";
        building_id = some "b1";
      }
      ∷ record (pending_row "p2" "s1") {
        crisis_id = some "c1";
        damage = "partial";
        building_id = some "b2";
      }
      ∷ record (pending_row "p3" "s2") { crisis_id = some "c2" }
      ∷ [];
}

known : All (λ r. IsStatus r.verification) db.reports
known = (inl refl, (inr (inl refl), (inr (inl refl), tt)))

stats_overview-IsOverview_example :
    IsOverview regional db
      (stats_overview as_it_is flat 5000000000 false false (some regional) "c1" db)
stats_overview-IsOverview_example =
    stats_overview-IsOverview as_it_is flat 5000000000 regional db false false "c1" known

counts_test :
    map (λ b. b.count) (time_series 5000000000 "c1" db).0
    ≡ 0 ∷ 0 ∷ 0 ∷ 0 ∷ 0 ∷ 0 ∷ 0 ∷ 0 ∷ 0 ∷ 0 ∷ 0 ∷ 2 ∷ []
unfolding time_series crisis_age buckets_for bucket_of series_of
counts_test = refl

-- Five unverified reports at five buildings.
abbrev unverified : List (Row ℤ)
unverified =
    record (pending_row "q1" "s1") { building_id = some "b3" }
    ∷ record (pending_row "q2" "s1") { building_id = some "b4" }
    ∷ record (pending_row "q3" "s1") { building_id = some "b5" }
    ∷ []

get_or_create_profile-unverified_example :
    rewards
      (get_or_create_profile "u9" "device-1" (record db { reports = db.reports ++ unverified })).0
    ≡ rewards (get_or_create_profile "u9" "device-1" db).0
get_or_create_profile-unverified_example =
    get_or_create_profile-unverified "u9" "device-1" db unverified (refl, (refl, (refl, tt)))

-- They earn the badge for streets, though.
streets_test :
    (earned_badge "streets" (get_or_create_profile "u9" "device-1" db).0.badges ≡ false)
    × (earned_badge "streets"
          (get_or_create_profile "u9" "device-1"
            (record db { reports = db.reports ++ unverified })).0.badges
        ≡ true)
unfolding get_or_create_profile profile_of derive_badges resolve_submitter_id distinct contains
streets_test = (refl, refl)
