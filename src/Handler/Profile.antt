-- ===== src/Handler/Profile.antt =====
-- internal/handler/profile.go.
use beacon_backend.Prelude.{String, Bool, ◌==◌, if◌then◌else◌}
use beacon_backend.Std.Text.{trim_space}
use beacon_backend.Store.Profile.{Profile, get_or_create_profile}
use beacon_backend.Handler.Reply.{sent, refused, Handler}

abbrev demo_anonymous_id : String
demo_anonymous_id = "A4-92K"

-- `header` is X-Device-Id.
unfoldable pub anonymous_id_of : String → String
anonymous_id_of header = let d = trim_space header in if d == "" then demo_anonymous_id else d

module _ {F : Type 0} where
  -- `lost` where the INSERT fails and `broken` where the SELECT after it does; `uuid` is the id of a
  -- submitter that is new.
  unfoldable pub get_profile : String → Bool → Bool → String → Handler F Profile
  unfolding anonymous_id_of
  get_profile uuid lost broken header db =
      let (profile, known) = get_or_create_profile uuid (anonymous_id_of header) db in
      if lost
      then (refused 500 "internal", db)
      else if broken
      then (refused 500 "internal", known)
      else (sent 200 profile, known)

  -- The retired endpoint does nothing.
  unfoldable pub award_points : Handler F Profile
  award_points db = (refused 410 "gone", db)
