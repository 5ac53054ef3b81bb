-- ===== src/Handler/Moderation.antt =====
-- internal/handler/verification.go: PatchVerification; internal/handler/crisis.go: SetCrisisStatus;
-- each behind requireMutator, as internal/api/router.go mounts them.
use beacon_backend.Prelude.{
  ℕ, String, Option, none, some, List, [], ◌∷◌, Bool, false, not, ◌==◌, if◌then◌else◌,
}
use beacon_backend.Std.Float.{Float}
use beacon_backend.Model.Vocabulary.{verifications, contains}
use beacon_backend.Model.Report.{Report, VerificationRequest}
use beacon_backend.Model.User.{User, can_manage_crisis}
use beacon_backend.Store.Db.{CrisisRow}
use beacon_backend.Store.Crises.{set_crisis_status}
use beacon_backend.Store.Verification.{
  Update, photo_required, missing, updated, update_verification,
}
use beacon_backend.Handler.Reply.{Reply, sent, refused, Handler}
use beacon_backend.Handler.Middleware.{require_mutator}
use beacon_backend.Handler.Scope.{
  MutationScope, scope_ok, scope_not_found, scope_forbidden, scope_internal, scope_report_mutation,
  scope_allows_crisis,
}

-- Which of a handler's two database calls fail.
pub record Faults : Type 0 where
  pub scope_check : Bool
  pub write : Bool

abbrev actor_of : Option User → String
actor_of none = "analyst"
actor_of (some u) = u.email

abbrev pub requested : VerificationRequest → String
requested req = if req.status == "" then req.verification else req.status

module _ {F : Type 0} ⦃fl : Float F⦄ where
  abbrev answered : Update F → Reply (Report F)
  answered photo_required = refused 409 "photo_required"
  answered missing = refused 404 "not_found"
  answered (updated r) = sent 200 r

  write_verification : ℕ → Bool → Option User → String → VerificationRequest → Handler F (Report F)
  write_verification now lost user id req db =
      if lost
      then (refused 500 "internal", db)
      else let out =
          update_verification now id (requested req) (actor_of user) req.note req.force db in
        (answered out.0, out.1)

  scoped_verification :
      MutationScope → ℕ → Bool → Option User → String → VerificationRequest → Handler F (Report F)
  unfolding write_verification
  scoped_verification scope_not_found now lost user id req db = (refused 404 "not_found", db)
  scoped_verification scope_forbidden now lost user id req db = (refused 403 "out_of_scope", db)
  scoped_verification scope_internal now lost user id req db = (refused 500 "internal", db)
  scoped_verification scope_ok now lost user id req db = write_verification now lost user id req db

  patch_verification_inner :
      ℕ → Faults → Option User → String → Option VerificationRequest → Handler F (Report F)
  unfolding scoped_verification
  patch_verification_inner now faults user id none db = (refused 400 "bad_json", db)
  patch_verification_inner now faults user id (some req) db =
      if not (contains verifications (requested req))
      then (refused 400 "validation", db)
      else scoped_verification (scope_report_mutation faults.scope_check user id db) now
          faults.write user id req db

  unfoldable pub patch_verification :
      ℕ → Faults → Option User → String → Option VerificationRequest → Handler F (Report F)
  unfolding patch_verification_inner
  patch_verification now faults user id req =
      require_mutator user (patch_verification_inner now faults user id req)

abbrev pub lifecycle : List String
lifecycle = "active" ∷ "dismissed" ∷ "closed" ∷ "proposed" ∷ []

abbrev pub may_manage : Option User → Bool
may_manage none = false
may_manage (some u) = can_manage_crisis u

module _ {F : Type 0} where
  abbrev crisis_reply : Option (CrisisRow F) → Reply (CrisisRow F)
  crisis_reply none = refused 404 "not_found"
  crisis_reply (some c) = sent 200 c

  change_status_inner : ℕ → Bool → Option User → String → Option String → Handler F (CrisisRow F)
  change_status_inner now lost user id none db =
      if not (may_manage user)
      then (refused 403 "forbidden", db)
      else (refused 400 "bad_request", db)
  change_status_inner now lost user id (some status) db =
      if not (may_manage user)
      then (refused 403 "forbidden", db)
      else if not (contains lifecycle status)
      then (refused 400 "bad_request", db)
      else if not (scope_allows_crisis user id)
      then (refused 403 "out_of_scope", db)
      else if lost
      then (refused 500 "internal", db)
      else (
        crisis_reply (set_crisis_status now id status db).0,
        (set_crisis_status now id status db).1,
      )

  unfoldable pub change_status :
      ℕ → Bool → Option User → String → Option String → Handler F (CrisisRow F)
  unfolding change_status_inner
  change_status now lost user id status =
      require_mutator user (change_status_inner now lost user id status)
