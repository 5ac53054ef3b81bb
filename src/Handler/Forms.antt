-- ===== src/Handler/Forms.antt =====
-- internal/handler/formschema.go: GetFormSchema and PatchCrisisForm.
use beacon_backend.Prelude.{String, Option, none, some, List, Bool, not, if◌then◌else◌}
use beacon_backend.Std.{Slice, items}
use beacon_backend.Model.Form.{FormSection, FormOverrides}
use beacon_backend.Model.User.{User}
use beacon_backend.Store.Db.{Db}
use beacon_backend.Store.Crises.{form_overrides, set_form_overrides}
use beacon_backend.Service.Errors.{ok, err}
use beacon_backend.Service.FormSchema.{
  default_form_sections, apply_form_overrides, validate_form_overrides,
}
use beacon_backend.Handler.Reply.{Reply, sent, refused, Handler}
use beacon_backend.Handler.Middleware.{require_mutator}
use beacon_backend.Handler.Scope.{crisis_id, scope_allows_crisis}
use beacon_backend.Handler.Moderation.{may_manage}

-- The body of PatchCrisisForm, whose lists may be absent.
pub record FormPatch : Type 0 where
  pub required : Slice String
  pub disabled : Slice String

abbrev pub overrides_of : FormPatch → FormOverrides
overrides_of b = record { required = items b.required; disabled = items b.disabled }

module _ {F : Type 0} where
  -- A failing read of the overrides serves the defaults.
  unfoldable pub get_form_schema : Bool → Bool → String → Db F → Reply (List FormSection)
  get_form_schema lost_scope lost_overrides query db =
      if lost_scope
      then refused 500 "internal"
      else sent 200 (
          apply_form_overrides default_form_sections
            (if lost_overrides then none else form_overrides db (crisis_id query db)))

  write_form : Bool → String → FormOverrides → Handler F (List FormSection)
  write_form lost id ov db =
      if lost
      then (refused 500 "internal", db)
      else if not (set_form_overrides id ov db).0
      then (refused 404 "not_found", (set_form_overrides id ov db).1)
      else (
        sent 200 (apply_form_overrides default_form_sections (some ov)),
        (set_form_overrides id ov db).1,
      )

  patch_crisis_form_inner :
      Bool → Option User → String → Option FormPatch → Handler F (List FormSection)
  unfolding write_form
  patch_crisis_form_inner lost user id none db =
      if not (may_manage user) then (refused 403 "forbidden", db) else (refused 400 "bad_json", db)
  patch_crisis_form_inner lost user id (some body) db =
      if not (may_manage user)
      then (refused 403 "forbidden", db)
      else elim (validate_form_overrides (overrides_of body)) [
        | err e ↦ (refused 400 "validation", db)
        | ok _ ↦
            if not (scope_allows_crisis user id)
            then (refused 403 "out_of_scope", db)
            else write_form lost id (overrides_of body) db
      ]

  unfoldable pub patch_crisis_form :
      Bool → Option User → String → Option FormPatch → Handler F (List FormSection)
  unfolding patch_crisis_form_inner
  patch_crisis_form lost user id body =
      require_mutator user (patch_crisis_form_inner lost user id body)
