-- ===== src/Handler/Reports.antt =====
-- internal/handler/reports.go: SubmitReport and GetReport.
use beacon_backend.Prelude.{
  ℕ, String, Option, none, some, Bool, true, false, not, ◌==◌, if◌then◌else◌,
}
use beacon_backend.Std.Float.{Float}
use beacon_backend.Std.Text.{trim_space}
use beacon_backend.Model.Report.{Report, SubmitReportRequest}
use beacon_backend.Model.User.{User, is_viewer_tier, scope_all, scope_allows}
use beacon_backend.Store.Db.{Db}
use beacon_backend.Store.Scan.{get_by_id}
use beacon_backend.Store.Withdraw.{resolve_submitter_id}
use beacon_backend.Service.Errors.{Result, ok, err}
use beacon_backend.Service.Submit.Context.{Env}
use beacon_backend.Service.Submit.{submit}
use beacon_backend.Handler.Reply.{Reply, sent, refused, Handler, map_service_error}
use beacon_backend.Handler.Projection.{public_projection}

module _ {F : Type 0} ⦃fl : Float F⦄ where
  replied : Result (Option (Report F) × Bool) → Reply (Option (Report F))
  replied (err e) = map_service_error e
  replied (ok (stored, created)) = sent (if created then 201 else 200) stored

  -- A submitter that cannot be resolved is left out.
  identify : Bool → String → String → Db F → Option String × Db F
  identify true uuid device db = (none, db)
  identify false uuid device db =
      (some (resolve_submitter_id uuid device db).0, (resolve_submitter_id uuid device db).1)

  -- `header` is X-Device-Id; the request is none where the body is no JSON of its type.
  unfoldable pub submit_report :
      Env F
      → Bool
      → String
      → String
      → Option (SubmitReportRequest F)
      → Handler F (Option (Report F))
  unfolding replied identify map_service_error
  submit_report env lost uuid header none db = (refused 400 "bad_json", db)
  submit_report env lost uuid header (some req) db =
      if trim_space header == ""
      then (refused 400 "device_id_required", db)
      else let known = identify lost uuid (trim_space header) db in
        let out = submit env req known.0 known.1 in (replied out.0, out.1)

  abbrev public_reply : Report F → Reply (Report F)
  public_reply rep =
      if not (rep.verification == "verified")
      then refused 404 "not_found"
      else sent 200 (public_projection rep)

  unfoldable pub reply_to : Option User → Report F → Reply (Report F)
  reply_to none rep = public_reply rep
  reply_to (some u) rep =
      if (if rep.crisis_id == "" then not (scope_all u) else not (scope_allows u rep.crisis_id))
      then refused 404 "not_found"
      else if is_viewer_tier u
      then public_reply rep
      else sent 200 rep

  unfoldable pub get_report : ℕ → Bool → Option User → String → Db F → Reply (Report F)
  unfolding reply_to
  get_report now true user id db = refused 500 "internal"
  get_report now false user id db = elim (get_by_id now db id) [
    | none ↦ refused 404 "not_found"
    | some rep ↦ reply_to user rep
  ]
