-- ===== src/Service/Submit/Guards.antt =====
-- internal/service/report_service.go: enforceSubmitGuards, and the part of Submit before any work
-- is done.
pub mod Laws
use beacon_backend.Prelude.{
  ℕ, ◌-◌, String, Option, none, some, Bool, true, false, ◌||◌, ◌==◌, leb, if◌then◌else◌,
}
use beacon_backend.Std.Float.{Float, of_nat}
use beacon_backend.Model.Report.{Report, SubmitReportRequest}
use beacon_backend.Store.Db.{Db}
use beacon_backend.Store.Scan.{get_by_id}
use beacon_backend.Store.Guards.{count_recent_by_submitter, find_duplicate_by_submitter}
use beacon_backend.Service.Errors.{
  Result, ok, err, ServiceError, rate_limited, duplicate, database, burst, sustained, unavailable,
  ◌>>=◌, ◌>>◌,
}
use beacon_backend.Service.Normalize.{normalize}
use beacon_backend.Service.Validate.{validate}
use beacon_backend.Service.Geography.{is_footprint_report}
use beacon_backend.Service.Submit.Context.{
  Call, lookup_id, count_burst, count_sustained, find_duplicate, Env,
}

-- The windows in microseconds.
abbrev pub rate_limit_burst_max : ℕ
rate_limit_burst_max = 5

abbrev pub rate_limit_burst_window : ℕ
rate_limit_burst_window = 60000000

abbrev pub rate_limit_sustained_max : ℕ
rate_limit_sustained_max = 20

abbrev pub rate_limit_sustained_window : ℕ
rate_limit_sustained_window = 600000000

abbrev pub dedup_window : ℕ
dedup_window = 600000000

abbrev reject_if : Bool → ServiceError → Result (Unit {0})
reject_if true e = err e
reject_if false e = ok tt

abbrev reject_found : Option String → Result (Unit {0})
reject_found none = ok tt
reject_found (some id) = err (duplicate id)

-- A query whose error is passed on.
abbrev attempt {ℓ} : {A : Type ℓ} → Bool → A → Result A
attempt true a = err (database unavailable)
attempt false a = ok a

module _ {F : Type 0} ⦃fl : Float F⦄ (env : Env F) (db : Db F) where
  -- Every resolved pin but a tapped footprint.
  unfoldable pub check_duplicate : String → Report F → Option F → Option F → Result (Unit {0})
  check_duplicate submitter_id r none lng = ok tt
  check_duplicate submitter_id r (some lat) none = ok tt
  check_duplicate submitter_id r (some lat) (some lng) = if is_footprint_report r then ok tt else do
    found ← attempt (env.fails find_duplicate) (
        find_duplicate_by_submitter env.gis db submitter_id lat lng r.captured_at (of_nat 25)
          dedup_window r.id)
    reject_found found

  unfoldable pub enforce_submit_guards : String → Report F → Result (Unit {0})
  unfolding check_duplicate
  enforce_submit_guards submitter_id r = do
    recent ←
        attempt (env.fails count_burst)
          (count_recent_by_submitter db submitter_id (env.guarded_at - rate_limit_burst_window))
    reject_if (leb rate_limit_burst_max recent) (rate_limited burst)
    longer ←
        attempt (env.fails count_sustained)
          (count_recent_by_submitter db submitter_id (env.guarded_at - rate_limit_sustained_window))
    reject_if (leb rate_limit_sustained_max longer) (rate_limited sustained)
    check_duplicate submitter_id r r.lat r.lng

  -- The guards run for a known submitter, unless the id is stored already or the lookup failed.
  unfoldable pub check_guards : Option String → Report F → Result (Unit {0})
  check_guards none r = ok tt
  check_guards (some submitter_id) r =
      if submitter_id == "" || env.fails lookup_id
      then ok tt
      else elim (get_by_id env.guarded_at db r.id) [
        | some _ ↦ ok tt
        | none ↦ enforce_submit_guards submitter_id r
      ]

  -- Normalised, valid, and past the guards.
  unfoldable pub admit : SubmitReportRequest F → Option String → Result (Report F)
  admit req submitter_id =
      let r = normalize env.received_at req submitter_id in
      validate r >>= λ _. check_guards submitter_id r >>= λ _. ok r
