-- ===== src/Service/Submit/Guards/Laws.antt =====
-- When the anti-abuse guards let a report pass.
use beacon_backend.Prelude.{
  ℕ, ◌-◌, ◌<◌, String, Option, none, some, List, [], ◌∷◌, Bool, true, false, ◌≡◌, ◌⊎◌, ◌↔◌, refl,
  arith, any, is_some, select,
}
use beacon_backend.Std.Float.{Float, of_nat}
use beacon_backend.Model.Report.{Report}
use beacon_backend.Store.Db.{Row, Db, Postgis}
use beacon_backend.Store.Insert.{newest}
use beacon_backend.Store.Guards.{
  count_recent_by_submitter, find_duplicate_by_submitter, is_duplicate,
}
use beacon_backend.Service.Errors.{ok}
use beacon_backend.Service.Geography.{is_footprint_report}
use beacon_backend.Service.Submit.Context.{Call, Env}
use beacon_backend.Service.Submit.Guards.{
  dedup_window, rate_limit_burst_window, rate_limit_sustained_window, enforce_submit_guards,
  check_duplicate,
}

module _ {F : Type 0} ⦃fl : Float F⦄ (gis : Postgis F) where
  newest-some : (r : Row F) (rows : List (Row F)) → is_some (newest gis (r ∷ rows)) ≡ true
  unfolding newest
  newest-some r rows = ground arith

  newest-select :
      (p : Row F → Bool) (rows : List (Row F)) → is_some (newest gis (select p rows)) ≡ any p rows
  unfolding newest
  newest-select p [] = refl
  newest-select p (r ∷ rows) = ground (arith, newest-select p rows, newest-some r (select p rows))

  find_duplicate-any :
      (db : Db F) (sid : String) (lat lng : F) (at : ℕ) (radius : F) (window : ℕ) (id : String)
      → is_some (find_duplicate_by_submitter gis db sid lat lng at radius window id)
        ≡ any (is_duplicate gis sid lat lng at radius window id) db.reports
  unfolding find_duplicate_by_submitter
  find_duplicate-any db sid lat lng at radius window id =
      ground (arith, newest-select (is_duplicate gis sid lat lng at radius window id) db.reports)

module _ {F : Type 0} ⦃fl : Float F⦄ (env : Env F) (db : Db F) (sid : String) (r : Report F) where
  -- A report with no point, one on a tapped footprint, or one with no other report of its
  -- submitter near it in space and not older than the window.
  abbrev pub IsNew : Option F → Option F → Type 0
  IsNew (some lat) (some lng) =
      (is_footprint_report r ≡ true)
      ⊎ (any (is_duplicate env.gis sid lat lng r.captured_at (of_nat 25) dedup_window r.id)
            db.reports
          ≡ false)
  IsNew _ _ = Unit

  check_duplicate_iff :
      (lat lng : Option F)
      → env.fails Call.find_duplicate ≡ false
      → (check_duplicate env db sid r lat lng ≡ ok tt) ↔ IsNew lat lng
  unfolding check_duplicate
  check_duplicate_iff none lng q = (λ h. tt, λ h. refl)
  check_duplicate_iff (some lat) none q = (λ h. tt, λ h. refl)
  check_duplicate_iff (some lat) (some lng) q =
      let d =
        find_duplicate-any env.gis db sid lat lng r.captured_at (of_nat 25) dedup_window r.id in
      ground (arith, d)

  -- Where the database answers, the guards let a report pass exactly when its submitter has fewer
  -- than five reports in the last minute and fewer than twenty in the last ten, and the report is
  -- no near-duplicate.
  pub enforce_submit_guards_iff :
      ((c : Call) → env.fails c ≡ false)
      → (enforce_submit_guards env db sid r ≡ ok tt) ↔ (
          (count_recent_by_submitter db sid (env.guarded_at - rate_limit_burst_window) < 5)
          × (count_recent_by_submitter db sid (env.guarded_at - rate_limit_sustained_window) < 20)
          × IsNew r.lat r.lng)
  unfolding enforce_submit_guards
  enforce_submit_guards_iff q =
      let d = check_duplicate_iff r.lat r.lng (q Call.find_duplicate) in
      ground (arith, d, q Call.count_burst, q Call.count_sustained)
