-- ===== src/Service/Submission/Refused.antt =====
-- A valid submit that the database refuses.
use beacon_backend.Prelude.{ℕ, String, Option, none, true, false, ◌≡◌, refl, some, ap, ◌∙◌, arith}
use beacon_backend.Std.Float.{Float}
use beacon_backend.Model.Report.{Report, SubmitReportRequest}
use beacon_backend.Store.Db.{Db, Postgis}
use beacon_backend.Store.Insert.{
  failed, row_of, passes_checks, is_smallint, is_percent, insert_report, upsert_report,
}
use beacon_backend.Service.Errors.{ok, err, database, check_violation}
use beacon_backend.Service.Normalize.{normalize}
use beacon_backend.Service.Geography.{is_footprint_report}
use beacon_backend.Service.Validate.{validate}
use beacon_backend.Service.Submit.Context.{Call, Env}
use beacon_backend.Service.Submit.Guards.{
  check_guards, enforce_submit_guards, check_duplicate, admit,
}
use beacon_backend.Service.Submit.Enrich.{enrich}
use beacon_backend.Service.Submit.Transaction.{submit_tx}
use beacon_backend.Service.Submit.{store_report, submit}
use beacon_backend.Service.Submission.Parts.{enrich-keeps}
use beacon_backend.Service.Submission.Replay.{IsQuiet}

module _ {F : Type 0} ⦃fl : Float F⦄ where
  upsert_report-confidence :
      (gis : Postgis F) (t : ℕ) (r : Report F) (db : Db F)
      → is_percent r.ai_confidence ≡ false
      → upsert_report gis t r db ≡ (failed check_violation, db)
  unfolding upsert_report insert_report passes_checks row_of
  upsert_report-confidence gis t r db h = ground (arith, h)

  enrich-confidence :
      (env : Env F) (db : Db F) (r : Report F) → (enrich env db r).ai_confidence ≡ r.ai_confidence
  unfolding enrich
  enrich-confidence env db r = ground arith

  store_report-confidence :
      (env : Env F) (r : Report F) (db : Db F)
      → IsQuiet env
      → r.building_id ≡ none
      → is_percent r.ai_confidence ≡ false
      → store_report env r db ≡ (err (database check_violation), db)
  unfolding store_report submit_tx
  store_report-confidence env r db q b h =
      let u = upsert_report-confidence env.gis env.inserted_at r db h in
      ground (arith, b, u, q Call.upsert_report, q Call.commit)

  validate-normalize-confidence :
      (t : ℕ) (req : SubmitReportRequest F) (sid : Option String)
      → validate (normalize t req sid)
        ≡ validate (normalize t (record req { ai_confidence = none }) sid)
  unfolding validate normalize
  validate-normalize-confidence t req sid = refl

  check_guards-normalize-confidence :
      (env : Env F) (req : SubmitReportRequest F) (sid : Option String) (db : Db F)
      → check_guards env db sid (normalize env.received_at req sid)
        ≡ check_guards env db sid
            (normalize env.received_at (record req { ai_confidence = none }) sid)
  unfolding check_guards normalize enforce_submit_guards check_duplicate is_footprint_report
  check_guards-normalize-confidence env req none db = refl
  check_guards-normalize-confidence env req (some s) db = refl

  -- Where every database call succeeds: a request of no building that without its confidence is
  -- valid and past the guards is so too with a confidence that is a smallint outside 0 to 100; the
  -- table's CHECK then refuses the row: the answer is a database error and no table changes.
  pub submit-confidence :
      (env : Env F) (req : SubmitReportRequest F) (sid : Option String) (db : Db F)
      → let r = normalize env.received_at req sid in
        let plain = normalize env.received_at (record req { ai_confidence = none }) sid in
        IsQuiet env
        → validate plain ≡ ok tt
        → check_guards env db sid plain ≡ ok tt
        → r.building_id ≡ none
        → is_smallint r.ai_confidence ≡ true
        → is_percent r.ai_confidence ≡ false
        → (validate r ≡ ok tt)
          × (check_guards env db sid r ≡ ok tt)
          × (submit env req sid db ≡ (err (database check_violation), db))
  unfolding submit admit
  submit-confidence env req sid db q v' g' b w h =
      let r = normalize env.received_at req sid in
      let v = validate-normalize-confidence env.received_at req sid ∙ v' in
      let g = check_guards-normalize-confidence env req sid db ∙ g' in
      let made = enrich env db r in
      let s =
        store_report-confidence env made db q ((enrich-keeps env db r).2 ∙ b)
          (ap is_percent (enrich-confidence env db r) ∙ h) in
      (v, g, ground (arith, v, g, s))
