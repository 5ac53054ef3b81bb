-- ===== src/Service/Submission/Atomic.antt =====
-- A submit that reports an error has stored nothing.
use beacon_backend.Prelude.{String, Option, Bool, false, ◌≡◌, arith}
use beacon_backend.Std.Float.{Float}
use beacon_backend.Model.Report.{Report, SubmitReportRequest}
use beacon_backend.Store.Db.{Db}
use beacon_backend.Store.Tx.{Tx, run_in_tx}
use beacon_backend.Service.Errors.{err, ServiceError}
use beacon_backend.Service.Submit.Context.{Env, read_back}
use beacon_backend.Service.Submit.Transaction.{submit_body, submit_tx}
use beacon_backend.Service.Submit.{submit, store_report}

-- A transaction that fails leaves the tables as they were.
pub run_in_tx-atomic :
    {F A : Type 0} (lost : Bool) (body : Tx F A) (db : Db F) (e : ServiceError)
    → (run_in_tx lost body db).0 ≡ err e
    → (run_in_tx lost body db).1 ≡ db
unfolding run_in_tx
run_in_tx-atomic lost body db e h = ground arith

module _ {F : Type 0} ⦃fl : Float F⦄ (env : Env F) where
  submit_tx-atomic :
      (r : Report F) (db : Db F) (e : ServiceError)
      → (submit_tx env r db).0 ≡ err e
      → (submit_tx env r db).1 ≡ db
  unfolding submit_tx
  submit_tx-atomic r db e h = run_in_tx-atomic _ (submit_body env r) db e h

  store_report-atomic :
      (r : Report F) (db : Db F) (e : ServiceError)
      → env.fails read_back ≡ false
      → (store_report env r db).0 ≡ err e
      → (store_report env r db).1 ≡ db
  unfolding store_report
  store_report-atomic r db e f h = grind (arith, submit_tx-atomic)

  -- Whatever goes wrong, from a rejected field to a lost commit, an error reply means that every
  -- table is as before; only a failure to read the stored report back may follow a commit.
  pub submit-atomic :
      (req : SubmitReportRequest F) (submitter_id : Option String) (db : Db F) (e : ServiceError)
      → env.fails read_back ≡ false
      → (submit env req submitter_id db).0 ≡ err e
      → (submit env req submitter_id db).1 ≡ db
  unfolding submit
  submit-atomic req submitter_id db e f h = grind (arith, store_report-atomic)
