-- ===== src/Examples/Submission.antt =====
-- The submit path at concrete inputs.
use beacon_backend.Prelude.{
  ℕ, ◌+◌, ◌-◌, ◌<◌, Option, none, some, [], ◌∷◌, Bool, true, false, ◌≡◌, ◌↔◌, inr, refl, map,
}
use beacon_backend.Prelude.Int.{ℤ, pos}
use beacon_backend.Model.Report.{Report, SubmitReportRequest}
use beacon_backend.Store.Db.{Row, Db}
use beacon_backend.Service.Errors.{
  Result, ok, err, ServiceError, rate_limited, burst, database, check_violation,
}
use beacon_backend.Service.Submit.{submit}
use beacon_backend.Service.Submit.Guards.{admit, check_guards, enforce_submit_guards}
use beacon_backend.Service.Submit.Enrich.{enrich, choose_crisis, keep_pin, translate_description}
use beacon_backend.Service.Submit.Transaction.{submit_tx, submit_body}
use beacon_backend.Service.Submit.Context.{service_config}
use beacon_backend.Service.Submit.{store_report}
use beacon_backend.Service.Validate.{validate, out_of_range}
use beacon_backend.Service.Normalize.{normalize}
use beacon_backend.Service.Geography.{
  is_footprint_report, admin_scope_from_chain, emergent_area_name, haversine_km,
  pin_containment_limit_km, pin_outside_containment,
}
use beacon_backend.Model.Vocabulary.{contains, rollup_tier}
use beacon_backend.Prelude.Int.{add64}
use beacon_backend.Std.Text.{equal_fold, has_prefix, is_space, trim_space}
use beacon_backend.Store.Scan.{get_by_id, get_by_idempotency_key, scan_report}
use beacon_backend.Store.Guards.{
  count_recent_by_submitter, find_duplicate_by_submitter, is_duplicate,
}
use beacon_backend.Store.Insert.{
  upsert_building, upsert_report, next_version, refresh_building_current_damage, before,
  insert_report, newest, passes_checks, row_of, references_exist,
}
use beacon_backend.Store.Crises.{assign_crisis, covers, nearest}
use beacon_backend.Store.Emergent.{
  active, clustered, detect_emergent_crisis, distinct, proposed_crisis,
}
use beacon_backend.Store.Tx.{run_in_tx}
use beacon_backend.Fixtures.{whole, flat, empty_db, env_at, request}
use beacon_backend.Store.RoundTrip.{row_of-scan_report}
use beacon_backend.Store.Insert.Laws.{valid-passes_checks}
use beacon_backend.Service.Normalize.Laws.{IsNormal, normalize-IsNormal}
use beacon_backend.Service.Validate.Laws.{IsValid, validate_iff}
use beacon_backend.Service.Submit.Guards.Laws.{IsNew, enforce_submit_guards_iff}
use beacon_backend.Service.Submit.Guards.{
  rate_limit_burst_window, rate_limit_sustained_window, check_duplicate,
}
use beacon_backend.Service.Submit.Transaction.{versioned}
use beacon_backend.Service.Submit.{settle, detect_around, propose_around}
use beacon_backend.Service.Submission.Outcome.{made, submit-created}
use beacon_backend.Service.Submission.Versions.{versions, IsDense, submit-IsDense}
use beacon_backend.Service.Submission.Replay.{submit-replay}
use beacon_backend.Service.Submission.Atomic.{submit-atomic}
use beacon_backend.Service.Submission.Refused.{submit-confidence}
use beacon_backend.Store.Scan.{scan_admin, scan_description}
use beacon_backend.Store.Insert.{stored_translation}

-- All that a run of submit computes with.
running : Unit {0}
unfolding settle detect_around propose_around check_duplicate scan_admin scan_description
    stored_translation submit admit check_guards enforce_submit_guards enrich choose_crisis keep_pin
    translate_description submit_tx submit_body service_config store_report validate out_of_range
    normalize is_footprint_report admin_scope_from_chain emergent_area_name haversine_km
    pin_containment_limit_km pin_outside_containment contains rollup_tier add64 equal_fold
    has_prefix is_space trim_space get_by_id get_by_idempotency_key scan_report
    count_recent_by_submitter find_duplicate_by_submitter is_duplicate upsert_building upsert_report
    next_version refresh_building_current_damage before insert_report newest passes_checks row_of
    references_exist assign_crisis covers nearest active clustered detect_emergent_crisis distinct
    proposed_crisis run_in_tx
running = tt

abbrev now : ℕ
now = 2000000000000

abbrev once : Result (Option (Report ℤ) × Bool) × Db ℤ
once = submit (env_at now) (request "r1" "fp-1") (some "s1") empty_db

-- A later submit of a second report about the same building.
abbrev twice : Result (Option (Report ℤ) × Bool) × Db ℤ
twice = submit (env_at (now + 1)) (request "r2" "fp-1") (some "s1") once.1

abbrev answer : Result (Option (Report ℤ) × Bool) → Option (Report ℤ)
answer (ok out) = out.0
answer (err e) = none

abbrev failure : Result (Option (Report ℤ) × Bool) → ServiceError
failure (ok out) = rate_limited burst
failure (err e) = e

twice_versions : versions "fp-1" twice.1.reports ≡ 1 ∷ 2 ∷ []
unfolding running
twice_versions = refl

twice_crises :
    map (λ r. r.crisis_id) twice.1.reports ≡ some "crisis-antakya" ∷ some "crisis-antakya" ∷ []
unfolding running
twice_crises = refl

submit-created_example : answer twice.0 ≡ get_by_id (now + 1) twice.1 "r2"
unfolding running
submit-created_example =
    (submit-created (env_at (now + 1)) (request "r2" "fp-1") (some "s1") once.1 (answer twice.0)
      refl).6

submit-IsDense_example : IsDense "fp-1" twice.1
unfolding running
submit-IsDense_example =
    submit-IsDense (env_at (now + 1)) (request "r2" "fp-1") (some "s1") once.1 "fp-1" refl
      (refl, tt)

abbrev first_row : Row ℤ
first_row = row_of flat now (
    versioned (env_at now) (made (env_at now) (request "r1" "fp-1") (some "s1") empty_db) (1, none))

submit-replay_example :
    submit (env_at (now + 9)) (request "r1" "fp-1") none once.1
    ≡ (ok (some (scan_report (now + 9) first_row), false), once.1)
unfolding running
submit-replay_example =
    submit-replay (env_at (now + 9)) (request "r1" "fp-1") none once.1 first_row (λ c. refl) refl
      refl refl (inr refl)

-- A report whose damage is no tier.
abbrev bad : SubmitReportRequest ℤ
bad = record (request "r3" "fp-1") { damage = "severe" }

submit-atomic_example : (submit (env_at now) bad (some "s1") once.1).1 ≡ once.1
unfolding running
submit-atomic_example =
    submit-atomic (env_at now) bad (some "s1") once.1
      (failure (submit (env_at now) bad (some "s1") once.1).0) refl refl

abbrev sure : SubmitReportRequest ℤ
sure = record (request "r4" "fp-1") { building_id = none; ai_confidence = some (pos 101) }

submit-confidence_example :
    (validate (normalize now sure (some "s1")) ≡ ok tt)
    × (check_guards (env_at now) empty_db (some "s1") (normalize now sure (some "s1")) ≡ ok tt)
    × (submit (env_at now) sure (some "s1") empty_db ≡ (err (database check_violation), empty_db))
unfolding running
submit-confidence_example =
    submit-confidence (env_at now) sure (some "s1") empty_db (λ c. refl) refl refl refl refl refl

abbrev asked1 : Report ℤ
asked1 = normalize now (request "r1" "fp-1") (some "s1")

enforce_submit_guards_iff_example :
    (enforce_submit_guards (env_at now) once.1 "s1" asked1 ≡ ok tt) ↔ (
      (count_recent_by_submitter once.1 "s1" (now - rate_limit_burst_window) < 5)
      × (count_recent_by_submitter once.1 "s1" (now - rate_limit_sustained_window) < 20)
      × IsNew (env_at now) once.1 "s1" asked1 asked1.lat asked1.lng)
enforce_submit_guards_iff_example =
    enforce_submit_guards_iff (env_at now) once.1 "s1" asked1 (λ c. refl)

validate_iff_example : (validate asked1 ≡ ok tt) ↔ IsValid asked1
validate_iff_example = validate_iff asked1

normalize-IsNormal_example : IsNormal asked1
normalize-IsNormal_example = normalize-IsNormal now (request "r1" "fp-1") (some "s1")

valid-passes_checks_example : passes_checks (row_of flat now asked1) ≡ true
unfolding running
valid-passes_checks_example =
    valid-passes_checks flat now asked1 (normalize-IsNormal now (request "r1" "fp-1") (some "s1"))
      ((validate_iff asked1).0 refl) refl

row_of-scan_report_example :
    row_of flat (now + 2) (scan_report (now + 1) (row_of flat now asked1)) ≡ row_of flat now asked1
unfolding running
row_of-scan_report_example =
    row_of-scan_report flat now (now + 1) (now + 2) asked1
      (normalize-IsNormal now (request "r1" "fp-1") (some "s1")) refl
