-- ===== src/Examples/Requests.antt =====
-- Requests and histories at concrete inputs.
use beacon_backend.Prelude.{
  ℕ, String, none, some, [], ◌∷◌, ◌++◌, true, false, ◌≡◌, ◌≢◌, ◌⊎◌, inl, refl, map, All, select,
  find_first, ◌==◌, ne-of-str,
}
use beacon_backend.Prelude.Int.{ℤ, pos}
use beacon_backend.Std.{is_blank}
use beacon_backend.Std.Text.{is_space, trim_space}
use beacon_backend.Model.Vocabulary.{contains, verifications}
use beacon_backend.Model.Report.{Report, VerificationRequest, default_anonymization}
use beacon_backend.Model.Form.{FormOverrides}
use beacon_backend.Model.User.{
  User, can_mutate, can_manage_crisis, is_viewer_tier, scope_all, scope_allows, role_rank,
}
use beacon_backend.Store.Db.{Row, CrisisRow, Db}
use beacon_backend.Store.Scan.{or_text, scan_report, get_by_id}
use beacon_backend.Store.Crises.{set_crisis_status}
use beacon_backend.Store.Verification.{decision, decide_on, update_verification}
use beacon_backend.Store.Withdraw.{owns, device_of, erase_owned, withdraw_report}
use beacon_backend.Store.Withdraw.Laws.{IsGone, unlinked, withdraw_report_lem}
use beacon_backend.Service.FormSchema.{
  default_form_sections, known_form_section_keys, apply_form_overrides, validate_form_overrides,
}
use beacon_backend.Service.FormSchema.Laws.{is_shown, is_asked, apply_form_overrides_lem}
use beacon_backend.Handler.Reply.{Reply, refused}
use beacon_backend.Handler.Middleware.{require_mutator}
use beacon_backend.Handler.Scope.{
  is_public_tier, is_in_scope, scope_report_mutation, scope_allows_crisis, crisis_id_of,
}
use beacon_backend.Handler.Projection.{coarsen, public_projection}
use beacon_backend.Handler.Reports.{submit_report, reply_to, get_report}
use beacon_backend.Handler.Moderation.{
  Faults, requested, lifecycle, patch_verification, change_status,
}
use beacon_backend.Handler.Withdrawal.{withdraw}
use beacon_backend.Handler.Privacy.{Secrets, with_secrets, reply_to-secrets, get_report-hidden}
use beacon_backend.Handler.Authority.{patch_verification-sent, change_status-changed}
use beacon_backend.System.Sound.{IsSound}
use beacon_backend.System.History.{submitted, decided, withdrawn, here, later, IsSound-Reach}
use beacon_backend.Fixtures.{
  whole, empty_db, env_at, request, pending_row, pending_db, analyst, viewer,
}

running : Unit {0}
unfolding is_space trim_space contains can_mutate can_manage_crisis is_viewer_tier scope_all
    scope_allows role_rank scan_report get_by_id set_crisis_status decide_on update_verification
    device_of erase_owned withdraw_report known_form_section_keys apply_form_overrides
    validate_form_overrides require_mutator is_public_tier is_in_scope scope_report_mutation
    scope_allows_crisis crisis_id_of coarsen public_projection reply_to get_report
    patch_verification change_status
running = tt

abbrev now : ℕ
now = 2000000000005

abbrev quiet : Faults
quiet = record { scope_check = false; write = false }

abbrev force : VerificationRequest
force = record { status = "verified"; verification = ""; note = none; force = true }

abbrev after_submit : Db ℤ
after_submit =
    (submit_report (env_at now) false "s1" "device-1" (some (request "r1" "fp-1")) empty_db).1

abbrev after_decision : Db ℤ
after_decision = (patch_verification now quiet (some analyst) "r1" (some force) after_submit).1

abbrev after_withdrawal : Db ℤ
after_withdrawal = (withdraw false "r1" "device-1" after_decision).1

IsSound-Reach_example : IsSound after_withdrawal
IsSound-Reach_example =
    IsSound-Reach empty_db after_withdrawal (record { ids = tt; keys = tt; fine = tt })
      (later
        (later
          (later here
            (submitted (env_at now) false "s1" "device-1" (some (request "r1" "fp-1")) refl))
          (decided now quiet (some analyst) "r1" (some force) refl))
        (withdrawn false "r1" "device-1" refl))

abbrev verified : Reply (Report ℤ) × Db ℤ
verified = patch_verification now quiet (some analyst) "p1" (some force) pending_db

abbrev rep : Report ℤ
rep =
    scan_report now (record (pending_row "p1" "s1") { verification = "verified"; updated_at = now })

patch_verification-sent_example :
    (u : User) × (r : VerificationRequest) × (row : Row ℤ) × (some analyst ≡ some u)
    × (some force ≡ some r)
    × (find_first (λ x. x.id == "p1") pending_db.reports ≡ some row)
    × (can_mutate u ≡ true)
    × (is_in_scope u (or_text row.crisis_id "") ≡ true)
    × (contains verifications (requested r) ≡ true)
    × ((requested r ≢ "verified") ⊎ (is_blank row.photo_url ≡ false) ⊎ (r.force ≡ true))
    × (verified.1.audits
        ≡ pending_db.audits
          ++ decision "p1" row.verification (requested r) u.email r.note r.force ∷ [])
unfolding running
patch_verification-sent_example =
    patch_verification-sent now quiet (some analyst) "p1" (some force) pending_db 200 rep refl

abbrev moved : Reply (CrisisRow ℤ) × Db ℤ
moved = change_status now false (some analyst) "crisis-antakya" (some "closed") pending_db

change_status-changed_example :
    (moved.1 ≡ pending_db)
    ⊎ ((u : User) × (s : String) × (some analyst ≡ some u)
        × (some "closed" ≡ some s)
        × (can_manage_crisis u ≡ true)
        × (scope_allows u "crisis-antakya" ≡ true)
        × (contains lifecycle s ≡ true)
        × (moved.1 ≡ (set_crisis_status now "crisis-antakya" s pending_db).1))
change_status-changed_example =
    change_status-changed now false (some analyst) "crisis-antakya" (some "closed") pending_db

abbrev secrets : Secrets ℤ
secrets = record {
  submitter_id = some "s2";
  lat = rep.lat;
  lng = rep.lng;
  what3words = some "filled.count.soap";
  plus_code = none;
  landmark = some "the bakery";
  building_id = some "fp-9";
  building_source = none;
  gps_accuracy_meters = some (pos 3);
  location = rep.location;
  infra_name = none;
  description = none;
  clusters = none;
  ai_level = some "partial";
  ai_confidence = some (pos 80);
  modular = "{}";
  anonymization = default_anonymization;
  idempotency_key = "k";
  supersedes_report_id = none;
}

reply_to-secrets_example : reply_to none (with_secrets secrets rep) ≡ reply_to none rep
unfolding running
reply_to-secrets_example = reply_to-secrets none rep secrets refl refl refl

get_report-hidden_example :
    get_report now false (some viewer) "p1" pending_db ≡ refused 404 "not_found"
unfolding running
get_report-hidden_example =
    get_report-hidden now (some viewer) "p1" pending_db (scan_report now (pending_row "p1" "s1"))
      refl (inl (refl, ne-of-str "pending" "verified" refl))

abbrev left : Db ℤ
left = (withdraw_report "p1" "device-1" pending_db).1

withdraw_report_lem_example :
    ((owns (device_of pending_db (pending_row "p1" "s1")) "device-1" ≡ true)
      × All (IsGone "p1") left.reports
      × All (λ a. (a.report_id == "p1") ≡ false) left.audits
      × (left.withdrawals
          ≡ pending_db.withdrawals
            ++ record { report_id = "p1"; submitter_id = some "s1"; crisis_id = none } ∷ [])
      × (find_first (λ r. r.id == "p2") left.reports
          ≡ unlinked "p1" (find_first (λ r. r.id == "p2") pending_db.reports)))
    ⊎ ((owns (device_of pending_db (pending_row "p1" "s1")) "device-1" ≡ false)
        × (left ≡ pending_db))
unfolding running
withdraw_report_lem_example =
    withdraw_report_lem "p1" "device-1" pending_db (pending_row "p1" "s1") "p2" refl refl

abbrev overrides : FormOverrides
overrides = record { required = "electricity" ∷ []; disabled = "pressingNeeds" ∷ [] }

apply_form_overrides_lem_example :
    (map (λ s. s.key) (apply_form_overrides default_form_sections (some overrides))
      ≡ map (λ s. s.key) (select (is_shown overrides) default_form_sections))
    × (map (λ s. s.required) (apply_form_overrides default_form_sections (some overrides))
        ≡ map (is_asked overrides) (select (is_shown overrides) default_form_sections))
    × (map (λ s. s.options) (apply_form_overrides default_form_sections (some overrides))
        ≡ map (λ s. s.options) (select (is_shown overrides) default_form_sections))
apply_form_overrides_lem_example = apply_form_overrides_lem default_form_sections overrides
