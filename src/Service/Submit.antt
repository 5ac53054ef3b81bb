-- ===== src/Service/Submit.antt =====
-- internal/service/report_service.go: Submit. Loading a country's boundaries in the background
-- after an insert is left out: it writes none of the modelled tables.
pub mod Context
pub mod Guards
pub mod Enrich
pub mod Transaction
use beacon_backend.Prelude.{
  ℕ, String, Option, none, some, Bool, true, false, not, ◌&&◌, ◌==◌, if◌then◌else◌,
}
use beacon_backend.Std.Float.{Float}
use beacon_backend.Model.Report.{Report, SubmitReportRequest}
use beacon_backend.Store.Db.{Db}
use beacon_backend.Store.Scan.{get_by_id, get_by_idempotency_key}
use beacon_backend.Store.Tx.{Tx, pure, ◌>>=◌, ◌>>◌}
use beacon_backend.Store.Emergent.{detect_emergent_crisis}
use beacon_backend.Service.Errors.{
  Result, ok, err, ServiceError, database, unavailable, unique_violation,
}
use beacon_backend.Service.Geography.{admin_scope_from_chain, emergent_area_name}
use Context.{Call, Env, lookup_key, detect_emergent, read_back, service_config}
use Guards.{admit}
use Enrich.{enrich}
use Transaction.{submit_tx}

-- The driver's code 23505.
abbrev is_unique_violation : ServiceError → Bool
is_unique_violation (database unique_violation) = true
is_unique_violation _ = false

module _ {F : Type 0} ⦃fl : Float F⦄ (env : Env F) where
  -- A seen idempotency key under a new id is a replay of the stored report.
  replay_by_key : Report F → ServiceError → Tx F (Option (Report F) × Bool)
  replay_by_key r e db = (
    if is_unique_violation e && not (env.fails lookup_key)
        then elim (get_by_idempotency_key env.read_at db r.idempotency_key) [
          | none ↦ err e
          | some existing ↦ ok (some existing, false)
        ]
        else err e,
    db,
  )

  -- DetectEmergentCrisis around the report's point.
  unfoldable pub detect_around : Report F → F → F → Db F → Db F
  detect_around r lat lng db =
      (detect_emergent_crisis env.gis
        (record {
          now = env.inserted_at;
          uuid = env.uuid;
          two_decimals = env.two_decimals;
          area_name = λ a b. emergent_area_name (env.resolve_admin a b);
        })
        lat lng r.captured_at (service_config env.emergent) (admin_scope_from_chain r.admin) db).1

  -- A new pending report with a point may complete a cluster; an error is only logged.
  unfoldable pub propose_around : Report F → Bool → Option F → Option F → Db F → Db F
  propose_around r inserted none lng db = db
  propose_around r inserted (some lat) none db = db
  propose_around r inserted (some lat) (some lng) db =
      if inserted && r.crisis_id == "" && not (env.fails detect_emergent)
      then detect_around r lat lng db
      else db

  abbrev pub propose_emergent : Report F → Bool → Db F → Db F
  propose_emergent r inserted db = propose_around r inserted r.lat r.lng db

  -- GetByID at the end; the stored report is nil where it is gone.
  read_stored : Report F → Bool → Tx F (Option (Report F) × Bool)
  read_stored r inserted db = (
    if env.fails read_back
        then err (database unavailable)
        else ok (get_by_id env.read_at db r.id, inserted),
    db,
  )

  -- What follows the transaction's outcome.
  unfoldable pub settle : Report F → Result (Report F × Bool) → Tx F (Option (Report F) × Bool)
  unfolding replay_by_key read_stored
  settle r (err e) db = replay_by_key r e db
  settle r (ok out) db = read_stored out.0 out.1 (propose_emergent out.0 out.1 db)

  -- The insert, once the report is admitted and enriched.
  unfoldable pub store_report : Report F → Tx F (Option (Report F) × Bool)
  unfolding settle
  store_report r db = settle r (submit_tx env r db).0 (submit_tx env r db).1

  unfoldable pub submit : SubmitReportRequest F → Option String → Tx F (Option (Report F) × Bool)
  submit req submitter_id db = elim (admit env db req submitter_id) [
    | err e ↦ (err e, db)
    | ok r ↦ store_report (enrich env db r) db
  ]
