-- ===== src/Service/Submit/Transaction.antt =====
-- internal/service/report_service.go: the transaction of Submit, which versions and inserts.
use beacon_backend.Prelude.{ℕ, String, Option, none, some, Bool, true, false, ◌==◌, if◌then◌else◌}
use beacon_backend.Model.Report.{Report}
use beacon_backend.Model.Crisis.{Building}
use beacon_backend.Store.Insert.{
  done, upsert_report, upsert_building, next_version, refresh_building_current_damage,
}
use beacon_backend.Store.Tx.{Tx, pure, exec, run_in_tx, ◌>>=◌, ◌>>◌}
use beacon_backend.Service.Submit.Context.{
  upsert_building as building_call, next_version as version_call, upsert_report as report_call,
  refresh_damage, commit, Env,
}

module _ {F : Type 0} (env : Env F) where
  abbrev pub building_for : String → Report F → Building F
  building_for id r = record {
    id = id;
    crisis_id = r.crisis_id;
    lat = r.lat;
    lng = r.lng;
    current_damage = none;
  }

  abbrev pub versioned : Report F → ℕ × Option String → Report F
  versioned r v = record r { version = v.0; supersedes_report_id = v.1 }

  insert_one : Report F → Tx F (Report F × Bool)
  insert_one r = do
    inserted ← exec (env.fails report_call) (upsert_report env.gis env.inserted_at r)
    pure (r, inserted)

  -- The damage is refreshed only where a report was inserted.
  refresh_if : Bool → String → Tx F (Unit {0})
  refresh_if false id = pure tt
  refresh_if true id =
      exec (env.fails refresh_damage)
        (λ db. (done tt, refresh_building_current_damage env.gis id db))

  insert_in_chain : String → Report F → Tx F (Report F × Bool)
  insert_in_chain id r = do
    exec (env.fails building_call) (upsert_building (building_for id r))
    v ← exec (env.fails version_call) (λ db. (done (next_version env.gis id db), db))
    inserted ← exec (env.fails report_call) (upsert_report env.gis env.inserted_at (versioned r v))
    refresh_if inserted id
    pure (versioned r v, inserted)

  -- `hasBuilding := r.BuildingID != nil && *r.BuildingID != ""`
  unfoldable pub submit_body : Report F → Tx F (Report F × Bool)
  unfolding insert_one refresh_if insert_in_chain
  submit_body r = elim r.building_id [
    | none ↦ insert_one r
    | some id ↦ if id == "" then insert_one r else insert_in_chain id r
  ]

  unfoldable pub submit_tx : Report F → Tx F (Report F × Bool)
  unfolding run_in_tx submit_body
  submit_tx r = run_in_tx (env.fails commit) (submit_body r)
