-- ===== src/Service/Submission/Replay.antt =====
-- Submitting a stored report again inserts nothing and answers with the stored report.
use beacon_backend.Prelude.{
  ℕ, String, Option, none, some, true, false, ◌⊎◌, inl, inr, ◌≡◌, refl, ◌∙◌, arith, any, find_first,
  ◌==◌, eq_iff, any-of-find_first, Bool-cases,
}
use beacon_backend.Std.Float.{Float}
use beacon_backend.Model.Report.{Report, SubmitReportRequest}
use beacon_backend.Model.Crisis.{Building}
use beacon_backend.Store.Db.{Row, Db, Postgis}
use beacon_backend.Store.Insert.{
  done, row_of, passes_checks, is_percent, insert_report, upsert_report, upsert_building,
  next_version,
}
use beacon_backend.Store.Insert.Laws.{valid-passes_checks}
use beacon_backend.Store.Scan.{scan_report, get_by_id}
use beacon_backend.Service.Errors.{ok}
use beacon_backend.Service.Normalize.{normalize}
use beacon_backend.Service.Normalize.Laws.{normalize-IsNormal}
use beacon_backend.Service.Validate.{validate}
use beacon_backend.Service.Validate.Laws.{validate_iff}
use beacon_backend.Service.Submit.Context.{Call, Env}
use beacon_backend.Service.Submit.Guards.{check_guards, admit}
use beacon_backend.Service.Submit.Enrich.{enrich}
use beacon_backend.Service.Submit.Transaction.{building_for, versioned, submit_tx}
use beacon_backend.Service.Submit.{submit, store_report, propose_around}
use beacon_backend.Service.Submission.Parts.{enrich-keeps, passes_checks-enrich, refreshed-none}

-- No building, or one whose row exists.
abbrev pub IsKnownBuilding : {F : Type 0} → Db F → Option String → Type 0
IsKnownBuilding db none = Unit
IsKnownBuilding db (some id) = (id ≡ "") ⊎ (any (λ b. b.id == id) db.buildings ≡ true)

-- Every database call of the request succeeds.
abbrev pub IsQuiet : {F : Type 0} → Env F → Type 0
IsQuiet env = (c : Call) → env.fails c ≡ false

upsert_report-taken :
    {F : Type 0} (gis : Postgis F) (t : ℕ) (r : Report F) (db : Db F)
    → passes_checks (row_of gis t r) ≡ true
    → any (λ x. x.id == r.id) db.reports ≡ true
    → upsert_report gis t r db ≡ (done false, db)
unfolding upsert_report insert_report row_of
upsert_report-taken gis t r db p h = ground (arith, p, h)

upsert_building-known :
    {F : Type 0} (b : Building F) (db : Db F)
    → b.current_damage ≡ none
    → any (λ x. x.id == b.id) db.buildings ≡ true
    → upsert_building b db ≡ (done tt, db)
unfolding upsert_building
upsert_building-known b db n h = ground (arith, h, refreshed-none b.id db.buildings)

get_by_id-stored :
    {F : Type 0} ⦃fl : Float F⦄ (now : ℕ) (db : Db F) (id : String) (row : Row F)
    → find_first (λ x. x.id == id) db.reports ≡ some row
    → get_by_id now db id ≡ some (scan_report now row)
unfolding get_by_id
get_by_id-stored now db id row h = rw (h, get_by_id)

module _ {F : Type 0} ⦃fl : Float F⦄ (env : Env F) (db : Db F) where
  -- The transaction's outcome on a row whose id is taken, for both shapes of a building.
  abbrev IsReplayed : Report F → Type 0
  IsReplayed r =
      (r' : Report F) × ((submit_tx env r db).0 ≡ ok (r', false))
      × ((submit_tx env r db).1 ≡ db)
      × (r'.id ≡ r.id)

  submit_tx-taken :
      (r : Report F) (o : Option String)
      → r.building_id ≡ o
      → IsQuiet env
      → ((v : ℕ × Option String)
          → passes_checks (row_of env.gis env.inserted_at (versioned env r v)) ≡ true)
      → passes_checks (row_of env.gis env.inserted_at r) ≡ true
      → any (λ x. x.id == r.id) db.reports ≡ true
      → IsKnownBuilding db o
      → IsReplayed r
  unfolding submit_tx
  submit_tx-taken r none e q pv p t k =
      let u = upsert_report-taken env.gis env.inserted_at r db p t in
      (
        r,
        ground (arith, u, q Call.upsert_report, q Call.commit),
        ground (arith, u, q Call.upsert_report, q Call.commit),
        refl,
      )
  submit_tx-taken r (some id) e q pv p t k = elim (Bool-cases (id == "")) [
    | inl blank ↦
        let u = upsert_report-taken env.gis env.inserted_at r db p t in
        (
          r,
          ground (arith, u, blank, q Call.upsert_report, q Call.commit),
          ground (arith, u, blank, q Call.upsert_report, q Call.commit),
          refl,
        )
    | inr named ↦
        let v = next_version env.gis id db in
        let u = upsert_report-taken env.gis env.inserted_at (versioned env r v) db (pv v) t in
        let b =
          upsert_building-known (building_for env id r) db refl
            (ground (arith, named, eq_iff id "")) in
        (
          versioned env r v,
          ground (
            arith,
            u,
            b,
            named,
            q Call.upsert_building,
            q Call.next_version,
            q Call.upsert_report,
            q Call.commit,
          ),
          ground (
            arith,
            u,
            b,
            named,
            q Call.upsert_building,
            q Call.next_version,
            q Call.upsert_report,
            q Call.commit,
          ),
          refl,
        )
  ]

  propose_around-false :
      (r : Report F) (lat lng : Option F) → propose_around env r false lat lng db ≡ db
  unfolding propose_around
  propose_around-false r none lng = refl
  propose_around-false r (some lat) none = refl
  propose_around-false r (some lat) (some lng) = refl

  store_report-taken :
      (r : Report F)
      → IsQuiet env
      → IsReplayed r
      → store_report env r db ≡ (ok (get_by_id env.read_at db r.id, false), db)
  unfolding store_report
  store_report-taken r q (r', a, b, same) =
      ground (arith, q Call.read_back, propose_around-false r' r'.lat r'.lng)

  check_guards-stored :
      (sid : Option String) (r : Report F) (row : Row F)
      → IsQuiet env
      → find_first (λ x. x.id == r.id) db.reports ≡ some row
      → check_guards env db sid r ≡ ok tt
  unfolding check_guards get_by_id
  check_guards-stored none r row q h = refl
  check_guards-stored (some s) r row q h = ground (arith, q Call.lookup_id)

-- The same report id once more, valid, with a confidence that is a percentage and about no new
-- building, while no database call fails: whoever sends it and whatever the rate limit says,
-- nothing changes in any table and the answer is the stored report, not created.
pub submit-replay :
    {F : Type 0} ⦃fl : Float F⦄ (env : Env F) (req : SubmitReportRequest F)
    (submitter_id : Option String) (db : Db F) (row : Row F)
    → let r = normalize env.received_at req submitter_id in
      IsQuiet env
      → validate r ≡ ok tt
      → is_percent r.ai_confidence ≡ true
      → find_first (λ x. x.id == r.id) db.reports ≡ some row
      → IsKnownBuilding db r.building_id
      → submit env req submitter_id db ≡ (ok (some (scan_report env.read_at row), false), db)
unfolding submit admit
submit-replay env req sid db row q v p h k =
    let r = normalize env.received_at req sid in
    let n = normalize-IsNormal env.received_at req sid in
    let valid = (validate_iff r).0 v in
    let checked = valid-passes_checks env.gis env.inserted_at r n valid p in
    let same = enrich-keeps env db r in
    let taken = any-of-find_first (λ x. x.id == r.id) db.reports row h in
    let e = enrich env db r in
    let t =
      submit_tx-taken env db e r.building_id same.2 q
        (λ w. (passes_checks-enrich env db r env.gis env.inserted_at w).0 ∙ checked)
        ((passes_checks-enrich env db r env.gis env.inserted_at (0, none)).1 ∙ checked)
        (rw same.0 taken) k in
    ground (
      arith,
      v,
      check_guards-stored env db sid r row q h,
      store_report-taken env db e q t,
      same.0,
      get_by_id-stored env.read_at db r.id row h,
    )
