-- ===== src/Store/Crises.antt =====
-- internal/store/crisis.go: Get, AssignCrisis, SetCrisisStatus, Active, FormOverrides,
-- SetFormOverrides and the submitter profile.
pub mod Laws
use beacon_backend.Prelude.{
  ℕ, ◌+◌, ◌-◌, ◌*◌, String, Option, none, some, List, [], ◌∷◌, Bool, true, false, not, ◌&&◌, ◌||◌,
  ◌==◌, leb, ltb, if◌then◌else◌, any, select, find_first, length, map,
}
use beacon_backend.Std.{points_to, is_empty}
use beacon_backend.Std.Float.{Float, of_nat}
use beacon_backend.Model.Form.{FormOverrides}
use beacon_backend.Store.Db.{Row, BuildingRow, CrisisRow, Db, Postgis}

-- Seven days, in microseconds.
abbrev pub week : ℕ
week = 604800000000

abbrev before_end : Option ℕ → ℕ → Bool
before_end none t = true
before_end (some e) t = leb t (e + week)

abbrev stored_overrides : FormOverrides → Option FormOverrides
stored_overrides ov =
    if is_empty (some ov.required) && is_empty (some ov.disabled) then none else some ov

module _ {F : Type 0} where
  abbrev pub get_crisis : Db F → String → Option (CrisisRow F)
  get_crisis db id = find_first (λ c. c.id == id) db.crises

  -- status IN ('active','proposed')
  abbrev pub is_open : CrisisRow F → Bool
  is_open c = c.status == "active" || c.status == "proposed"

module _ {F : Type 0} ⦃fl : Float F⦄ (gis : Postgis F) where
  -- radius_km * 1000.0
  abbrev pub metres : F → F
  metres km = fl.mul km (of_nat 1000)

  -- The WHERE clause of AssignCrisis.
  unfoldable pub covers : F → F → ℕ → CrisisRow F → Bool
  covers lat lng captured_at c =
      is_open c
      && gis.dwithin c.center_lat c.center_lng lat lng (metres c.radius_km)
      && leb (c.started_at - week) captured_at
      && before_end c.ended_at captured_at

  abbrev pub crisis_distance : F → F → CrisisRow F → F
  crisis_distance lat lng c = gis.distance c.center_lat c.center_lng lat lng

  -- ORDER BY ST_Distance ASC LIMIT 1
  unfoldable pub nearest : F → F → List (CrisisRow F) → Option (CrisisRow F)
  nearest lat lng [] = none
  nearest lat lng (c ∷ cs) = elim (nearest lat lng cs) [
    | none ↦ some c
    | some d ↦
        if fl.lt (crisis_distance lat lng d) (crisis_distance lat lng c) then some d else some c
  ]

  -- "" where no crisis covers the point: the report stays pending.
  unfoldable pub assign_crisis : Db F → F → F → ℕ → String
  unfolding nearest covers
  assign_crisis db lat lng captured_at =
      elim (nearest lat lng (select (covers lat lng captured_at) db.crises)) [
        | none ↦ ""
        | some c ↦ c.id
      ]

module _ {F : Type 0} where
  abbrev with_status : String → String → CrisisRow F → CrisisRow F
  with_status id status c = if c.id == id then record c { status = status } else c

  abbrev pub released_report : ℕ → String → Row F → Row F
  released_report now id r =
      if points_to r.crisis_id id then record r { crisis_id = none; updated_at = now } else r

  abbrev pub released_building : String → BuildingRow F → BuildingRow F
  released_building id b = if points_to b.crisis_id id then record b { crisis_id = none } else b

  -- None where no crisis has the id. A dismissal releases the reports and buildings.
  unfoldable pub set_crisis_status : ℕ → String → String → Db F → Option (CrisisRow F) × Db F
  set_crisis_status now id status db =
      if not (any (λ c. c.id == id) db.crises)
      then (none, db)
      else let crises = map (with_status id status) db.crises in
        let moved = record db { crises = crises } in
        let released =
          if status == "dismissed"
          then record moved {
            reports = map (released_report now id) db.reports;
            buildings = map (released_building id) db.buildings;
          }
          else moved in
        (find_first (λ c. c.id == id) crises, released)

  -- ORDER BY started_at DESC LIMIT 1 over the active crises.
  latest_started : List (CrisisRow F) → Option (CrisisRow F)
  latest_started [] = none
  latest_started (c ∷ cs) = elim (latest_started cs) [
    | none ↦ some c
    | some d ↦ if ltb c.started_at d.started_at then some d else some c
  ]

  unfoldable pub active_id : Db F → String
  unfolding latest_started
  active_id db = elim (latest_started (select (λ c. c.status == "active") db.crises)) [
    | none ↦ ""
    | some c ↦ c.id
  ]

  -- None for no row and for a NULL column alike.
  unfoldable pub form_overrides : Db F → String → Option FormOverrides
  form_overrides db id = elim (get_crisis db id) [ none ↦ none | some c ↦ c.form_overrides ]

  -- False where no crisis has the id.
  unfoldable pub set_form_overrides : String → FormOverrides → Db F → Bool × Db F
  set_form_overrides id ov db = (
    any (λ c. c.id == id) db.crises,
    record db {
      crises =
          map (λ c. if c.id == id then record c { form_overrides = stored_overrides ov } else c)
            db.crises;
    },
  )
