-- ===== src/Store/Emergent.antt =====
-- internal/store/crisis.go: DetectEmergentCrisis and its configuration.
pub mod Laws
use Prim.Native.String
use beacon_backend.Prelude.{
  ℕ, ◌+◌, ◌-◌, ◌*◌, String, Option, none, some, List, [], ◌∷◌, ◌++◌, Bool, true, false, not, ◌&&◌,
  ◌||◌, ◌==◌, leb, ltb, eqb, if◌then◌else◌, any, select, length, map,
}
use beacon_backend.Std.{Slice, items, points_to}
use beacon_backend.Std.Float.{Float, of_nat}
use beacon_backend.Model.Vocabulary.{contains}
use beacon_backend.Model.Report.{AdminRef, AdminChain}
use beacon_backend.Store.Db.{Row, BuildingRow, CrisisRow, Db, Postgis}
use beacon_backend.Store.Scan.{level}
use beacon_backend.Store.Guards.{row_within}
use beacon_backend.Store.Crises.{metres}

pub record EmergentConfig (F : Type 0) : Type 0 where
  pub radius_km : F
  pub window_hrs : ℕ
  pub min_reports : ℕ

abbrev pub default_emergent_config : {F : Type 0} ⦃fl : Float F⦄ → EmergentConfig F
default_emergent_config = record { radius_km = of_nat 2; window_hrs = 24; min_reports = 3 }

-- Level 0 means no scope.
pub record AdminScope : Type 0 where
  pub level : ℕ
  pub pcode : String

unfoldable pub active : AdminScope → Bool
active a = leb 1 a.level && leb a.level 3 && not (a.pcode == "")

-- The generated column adm{N}_pcode.
adm_pcode : {F : Type 0} → ℕ → Row F → Option String
adm_pcode n row =
    if eqb n 1
    then level (λ a. a.adm1) row.admin
    else if eqb n 2
    then level (λ a. a.adm2) row.admin
    else level (λ a. a.adm3) row.admin

-- count(DISTINCT submitter_id): a NULL is not counted.
unfoldable pub distinct : List (Option String) → List String
unfolding contains
distinct [] = []
distinct (none ∷ xs) = distinct xs
distinct (some x ∷ xs) = let rest = distinct xs in if contains rest x then rest else x ∷ rest

-- (crisis_nature)[1], of the rows that have one.
first_natures : {F : Type 0} → List (Row F) → List String
first_natures [] = []
first_natures (r ∷ rs) = elim (items r.crisis_nature) [
  | [] ↦ first_natures rs
  | n ∷ _ ↦ n ∷ first_natures rs
]

-- COALESCE(min(captured_at), now())
earliest : {F : Type 0} → ℕ → List (Row F) → ℕ
earliest now [] = now
earliest now (r ∷ []) = r.captured_at
earliest now (r ∷ s ∷ rs) =
    let e = earliest now (s ∷ rs) in if ltb e r.captured_at then e else r.captured_at

some_values : {F : Type 0} → List (Option F) → List F
some_values [] = []
some_values (none ∷ xs) = some_values xs
some_values (some x ∷ xs) = x ∷ some_values xs

-- COALESCE(avg(x), 0)
average_or_zero : {F : Type 0} ⦃fl : Float F⦄ → Postgis F → List F → F
average_or_zero gis [] = of_nat 0
average_or_zero gis (x ∷ xs) = gis.average (x ∷ xs)

nature_or_conflict : Option String → String
nature_or_conflict none = "conflict"
nature_or_conflict (some n) = if n == "" then "conflict" else n

-- Values that the statement's surroundings give: the clock, a fresh uuid, the text of a centroid
-- with two decimals, and the reverse geocoder's area name.
pub record Surroundings (F : Type 0) : Type 0 where
  pub now : ℕ
  pub uuid : String
  pub two_decimals : F → F → String
  pub area_name : F → F → String

module _ {F : Type 0} ⦃fl : Float F⦄ (gis : Postgis F) where
  in_scope : AdminScope → Row F → Bool
  unfolding active adm_pcode
  in_scope scope row =
      if active scope then points_to (adm_pcode scope.level row) scope.pcode else true

  is_pending : Row F → Bool
  is_pending row = elim row.crisis_id [ none ↦ true | some _ ↦ false ]

  -- The gate's WHERE clause, which is the pull-in's too.
  unfoldable pub clustered : F → F → ℕ → EmergentConfig F → AdminScope → Row F → Bool
  unfolding in_scope is_pending
  clustered lat lng at cfg scope row =
      is_pending row
      && leb (at - cfg.window_hrs * 3600000000) row.captured_at
      && row_within gis row lat lng (metres gis cfg.radius_km)
      && in_scope scope row

  unfoldable pub proposed_crisis :
      Surroundings F → EmergentConfig F → AdminScope → List (Row F) → CrisisRow F
  unfolding first_natures earliest some_values average_or_zero nature_or_conflict active
  proposed_crisis env cfg scope rows =
      let clat = average_or_zero gis (some_values (map (λ r. r.lat) rows)) in
      let clng = average_or_zero gis (some_values (map (λ r. r.lng) rows)) in
      let name = env.area_name clat clng in
      record {
        id = String.◌++◌ "emergent-" env.uuid;
        title =
            if name == ""
            then String.◌++◌ "Possible new event near " (env.two_decimals clat clng)
            else String.◌++◌ "Possible new event · " name;
        area = if name == "" then "Reported damage cluster" else name;
        nature = nature_or_conflict (gis.mode (first_natures rows));
        center_lat = clat;
        center_lng = clng;
        source = "emergent";
        started_at = earliest env.now rows;
        radius_km = cfg.radius_km;
        ended_at = none;
        status = "proposed";
        admin_pcode = if active scope then some scope.pcode else none;
        emergent_radius_km = some cfg.radius_km;
        emergent_window_hrs = some cfg.window_hrs;
        emergent_min_reports = some cfg.min_reports;
        form_overrides = none;
      }

  unfoldable pub pulled_in : ℕ → String → (Row F → Bool) → Row F → Row F
  pulled_in now id test row =
      if test row then record row { crisis_id = some id; updated_at = now } else row

  -- crisis_id IS NULL AND id IN (SELECT building_id FROM reports WHERE crisis_id = $1)
  unfoldable pub pulled_building : String → List (Row F) → BuildingRow F → BuildingRow F
  pulled_building id rows b = elim b.crisis_id [
    | some _ ↦ b
    | none ↦
        if any (λ r. points_to r.crisis_id id && points_to r.building_id b.id) rows
        then record b { crisis_id = some id }
        else b
  ]

  -- "" where no cluster formed, else the id of the proposed crisis.
  unfoldable pub detect_emergent_crisis :
      Surroundings F → F → F → ℕ → EmergentConfig F → AdminScope → Db F → String × Db F
  unfolding clustered distinct proposed_crisis pulled_in pulled_building
  detect_emergent_crisis env lat lng at cfg scope db =
      let test = clustered lat lng at cfg scope in
      let rows = select test db.reports in
      if ltb (length (distinct (map (λ r. r.submitter_id) rows))) cfg.min_reports
      then ("", db)
      else let crisis = proposed_crisis env cfg scope rows in
        let reports = map (pulled_in env.now crisis.id test) db.reports in
        (
          crisis.id,
          record db {
            crises = db.crises ++ crisis ∷ [];
            reports = reports;
            buildings = map (pulled_building crisis.id reports) db.buildings;
          },
        )
