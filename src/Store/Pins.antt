-- ===== src/Store/Pins.antt =====
-- internal/store/reports.go: LatestPerBuilding, the pins of the map.
pub mod Laws
use beacon_backend.Prelude.{
  ℕ, String, Option, none, some, List, Bool, true, false, not, ◌&&◌, ◌||◌, ◌==◌, if◌then◌else◌, any,
  select, take,
}
use beacon_backend.Std.{points_to}
use beacon_backend.Store.Db.{Row, Db, Postgis}
use beacon_backend.Store.Insert.{before}
use beacon_backend.Store.Listing.{Search, boxed, ordered}

-- mapPinCap
abbrev pub map_pin_cap : ℕ
map_pin_cap = 5000

abbrev pub is_set : {A : Type 0} → Option A → Bool
is_set none = false
is_set (some x) = true

abbrev pub same_building : Option String → Option String → Bool
same_building none b = false
same_building (some a) b = points_to b a

module _ {F : Type 0} where
  unfoldable pub is_pinned : Search F → String → Option (F × F × F × F) → Bool → Row F → Bool
  unfolding boxed
  is_pinned s crisis_id bbox verified_only row =
      (crisis_id == "" || points_to row.crisis_id crisis_id)
      && boxed s bbox row
      && (not verified_only || row.verification == "verified")

  -- building_id IS NULL OR rn = 1: no row of the same building stands before it.
  unfoldable pub is_latest : Postgis F → List (Row F) → Row F → Bool
  is_latest gis rows row =
      not (is_set row.building_id)
      || not (any (λ q. same_building row.building_id q.building_id && before gis q row) rows)

  unfoldable pub pins : Postgis F → List (Row F) → List (Row F)
  unfolding is_latest
  pins gis rows = take map_pin_cap (ordered gis (select (is_latest gis rows) rows))

  -- none for an unbounded query, which is an error.
  unfoldable pub latest_per_building :
      Postgis F → Search F → String → Option (F × F × F × F) → Bool → Db F → Option (List (Row F))
  unfolding is_pinned pins
  latest_per_building gis s crisis_id bbox verified_only db =
      if crisis_id == "" && not (is_set bbox)
      then none
      else some (pins gis (select (is_pinned s crisis_id bbox verified_only) db.reports))
