-- ===== src/Store/Guards.antt =====
-- internal/store/reports.go: CountRecentBySubmitter and FindDuplicateBySubmitter.
use beacon_backend.Prelude.{
  ℕ, ◌-◌, String, Option, none, some, Bool, true, false, not, ◌&&◌, ◌==◌, leb, select, length,
}
use beacon_backend.Std.{points_to}
use beacon_backend.Std.Text.{has_prefix}
use beacon_backend.Store.Db.{Row, Db, Postgis}
use beacon_backend.Store.Insert.{newest}

-- building_id IS NULL, or neither a footprint by its source nor one by its id.
abbrev no_footprint : Option String → Option String → Bool
no_footprint none source = true
no_footprint (some id) source = not (points_to source "footprint") && not (has_prefix id "fp-")

module _ {F : Type 0} where
  abbrev pub created_since : String → ℕ → Row F → Bool
  created_since submitter_id since row =
      points_to row.submitter_id submitter_id && leb since row.created_at

  unfoldable pub count_recent_by_submitter : Db F → String → ℕ → ℕ
  count_recent_by_submitter db submitter_id since =
      length (select (created_since submitter_id since) db.reports)

  -- ST_DWithin(geom, point, radius) on a row that has a geom.
  abbrev pub row_within : Postgis F → Row F → F → F → F → Bool
  row_within gis row lat lng radius = elim row.lat [
    | none ↦ false
    | some a ↦ elim row.lng [ none ↦ false | some b ↦ gis.dwithin a b lat lng radius ]
  ]

  -- The WHERE clause. The window of `window` microseconds has no upper end.
  unfoldable pub is_duplicate : Postgis F → String → F → F → ℕ → F → ℕ → String → Row F → Bool
  is_duplicate gis submitter_id lat lng captured_at radius window exclude_id row =
      points_to row.submitter_id submitter_id
      && not (row.id == exclude_id)
      && no_footprint row.building_id row.building_source
      && leb (captured_at - window) row.captured_at
      && row_within gis row lat lng radius

  unfoldable pub find_duplicate_by_submitter :
      Postgis F → Db F → String → F → F → ℕ → F → ℕ → String → Option String
  unfolding newest is_duplicate
  find_duplicate_by_submitter gis db submitter_id lat lng captured_at radius window exclude_id =
      elim (newest gis (
        select (is_duplicate gis submitter_id lat lng captured_at radius window exclude_id)
          db.reports)) [ none ↦ none | some row ↦ some row.id ]
