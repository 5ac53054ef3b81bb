-- ===== src/Store/Pins/Laws.antt =====
-- One pin to a building, its latest report.
use beacon_backend.Prelude.{
  ℕ, zero, suc, String, Option, none, some, List, [], ◌∷◌, Bool, true, false, not, ◌&&◌, ◌||◌, ◌==◌,
  ◌≡◌, refl, arith, any, All, map, select, take, length, length-take, ◌≤◌,
}
use beacon_backend.Store.Db.{Row, Db, Postgis}
use beacon_backend.Store.Insert.{before}
use beacon_backend.Store.Listing.{Search, ordered}
use beacon_backend.Store.Listing.Order.{IsOrder, IsNewestFirst, ordered-IsNewestFirst, All-ordered}
use beacon_backend.Store.Listing.Matching.{All-take, All-select, selected}
use beacon_backend.Store.Pins.{
  map_pin_cap, is_set, same_building, is_pinned, is_latest, pins, latest_per_building,
}
use beacon_backend.System.Rows.{NoRepeat, NoRepeat-select, All-imp}

module _ {F : Type 0} (gis : Postgis F) where
  -- No row of the building of `row` is newer.
  abbrev pub IsLatest : List (Row F) → Row F → Type 0
  IsLatest rows row =
      All (λ q. (same_building row.building_id q.building_id && before gis q row) ≡ false) rows

  -- Of every two rows the buildings differ, or one has none.
  abbrev pub IsOnePerBuilding : List (Row F) → Type 0
  IsOnePerBuilding [] = Unit
  IsOnePerBuilding (r ∷ rows) =
      All (λ q. same_building q.building_id r.building_id ≡ false) rows × IsOnePerBuilding rows

  none_any :
      (p : Row F → Bool) (rows : List (Row F)) → any p rows ≡ false → All (λ q. p q ≡ false) rows
  none_any p [] h = tt
  none_any p (r ∷ rows) h = (ground (arith, h), none_any p rows (ground (arith, h)))

  latest_at :
      (b : Option String) (rows : List (Row F)) (row : Row F)
      → (not (is_set b) || not (any (λ q. same_building b q.building_id && before gis q row) rows))
        ≡ true
      → All (λ q. (same_building b q.building_id && before gis q row) ≡ false) rows
  latest_at none [] row h = tt
  latest_at none (q ∷ rows) row h = (refl, latest_at none rows row refl)
  latest_at (some b) rows row h = none_any _ rows (ground (arith, h))

  latest : (rows : List (Row F)) (row : Row F) → is_latest gis rows row ≡ true → IsLatest rows row
  unfolding is_latest
  latest rows row h = latest_at row.building_id rows row h

  take-IsNewestFirst :
      (n : ℕ) (rows : List (Row F)) → IsNewestFirst gis rows → IsNewestFirst gis (take n rows)
  take-IsNewestFirst zero rows s = tt
  take-IsNewestFirst (suc n) [] s = tt
  take-IsNewestFirst (suc n) (r ∷ rows) (a, s) =
      (All-take (λ q. before gis r q ≡ true) n rows a, take-IsNewestFirst n rows s)

  both :
      (r : Row F) (rows : List (Row F))
      → All (λ q. before gis r q ≡ true) rows
      → All (λ q. (same_building q.building_id r.building_id && before gis r q) ≡ false) rows
      → All (λ q. same_building q.building_id r.building_id ≡ false) rows
  both r [] a b = tt
  both r (q ∷ rows) (x, a) (y, b) = (ground (arith, x, y), both r rows a b)

  one_per_building :
      (rows : List (Row F))
      → IsNewestFirst gis rows
      → All (IsLatest rows) rows
      → IsOnePerBuilding rows
  one_per_building [] s a = tt
  one_per_building (r ∷ rows) (b, s) (l, a) = (
    both r rows b (
        All-imp (IsLatest (r ∷ rows))
          (λ q. (same_building q.building_id r.building_id && before gis r q) ≡ false) rows
          (λ q h. h.0) a),
    one_per_building rows s (All-imp (IsLatest (r ∷ rows)) (IsLatest rows) rows (λ q h. h.1) a),
  )

  -- Whatever holds of the rows holds of the pins.
  All-pins : (P : Row F → Type 0) (rows : List (Row F)) → All P rows → All P (pins gis rows)
  unfolding pins
  All-pins P rows a =
      let kept = select (is_latest gis rows) rows in
      All-take P map_pin_cap (ordered gis kept)
        (All-ordered gis P kept (All-select P (is_latest gis rows) rows a))

  pins-IsLatest : (rows : List (Row F)) → All (IsLatest rows) (pins gis rows)
  unfolding pins
  pins-IsLatest rows =
      let kept = select (is_latest gis rows) rows in
      All-take (IsLatest rows) map_pin_cap (ordered gis kept) (
        All-ordered gis (IsLatest rows) kept (
          All-imp (λ r. is_latest gis rows r ≡ true) (IsLatest rows) kept (latest rows)
            (selected (is_latest gis rows) rows)))

  pins-IsNewestFirst :
      IsOrder gis
      → (rows : List (Row F)) → NoRepeat (map (λ r. r.id) rows)
      → IsNewestFirst gis (pins gis rows)
  unfolding pins
  pins-IsNewestFirst o rows u =
      let kept = select (is_latest gis rows) rows in
      take-IsNewestFirst map_pin_cap (ordered gis kept)
        (ordered-IsNewestFirst gis o kept (NoRepeat-select (λ r. r.id) (is_latest gis rows) rows u))

  length-pins : (rows : List (Row F)) → length (pins gis rows) ≤ map_pin_cap
  unfolding pins
  length-pins rows =
      let sorted = ordered gis (select (is_latest gis rows) rows) in
      ground (arith, length-take map_pin_cap sorted)

  -- Where the order of texts is strict and linear and ids do not repeat, a query with a crisis or
  -- a box finds at most 5000 rows, newest first, all of which match; none has a newer matching row
  -- of its building, and no two share a building.
  pub latest_per_building_lem :
      (s : Search F) (crisis_id : String) (bbox : Option (F × F × F × F)) (verified_only : Bool)
      (db : Db F)
      → IsOrder gis
      → NoRepeat (map (λ r. r.id) db.reports)
      → (crisis_id == "" && not (is_set bbox)) ≡ false
      → let matching = select (is_pinned s crisis_id bbox verified_only) db.reports in
        (rows : List (Row F)) × (latest_per_building gis s crisis_id bbox verified_only db
          ≡ some rows)
        × (length rows ≤ map_pin_cap)
        × All (λ r. is_pinned s crisis_id bbox verified_only r ≡ true) rows
        × All (IsLatest matching) rows
        × IsOnePerBuilding rows
        × IsNewestFirst gis rows
  unfolding latest_per_building
  latest_per_building_lem s crisis_id bbox v db o u e =
      let pinned = is_pinned s crisis_id bbox v in
      let matching = select pinned db.reports in
      let sorted =
        pins-IsNewestFirst o matching (NoRepeat-select (λ r. r.id) pinned db.reports u) in
      let newest = pins-IsLatest matching in
      (
        pins gis matching,
        rw e refl,
        length-pins matching,
        All-pins (λ r. pinned r ≡ true) matching (selected pinned db.reports),
        newest,
        one_per_building (pins gis matching) sorted (
            All-imp (IsLatest matching) (IsLatest (pins gis matching)) (pins gis matching)
              (λ r h.
                All-pins
                  (λ q. (same_building r.building_id q.building_id && before gis q r) ≡ false)
                  matching h)
              newest),
        sorted,
      )
