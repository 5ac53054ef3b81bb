-- ===== src/Store/Listing.antt =====
-- internal/store/reports.go: ListFilter, whereClause and List.
pub mod Order
pub mod Matching
pub mod Laws
use beacon_backend.Prelude.{
  ℕ, zero, suc, ◌+◌, String, Option, none, some, List, [], ◌∷◌, Bool, true, false, not, ◌&&◌, ◌||◌,
  ◌==◌, eqb, ltb, if◌then◌else◌, any, select, length, take, drop,
}
use beacon_backend.Std.{Slice, items, points_to}
use beacon_backend.Model.Vocabulary.{contains}
use beacon_backend.Model.Report.{AdminChain}
use beacon_backend.Store.Db.{Row, Db, Postgis}
use beacon_backend.Store.Scan.{level}
use beacon_backend.Store.Insert.{before}
use beacon_backend.Store.Cursors.{Cursor, CursorText, encode_cursor}

pub record ListFilter (F : Type 0) : Type 0 where
  pub crisis_id : String
  pub crisis_ids : List String
  pub damage : List String
  pub verification : List String
  pub q : String
  pub mine : Bool
  pub submitter_id : Option String
  pub building_id : Option String
  pub adm1_pcode : Option String
  pub adm2_pcode : Option String
  pub adm3_pcode : Option String
  pub cluster : Option String
  pub bbox : Option (F × F × F × F)
  -- 0 for a limit that is not positive.
  pub limit : ℕ
  pub offset : ℕ
  pub cursor : Option Cursor

-- ILIKE with the text inside or in front of it, and `geom && ST_MakeEnvelope(...)` at a (lat, lng).
pub record Search (F : Type 0) : Type 0 where
  pub holds_text : String → String → Bool
  pub starts_with : String → String → Bool
  pub in_box : F × F × F × F → F → F → Bool

abbrev pub any_of : List String → Option String → Bool
any_of set none = false
any_of set (some v) = contains set v

-- A condition that is left out where its filter is not set.
abbrev optional : Option String → Option String → Bool
optional none column = true
optional (some v) column = points_to column v

unfoldable pub one_of : List String → String → Bool
one_of [] v = true
one_of (x ∷ xs) v = contains (x ∷ xs) v

module _ {F : Type 0} where
  unfoldable pub in_crises : ListFilter F → Row F → Bool
  in_crises f row =
      if not (f.crisis_id == "")
      then points_to row.crisis_id f.crisis_id
      else elim f.crisis_ids [ [] ↦ true | c ∷ cs ↦ any_of (c ∷ cs) row.crisis_id ]

  searched : Search F → String → Row F → Bool
  searched s q row =
      if q == ""
      then true
      else s.holds_text row.place q || s.starts_with row.id q || contains (items row.infra_types) q

  is_mine : ListFilter F → Row F → Bool
  is_mine f row = if f.mine then optional f.submitter_id row.submitter_id else true

  in_cluster : Option String → Row F → Bool
  in_cluster none row = true
  in_cluster (some c) row = contains (items row.clusters) c

  unfoldable pub boxed : Search F → Option (F × F × F × F) → Row F → Bool
  boxed s none row = true
  boxed s (some b) row = elim row.lat [
    | none ↦ false
    | some lat ↦ elim row.lng [ none ↦ false | some lng ↦ s.in_box b lat lng ]
  ]

  -- whereClause
  unfoldable pub matches : Search F → ListFilter F → Row F → Bool
  unfolding in_crises one_of searched is_mine in_cluster boxed
  matches s f row =
      in_crises f row
      && one_of f.damage row.damage
      && one_of f.verification row.verification
      && searched s f.q row
      && is_mine f row
      && optional f.building_id row.building_id
      && optional f.adm1_pcode (level (λ a. a.adm1) row.admin)
      && optional f.adm2_pcode (level (λ a. a.adm2) row.admin)
      && optional f.adm3_pcode (level (λ a. a.adm3) row.admin)
      && in_cluster f.cluster row
      && boxed s f.bbox row

pub record Page (F : Type 0) : Type 0 where
  pub rows : List (Row F)
  pub next : Option CursorText

pub record Listing (F : Type 0) : Type 0 where
  pub page : Page F
  pub total : ℕ
  pub grand_total : ℕ

module _ {F : Type 0} (gis : Postgis F) where
  -- ORDER BY captured_at DESC, id DESC
  unfoldable pub put : Row F → List (Row F) → List (Row F)
  put r [] = r ∷ []
  put r (s ∷ rows) = let rest = put r rows in if before gis r s then r ∷ s ∷ rows else s ∷ rest

  unfoldable pub ordered : List (Row F) → List (Row F)
  unfolding put
  ordered [] = []
  ordered (r ∷ rows) = put r (ordered rows)

  -- (captured_at, id) < ($n, $n+1)
  unfoldable pub is_past : Cursor → Row F → Bool
  is_past c row =
      ltb row.captured_at c.captured_at
      || (eqb row.captured_at c.captured_at && gis.text_lt row.id c.id)

  abbrev pub cursor_at : Row F → Cursor
  cursor_at row = record { captured_at = row.captured_at; id = row.id }

  -- The cursor of the row at limit - 1, as text.
  unfoldable pub last_cursor : List (Row F) → Option CursorText
  unfolding encode_cursor
  last_cursor [] = none
  last_cursor (r ∷ []) = some (encode_cursor (cursor_at r))
  last_cursor (r ∷ s ∷ rows) = last_cursor (s ∷ rows)

  abbrev pub page_size : ℕ → ℕ
  page_size zero = 50
  page_size (suc n) = suc n

  -- The query fetches one row more than the page, which tells whether there is a next one.
  unfoldable pub page_of : ℕ → List (Row F) → Page F
  unfolding last_cursor
  page_of limit rows =
      let fetched = take (limit + 1) rows in
      if ltb limit (length fetched)
      then record { rows = take limit fetched; next = last_cursor (take limit fetched) }
      else record { rows = fetched; next = none }

  unfoldable pub from_cursor : Option Cursor → ℕ → List (Row F) → List (Row F)
  unfolding is_past
  from_cursor none offset rows = drop offset rows
  from_cursor (some c) offset rows = select (is_past c) rows

  -- The page; how many reports the filter matches; how many the crises of the list have.
  unfoldable pub list_reports : Search F → ListFilter F → Db F → Listing F
  unfolding in_crises matches ordered page_of from_cursor
  list_reports s f db = record {
    page =
        page_of (page_size f.limit)
          (from_cursor f.cursor f.offset (ordered (select (matches s f) db.reports)));
    total = length (select (matches s f) db.reports);
    grand_total = length (select (in_crises f) db.reports);
  }
