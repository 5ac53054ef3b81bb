-- ===== src/Handler/Listing.antt =====
-- internal/handler/reports.go: ListReports.
pub mod Granted
pub mod Allowed
use beacon_backend.Prelude.{
  ℕ, zero, ◌+◌, ◌-◌, ◌*◌, ◌%◌, ◌^◌, String, Option, none, some, List, [], ◌∷◌, Bool, true, false,
  ◌==◌, ltb, if◌then◌else◌, map,
}
use beacon_backend.Prelude.Int.{ℤ, pos_part, neg_part}
use beacon_backend.Std.{Slice, items}
use beacon_backend.Std.Float.{Float}
use beacon_backend.Std.Text.{trim_space}
use beacon_backend.Model.Report.{Report}
use beacon_backend.Model.User.{User, is_viewer_tier}
use beacon_backend.Store.Db.{Row, Db, Postgis}
use beacon_backend.Store.Scan.{scan_report}
use beacon_backend.Store.Withdraw.{resolve_submitter_id}
use beacon_backend.Store.Cursors.{Cursor, CursorText, decode_cursor}
use beacon_backend.Store.Listing.{ListFilter, Search, Listing, list_reports}
use beacon_backend.Handler.Reply.{Reply, sent, refused, Handler}
use beacon_backend.Handler.Scope.{list_scope}
use beacon_backend.Handler.Projection.{public_project_all}

-- The parameters as qBBox, qList, qInt and the other query helpers read them.
pub record Query (F : Type 0) : Type 0 where
  -- none where the text is no box.
  pub bbox : Option (Option (F × F × F × F))
  pub crisis_id : String
  pub damage : List String
  pub verification : List String
  pub q : String
  pub mine : Bool
  pub building_id : Option String
  pub adm1_pcode : Option String
  pub adm2_pcode : Option String
  pub adm3_pcode : Option String
  pub cluster : Option String
  pub page : ℤ
  pub page_size : ℤ
  -- none where there is no cursor, `some none` where DecodeCursor fails.
  pub cursor : Option (Option CursorText)

pub record ListResponse (F : Type 0) : Type 0 where
  pub items : List (Report F)
  pub total : ℕ
  pub grand_total : ℕ
  pub next_cursor : Option CursorText

-- What the calls of the store answer: the resolution of the device, and the list.
pub record Outage : Type 0 where
  pub identity : Bool
  pub list : Bool

-- The product of two ints, which wraps at 64 bits, where that is positive, and else 0.
unfoldable pub offset_of : ℤ → ℤ → ℕ
offset_of page size =
    let up = pos_part page * pos_part size + neg_part page * neg_part size in
    let down = pos_part page * neg_part size + neg_part page * pos_part size in
    let w = (up + (2 ^ 64 - down % 2 ^ 64)) % 2 ^ 64 in if ltb w (2 ^ 63) then w else 0

abbrev pub viewer_tier : Option User → Bool
viewer_tier none = false
viewer_tier (some u) = is_viewer_tier u

abbrev start : Option Cursor → ℕ → ℕ
start none offset = offset
start (some c) offset = 0

module _ {F : Type 0} ⦃fl : Float F⦄ where
  unfoldable pub filter_of :
      Option User
      → String × Option (List String)
      → Query F
      → Option String
      → Option Cursor
      → ListFilter F
  unfolding offset_of
  filter_of user scope query submitter cursor = record {
    crisis_id = scope.0;
    crisis_ids = items scope.1;
    damage = query.damage;
    verification = if viewer_tier user then "verified" ∷ [] else query.verification;
    q = query.q;
    mine = query.mine;
    submitter_id = submitter;
    building_id = query.building_id;
    adm1_pcode = query.adm1_pcode;
    adm2_pcode = query.adm2_pcode;
    adm3_pcode = query.adm3_pcode;
    cluster = query.cluster;
    bbox = elim query.bbox [ none ↦ none | some b ↦ b ];
    limit = if ltb 200 (pos_part query.page_size) then 200 else pos_part query.page_size;
    offset = start cursor (offset_of query.page query.page_size);
    cursor = cursor;
  }

  unfoldable pub response_of : ℕ → Bool → Listing F → ListResponse F
  response_of now viewer l =
      let reps = map (scan_report now) l.page.rows in
      record {
        items = if viewer then public_project_all reps else reps;
        total = l.total;
        grand_total = l.grand_total;
        next_cursor = l.page.next;
      }

  module _ (gis : Postgis F) (s : Search F) (now : ℕ) (outage : Outage) (user : Option User) where
    unfoldable pub with_filter : ListFilter F → Db F → Reply (ListResponse F)
    unfolding response_of
    with_filter f db =
        if outage.list
        then refused 500 "internal"
        else sent 200 (response_of now (viewer_tier user) (list_reports gis s f db))

    unfoldable pub with_cursor :
        String × Option (List String) → Query F → Option String → Db F → Reply (ListResponse F)
    unfolding filter_of with_filter decode_cursor
    with_cursor scope query submitter db = elim query.cursor [
      | none ↦ with_filter (filter_of user scope query submitter none) db
      | some none ↦ refused 400 "bad_cursor"
      | some (some c) ↦
          with_filter (filter_of user scope query submitter (some (decode_cursor c))) db
    ]

    unfoldable pub with_identity :
        String × Option (List String) → String → String → Query F → Handler F (ListResponse F)
    unfolding with_cursor
    with_identity scope uuid device query db =
        if query.mine
        then (if device == ""
            then (refused 400 "validation", db)
            else if outage.identity
            then (refused 500 "internal", db)
            else let known = resolve_submitter_id uuid device db in
              (with_cursor scope query (some known.0) known.1, known.1))
        else (with_cursor scope query none db, db)

    unfoldable pub with_scope :
        Option (String × Option (List String))
        → String
        → String
        → Query F
        → Handler F (ListResponse F)
    unfolding with_identity
    with_scope none uuid device query db = (refused 403 "out_of_scope", db)
    with_scope (some scope) uuid device query db = with_identity scope uuid device query db

    -- `header` is X-Device-Id; `uuid` the id of a submitter that the lookup creates.
    unfoldable pub serve_list : String → String → Query F → Handler F (ListResponse F)
    unfolding with_scope
    serve_list uuid header query db = elim query.bbox [
      | none ↦ (refused 400 "bad_bbox", db)
      | some b ↦ with_scope (list_scope user query.crisis_id) uuid (trim_space header) query db
    ]
