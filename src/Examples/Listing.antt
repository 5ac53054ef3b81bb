-- ===== src/Examples/Listing.antt =====
-- The report list at concrete inputs.
use mathlib.Core.List.{Perm}
use beacon_backend.Prelude.{
  ℕ, ◌+◌, ◌*◌, ◌-◌, arith, List, String, Option, none, some, [], ◌∷◌, true, false, ◌≡◌, refl, map,
  select, All, length, ◌≤◌,
}
use beacon_backend.Prelude.Int.{ℤ, pos}
use beacon_backend.Model.Vocabulary.{contains}
use beacon_backend.Std.Collation.{text_less, text_less_irrefl, text_less_trans, text_less_total}
use beacon_backend.Std.Text.{is_space, trim_space}
use beacon_backend.Model.User.{User, is_viewer_tier, scope_all, scope_allows}
use beacon_backend.Store.Db.{Row, Db}
use beacon_backend.Store.Scan.{scan_report}
use beacon_backend.Store.Cursors.{unix_epoch, encode_cursor, decode_cursor}
use beacon_backend.Store.Insert.{before}
use beacon_backend.Store.Listing.{
  ListFilter, Search, in_crises, matches, put, ordered, is_past, last_cursor, page_of, from_cursor,
  list_reports,
}
use beacon_backend.Store.Listing.Order.{IsOrder, IsNewestFirst}
use beacon_backend.Store.Listing.Laws.{followed, listing, followed-listing}
use beacon_backend.Store.Pins.{map_pin_cap, is_pinned, latest_per_building}
use beacon_backend.Store.Pins.Laws.{IsLatest, IsOnePerBuilding, latest_per_building_lem}
use beacon_backend.Handler.Reply.{Reply, sent, refused}
use beacon_backend.Handler.Scope.{list_scope}
use beacon_backend.Handler.Projection.{coarsen, public_projection, public_project_all}
use beacon_backend.Handler.Listing.{
  Query, ListResponse, Outage, filter_of, offset_of, response_of, serve_list,
}
use beacon_backend.Handler.Listing.Allowed.{IsAllowed, serve_list-IsAllowed}
use beacon_backend.Fixtures.{whole, flat, pending_row, pending_db, viewer}

running : Unit {0}
unfolding before in_crises matches put ordered is_past last_cursor page_of from_cursor list_reports
    contains text_less is_space trim_space is_viewer_tier scope_all scope_allows list_scope coarsen
    public_projection public_project_all filter_of offset_of response_of serve_list scan_report
running = tt

abbrev plain : Search ℤ
plain = record { holds_text = λ a b. false; starts_with = λ a b. false; in_box = λ b lat lng. true }

-- Pending reports, two to a page.
abbrev two_pending : ListFilter ℤ
two_pending = record {
  crisis_id = "";
  crisis_ids = [];
  damage = [];
  verification = "pending" ∷ [];
  q = "";
  mine = false;
  submitter_id = none;
  building_id = none;
  adm1_pcode = none;
  adm2_pcode = none;
  adm3_pcode = none;
  cluster = none;
  bbox = none;
  limit = 2;
  offset = 0;
  cursor = none;
}

flat-IsOrder : IsOrder flat
flat-IsOrder = record {
  irrefl = text_less_irrefl;
  trans = text_less_trans;
  total = text_less_total;
}

two_pages :
    map (λ r. r.id) (list_reports flat plain two_pending pending_db).page.rows ≡ "p3" ∷ "p2" ∷ []
unfolding running
two_pages = refl

-- A row captured at another instant, and rows from around 1970.
abbrev captured : ℕ → Row ℤ → Row ℤ
captured t r = record r { captured_at = t }

abbrev dated_db : Db ℤ
dated_db = record pending_db {
  reports =
      captured unix_epoch (pending_row "p1" "s1")
      ∷ captured (unix_epoch + 86400000000) (pending_row "p2" "s2")
      ∷ captured (unix_epoch - 1) (pending_row "p3" "s3")
      ∷ [];
}

followed-listing_example :
    (followed flat plain two_pending dated_db 4 none ≡ listing flat plain two_pending dated_db)
    × IsNewestFirst flat (listing flat plain two_pending dated_db)
    × Perm
        (listing flat plain two_pending dated_db)
        (select (matches plain two_pending) dated_db.reports)
followed-listing_example =
    followed-listing flat plain two_pending dated_db flat-IsOrder (refl, (refl, (refl, tt)))
      ((omega arith, omega arith), ((omega arith, omega arith), ((omega arith, omega arith), tt)))

-- A page that ends at a report of the year 2300: its cursor lies before all others, and they are
-- lost.
abbrev future_db : Db ℤ
future_db = record pending_db {
  reports =
      captured unix_epoch (pending_row "p1" "s1")
      ∷ captured (unix_epoch + 330 * 365 * 86400000000) (pending_row "p2" "s2")
      ∷ captured (unix_epoch + 331 * 365 * 86400000000) (pending_row "p3" "s3")
      ∷ [];
}

lost_page :
    (map (λ r. r.id) (listing flat plain two_pending future_db) ≡ "p3" ∷ "p2" ∷ "p1" ∷ [])
    × (map (λ r. r.id) (followed flat plain two_pending future_db 4 none) ≡ "p3" ∷ "p2" ∷ [])
unfolding running encode_cursor decode_cursor
lost_page = (refl, refl)

-- A user of one crisis, and reports of that one and of another.
abbrev regional : User
regional = record viewer { crisis_scope = "c1" ∷ [] }

abbrev two_crises : Db ℤ
two_crises = record pending_db {
  reports =
      record (pending_row "p1" "s1") { crisis_id = some "c1"; verification = "verified" }
      ∷ record (pending_row "p2" "s2") { crisis_id = some "c2"; verification = "verified" }
      ∷ record (pending_row "p3" "s3") { crisis_id = some "c1" }
      ∷ [];
}

abbrev everything : Query ℤ
everything = record {
  bbox = some none;
  crisis_id = "";
  damage = [];
  verification = [];
  q = "";
  mine = false;
  building_id = none;
  adm1_pcode = none;
  adm2_pcode = none;
  adm3_pcode = none;
  cluster = none;
  page = pos 0;
  page_size = pos 50;
  cursor = none;
}

abbrev working : Outage
working = record { identity = false; list = false }

abbrev ids_of : Reply (ListResponse ℤ) → Option (List String)
ids_of (sent status out) = some (map (λ rep. rep.id) out.items)
ids_of (refused status code) = none

regional_list :
    ids_of (serve_list flat plain 0 working (some regional) "u9" "" everything two_crises).0
    ≡ some ("p1" ∷ [])
unfolding running
regional_list = refl

serve_list-IsAllowed_example :
    IsAllowed regional
      (serve_list flat plain 0 working (some regional) "u9" "" everything two_crises).0
serve_list-IsAllowed_example =
    serve_list-IsAllowed flat plain 0 working regional "u9" "" everything two_crises

abbrev ids_of_rows : Option (List (Row ℤ)) → Option (List String)
ids_of_rows none = none
ids_of_rows (some rows) = some (map (λ r. r.id) rows)

-- A newer verified report of the building of an older one.
abbrev one_building : Db ℤ
one_building = record two_crises {
  reports =
      record (pending_row "p1" "s1") {
        crisis_id = some "c1";
        building_id = some "b1";
        verification = "verified";
      }
      ∷ record (pending_row "p2" "s2") {
        crisis_id = some "c1";
        building_id = some "b1";
        verification = "verified";
      }
      ∷ record (pending_row "p3" "s3") { crisis_id = some "c1"; building_id = some "b1" }
      ∷ [];
}

one_pin :
    ids_of_rows (latest_per_building flat plain "c1" none true one_building) ≡ some ("p2" ∷ [])
unfolding running is_pinned latest_per_building
one_pin = refl

latest_per_building_lem_example :
    let matching = select (is_pinned plain "c1" none true) one_building.reports in
    (rows : List (Row ℤ)) × (latest_per_building flat plain "c1" none true one_building ≡ some rows)
    × (length rows ≤ map_pin_cap)
    × All (λ r. is_pinned plain "c1" none true r ≡ true) rows
    × All (IsLatest flat matching) rows
    × IsOnePerBuilding flat rows
    × IsNewestFirst flat rows
latest_per_building_lem_example =
    latest_per_building_lem flat plain "c1" none true one_building flat-IsOrder
      (refl, (refl, (refl, tt))) refl
