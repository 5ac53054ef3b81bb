-- ===== src/Handler/Listing/Allowed.antt =====
-- Whose reports the list gives to whom.
use mathlib.Core.Bool.{false≢true}
use beacon_backend.Prelude.{
  ℕ, String, Option, none, some, List, [], ◌∷◌, Bool, true, false, ◌≡◌, ◌⊎◌, inl, inr, refl, sym,
  ◌∙◌, arith, eq_iff, All, map, Bool-cases, ◌==◌, if◌then◌else◌,
}
use beacon_backend.Std.Float.{Float}
use beacon_backend.Std.Text.{trim_space}
use beacon_backend.Model.Report.{Report}
use beacon_backend.Model.Vocabulary.{contains}
use beacon_backend.Model.User.{User, is_viewer_tier}
use beacon_backend.Store.Db.{Row, Db, Postgis}
use beacon_backend.Store.Scan.{or_text, scan_report}
use beacon_backend.Store.Withdraw.{resolve_submitter_id}
use beacon_backend.Store.Cursors.{Cursor, CursorText, decode_cursor}
use beacon_backend.Store.Listing.{ListFilter, Search, in_crises, one_of, matches, list_reports}
use beacon_backend.Store.Listing.Matching.{list_reports-matches}
use beacon_backend.System.Rows.{All-imp}
use beacon_backend.Handler.Reply.{Reply, sent, refused}
use beacon_backend.Handler.Scope.{list_scope}
use beacon_backend.Handler.Projection.{public_projection, public_project_all}
use beacon_backend.Handler.Listing.Granted.{
  IsGranted, IsScope, IsScoped, list_scope-IsScoped, granted,
}
use beacon_backend.Handler.Listing.{
  Query, ListResponse, Outage, filter_of, response_of, with_filter, with_cursor, with_identity,
  with_scope, serve_list,
}

only_verified : (v : String) → one_of ("verified" ∷ []) v ≡ true → v ≡ "verified"
unfolding one_of contains
only_verified v h = ground (arith, eq_iff "verified" v)

either : {A : Type 0} (P : A → Type 0) (b : Bool) {x y : A} → P x → P y → P (if b then x else y)
either P true p q = p
either P false p q = q

module _ {F : Type 0} ⦃fl : Float F⦄ where
  -- In whole, or to a viewer the projection of a verified report.
  abbrev pub IsShown : User → Report F → Type 0
  IsShown u rep =
      (is_viewer_tier u ≡ false)
      ⊎ ((full : Report F) × (rep ≡ public_projection full) × (full.verification ≡ "verified"))

  abbrev pub IsAllowed : User → Reply (ListResponse F) → Type 0
  IsAllowed u (refused status code) = Unit
  IsAllowed u (sent status out) = All (λ rep. IsGranted u rep.crisis_id × IsShown u rep) out.items

  abbrev IsFetched : User → Row F → Type 0
  IsFetched u row =
      IsGranted u (or_text row.crisis_id "")
      × ((is_viewer_tier u ≡ false) ⊎ (row.verification ≡ "verified"))

  matches-parts :
      (s : Search F) (f : ListFilter F) (row : Row F)
      → matches s f row ≡ true
      → (in_crises f row ≡ true) × (one_of f.verification row.verification ≡ true)
  unfolding matches
  matches-parts s f row h = (ground (arith, h), ground (arith, h))

  fetched :
      (s : Search F) (u : User) (scope : String × Option (List String)) (query : Query F)
      (submitter : Option String) (cursor : Option Cursor) (row : Row F)
      → IsScope u scope
      → matches s (filter_of (some u) scope query submitter cursor) row ≡ true
      → IsFetched u row
  unfolding filter_of
  fetched s u scope query submitter cursor row g h =
      let f = filter_of (some u) scope query submitter cursor in
      let (c, v) = matches-parts s f row h in
      (
        granted u scope f row g refl refl c,
        elim (Bool-cases (is_viewer_tier u)) [
          | inr n ↦ inl n
          | inl t ↦ inr (only_verified row.verification (rw t at v))
        ],
      )

  shown :
      (now : ℕ) (u : User) (rows : List (Row F))
      → All (IsFetched u) rows
      → (viewer : Bool) → viewer ≡ is_viewer_tier u
      → All
          (λ rep. IsGranted u rep.crisis_id × IsShown u rep)
          (if viewer
            then public_project_all (map (scan_report now) rows)
            else map (scan_report now) rows)
  unfolding public_project_all public_projection scan_report
  shown now u [] a true e = tt
  shown now u [] a false e = tt
  shown now u (r ∷ rows) ((g, inl n), a) true e = absurd (false≢true (sym (e ∙ n)))
  shown now u (r ∷ rows) ((g, inr v), a) true e =
      ((g, inr (scan_report now r, refl, v)), shown now u rows a true e)
  shown now u (r ∷ rows) ((g, v), a) false e = ((g, inl (sym e)), shown now u rows a false e)

  module _ (gis : Postgis F) (s : Search F) (now : ℕ) (outage : Outage) (u : User) where
    page-IsAllowed :
        (f : ListFilter F) (db : Db F)
        → ((row : Row F) → matches s f row ≡ true → IsFetched u row)
        → IsAllowed u (with_filter gis s now outage (some u) f db)
    unfolding with_filter response_of
    page-IsAllowed f db h = elim (Bool-cases outage.list) [
      | inl e ↦ rw e tt
      | inr e ↦
          let rows = (list_reports gis s f db).page.rows in
          rw e (
            shown now u rows
              (All-imp (λ r. matches s f r ≡ true) (IsFetched u) rows h
                (list_reports-matches gis s f db))
              (is_viewer_tier u) refl)
    ]

    cursor-IsAllowed :
        (scope : String × Option (List String)) (query : Query F) (submitter : Option String)
        (db : Db F)
        → IsScope u scope
        → (c : Option (Option CursorText))
        → IsAllowed u
            (with_cursor gis s now outage (some u) scope (record query { cursor = c }) submitter db)
    unfolding with_cursor
    cursor-IsAllowed scope query submitter db g none =
        let q = record query { cursor = none } in
        page-IsAllowed (filter_of (some u) scope q submitter none) db
          (λ row h. fetched s u scope q submitter none row g h)
    cursor-IsAllowed scope query submitter db g (some none) = tt
    cursor-IsAllowed scope query submitter db g (some (some c)) =
        let q = record query { cursor = some (some c) } in
        let d = decode_cursor c in
        page-IsAllowed (filter_of (some u) scope q submitter (some d)) db
          (λ row h. fetched s u scope q submitter (some d) row g h)

    identity-IsAllowed :
        (scope : String × Option (List String)) (uuid device : String) (query : Query F) (db : Db F)
        → IsScope u scope
        → IsAllowed u (with_identity gis s now outage (some u) scope uuid device query db).0
    unfolding with_identity
    identity-IsAllowed scope uuid device query db g =
        let known = resolve_submitter_id uuid device db in
        let P = λ (r : Reply (ListResponse F) × Db F). IsAllowed u r.0 in
        either P query.mine
          (either P (device == "") tt (
            either P outage.identity tt
              (cursor-IsAllowed scope query (some known.0) known.1 g query.cursor)))
          (cursor-IsAllowed scope query none db g query.cursor)

    scope-IsAllowed :
        (uuid device : String) (query : Query F) (db : Db F)
        (scope : Option (String × Option (List String)))
        → IsScoped u scope
        → IsAllowed u (with_scope gis s now outage (some u) scope uuid device query db).0
    unfolding with_scope
    scope-IsAllowed uuid device query db none g = tt
    scope-IsAllowed uuid device query db (some scope) g =
        identity-IsAllowed scope uuid device query db g

    box-IsAllowed :
        (uuid header : String) (query : Query F) (db : Db F) (b : Option (Option (F × F × F × F)))
        → IsAllowed u
            (serve_list gis s now outage (some u) uuid header (record query { bbox = b }) db).0
    unfolding serve_list
    box-IsAllowed uuid header query db none = tt
    box-IsAllowed uuid header query db (some b) =
        scope-IsAllowed uuid (trim_space header) (record query { bbox = some b }) db
          (list_scope (some u) query.crisis_id) (list_scope-IsScoped u query.crisis_id)

    -- Whatever a signed-in user asks of the report list, each report of the answer is of a crisis
    -- in the user's scope, or of the default crisis where the user has no scope at all; and an
    -- external viewer gets only projections of verified reports.
    pub serve_list-IsAllowed :
        (uuid header : String) (query : Query F) (db : Db F)
        → IsAllowed u (serve_list gis s now outage (some u) uuid header query db).0
    serve_list-IsAllowed uuid header query db = box-IsAllowed uuid header query db query.bbox
