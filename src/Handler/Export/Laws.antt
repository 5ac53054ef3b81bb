-- ===== src/Handler/Export/Laws.antt =====
-- Whose reports an export holds, and that it holds them all where the rows do not break off.
use beacon_backend.Prelude.{
  String, Option, none, some, true, false, ◌==◌, ◌≡◌, refl, if◌then◌else◌, All, if_both, ℕ,
}
use beacon_backend.Std.Float.{Float}
use beacon_backend.Model.User.{User, is_viewer_tier, scope_allows}
use beacon_backend.Store.Db.{Db}
use beacon_backend.Store.Exports.{export_rows}
use beacon_backend.Handler.Reply.{Reply, sent, refused}
use beacon_backend.Handler.Scope.{scoped_crisis}
use beacon_backend.Handler.Export.{
  ExportQuery, ExportOutage, Body, Press, export_filter, format_of, export_within, export_reports,
}
use beacon_backend.Handler.Export.Reached.{IsReached, scoped_crisis-IsReached, export_rows-crisis}
use beacon_backend.Handler.Export.Holds.{Holds, HoldsAll, export_as-HoldsAll}

module _ {F : Type 0} ⦃real : Float F⦄ where
  -- Within the crisis `cid`: every report of it that the filter matches.
  abbrev IsWithin : Press F → Option ℕ → User → ExportQuery F → Db F → Body F → Type 0
  IsWithin p rows u query db body =
      (cid : String) × (bbox : Option (F × F × F × F)) × (scope_allows u cid ≡ true)
      × (query.bbox ≡ some bbox)
      × All (λ rep. rep.crisis_id ≡ cid)
          (export_rows p.gis p.search (export_filter cid bbox query) p.now db)
      × Holds p rows (export_rows p.gis p.search (export_filter cid bbox query) p.now db) body

  abbrev pub IsExport : Press F → Option ℕ → User → ExportQuery F → Db F → Reply (Body F) → Type 0
  IsExport p rows u query db (refused status code) = Unit
  IsExport p rows u query db (sent status body) =
      (is_viewer_tier u ≡ false) × IsWithin p rows u query db body

  module _ (p : Press F) (outage : ExportOutage) (u : User) (query : ExportQuery F)
      (earlier db : Db F) (same : earlier.reports ≡ db.reports) (v : is_viewer_tier u ≡ false) where
    answered :
        (cid : String) (bbox : Option (F × F × F × F)) (reply : Reply (Body F))
        → scope_allows u cid ≡ true
        → (cid == "") ≡ false
        → query.bbox ≡ some bbox
        → HoldsAll p outage.rows
            (export_rows p.gis p.search (export_filter cid bbox query) p.now db)
            reply
        → IsExport p outage.rows u query db reply
    unfolding export_filter
    answered cid bbox (refused status code) a n b h = tt
    answered cid bbox (sent status body) a n b h =
        (v, (cid, bbox, a, b, export_rows-crisis p (export_filter cid bbox query) db n, h))

    within :
        (bbox : Option (F × F × F × F)) (cid : Option String)
        → query.bbox ≡ some bbox
        → IsReached u cid
        → IsExport p outage.rows u query db (export_within p outage cid bbox query earlier db)
    unfolding export_within
    within bbox none b h = tt
    within bbox (some cid) b (a, n) = answered cid bbox _ a n b (
        export_as-HoldsAll p (export_filter cid bbox query) earlier db same outage
          (format_of p outage query))

  boxed :
      (p : Press F) (outage : ExportOutage) (u : User) (query : ExportQuery F) (earlier db : Db F)
      (same : earlier.reports ≡ db.reports) (v : is_viewer_tier u ≡ false)
      (b : Option (Option (F × F × F × F)))
      → query.bbox ≡ b
      → IsExport p outage.rows u query db (elim b [
        | none ↦ refused 400 "bad_bbox"
        | some bbox ↦
            if outage.scope
            then refused 500 "internal"
            else export_within p outage
                (scoped_crisis (some u) query.crisis_id earlier)
                bbox
                query
                earlier
                db
      ])
  boxed p outage u query earlier db same v none e = tt
  boxed p outage u query earlier db same v (some bbox) e =
      if_both (IsExport p outage.rows u query db) outage.scope (λ o. tt)
        (λ o.
          within p outage u query earlier db same v bbox
            (scoped_crisis (some u) query.crisis_id earlier) e
            (scoped_crisis-IsReached u query.crisis_id earlier))

  -- Whatever a user asks to export, where no report changes between the query of the keys and that
  -- of the rows: nothing for an external viewer; else, where it is not refused, a body of the reports
  -- of one crisis in the user's scope. If the rows did not break off it holds all that match the
  -- filter and no other, newest first; a CSV reads back as their cells, the other formats are
  -- written from them, and the dynamic columns are those that they have. If the rows broke off it
  -- is GeoJSON, CSV or KML and the beginning of what is written of the reports until then.
  pub export_reports-IsExport :
      (p : Press F) (outage : ExportOutage) (u : User) (query : ExportQuery F) (earlier db : Db F)
      → earlier.reports ≡ db.reports
      → IsExport p outage.rows u query db (export_reports p outage (some u) query earlier db)
  unfolding export_reports
  export_reports-IsExport p outage u query earlier db same =
      if_both (IsExport p outage.rows u query db) (is_viewer_tier u) (λ e. tt)
        (λ v. boxed p outage u query earlier db same v query.bbox refl)
