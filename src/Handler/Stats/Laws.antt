-- ===== src/Handler/Stats/Laws.antt =====
-- What the overview of a crisis says, and to whom.
use beacon_backend.Prelude.{
  ℕ, ◌+◌, ◌≤◌, String, Option, none, some, List, [], ◌∷◌, Bool, true, false, ◌==◌, ◌≡◌, inl, inr,
  refl, arith, eq_iff, if◌then◌else◌, All, select, take, length, length-map, length-take,
  length-select_le, Bool-cases, if_both,
}
use beacon_backend.Prelude.Int.{ℤ}
use beacon_backend.Std.{points_to}
use beacon_backend.Std.Float.{Float}
use beacon_backend.Model.Report.{Report}
use beacon_backend.Model.User.{User, is_viewer_tier, scope_allows}
use beacon_backend.Store.Db.{Row, Db, Postgis}
use beacon_backend.Store.Scan.{or_text, scan_report}
use beacon_backend.Store.Listing.{ordered}
use beacon_backend.Store.Listing.Order.{All-ordered}
use beacon_backend.Store.Listing.Matching.{All-take, All-select, selected}
use beacon_backend.Store.Stats.{of_crisis, stats_counts, recent}
use beacon_backend.Store.Stats.Laws.{
  sum_counts, IsStatus, tiers_add, statuses_add, sum_counts-time_series,
}
use beacon_backend.System.Rows.{All-imp}
use beacon_backend.Handler.Reply.{Reply, sent, refused}
use beacon_backend.Handler.Scope.{scoped_crisis}
use beacon_backend.Handler.Projection.{public_projection}
use beacon_backend.Handler.Listing.Allowed.{IsShown}
use beacon_backend.Handler.Export.Reached.{
  IsReached, scoped_crisis-IsReached, points_to-or_text, All-scan_report,
}
use beacon_backend.Handler.Stats.{StatsOverview, overview, projected, overview_for, stats_overview}

module _ {F : Type 0} ⦃fl : Float F⦄ where
  -- The numbers add up to the reports of the crisis.
  abbrev AddsUp : String → Db F → StatsOverview F → Type 0
  AddsUp cid db o =
      (o.total_reports ≡ length (of_crisis cid db.reports))
      × (o.damage_tier_counts.minimal + o.damage_tier_counts.partial + o.damage_tier_counts.complete
          ≡ o.total_reports)
      × (o.verification_counts.verified + o.verification_counts.pending
            + o.verification_counts.flagged
          ≡ o.total_reports)
      × (sum_counts o.time_series ≡ o.total_reports)

  -- At most six reports of the crisis, as the user may see them.
  abbrev IsRecent : User → String → List (Report F) → Type 0
  IsRecent u cid reps = All (λ rep. (rep.crisis_id ≡ cid) × IsShown u rep) reps × (length reps ≤ 6)

  abbrev pub IsOverview : User → Db F → Reply (StatsOverview F) → Type 0
  IsOverview u db (refused status code) = Unit
  IsOverview u db (sent status o) =
      (cid : String) × (scope_allows u cid ≡ true) × AddsUp cid db o × IsRecent u cid o.recent

  recent-crisis :
      (gis : Postgis F) (now : ℕ) (cid : String) (db : Db F)
      → All (λ rep. rep.crisis_id ≡ cid) (recent gis now cid 6 db)
        × (length (recent gis now cid 6 db) ≤ 6)
  unfolding recent
  recent-crisis gis now cid db =
      let P = λ (r : Row F). points_to r.crisis_id cid ≡ true in
      let rows = ordered gis (of_crisis cid db.reports) in
      let l = length-take 6 rows in
      (
        All-scan_report now cid (take 6 rows) (
            All-imp P (λ r. or_text r.crisis_id "" ≡ cid) (take 6 rows)
              (λ r h. points_to-or_text r.crisis_id cid h)
              (All-take P 6 rows (
                All-ordered gis P (of_crisis cid db.reports)
                  (selected (λ r. points_to r.crisis_id cid) db.reports)))),
        let m = length-map (scan_report now) (take 6 rows) in omega (arith, l, m),
      )

  whole :
      (u : User) (cid : String) (reps : List (Report F))
      → is_viewer_tier u ≡ false
      → All (λ rep. rep.crisis_id ≡ cid) reps
      → All (λ rep. (rep.crisis_id ≡ cid) × IsShown u rep) reps
  whole u cid [] v a = tt
  whole u cid (rep ∷ reps) v (c, a) = ((c, inl v), whole u cid reps v a)

  projected-IsShown :
      (u : User) (cid : String) (reps : List (Report F))
      → All (λ rep. rep.crisis_id ≡ cid) reps
      → All (λ rep. (rep.crisis_id ≡ cid) × IsShown u rep) (projected reps)
  unfolding projected public_projection
  projected-IsShown u cid [] a = tt
  projected-IsShown u cid (rep ∷ reps) (c, a) = elim (Bool-cases (rep.verification == "verified")) [
    | inr n ↦ rw n (projected-IsShown u cid reps a)
    | inl v ↦ rw v (
      (c, inr (rep, refl, (eq_iff rep.verification "verified").0 v)),
      projected-IsShown u cid reps a,
    )
  ]

  length-projected : (reps : List (Report F)) → length (projected reps) ≤ length reps
  unfolding projected
  length-projected reps =
      let a = length-map public_projection (select (λ rep. rep.verification == "verified") reps) in
      let b = length-select_le (λ rep. rep.verification == "verified") reps in omega (arith, a, b)

  module _ (to_int : F → ℤ) (gis : Postgis F) (now : ℕ) (u : User) (db : Db F) where
    overview-AddsUp :
        (cid : String)
        → All (λ r. IsStatus r.verification) db.reports
        → AddsUp cid db (overview to_int gis now cid db)
    unfolding overview stats_counts
    overview-AddsUp cid h =
        let rows = of_crisis cid db.reports in
        (
          refl,
          tiers_add rows,
          statuses_add rows (
              All-select (λ r. IsStatus r.verification) (λ r. points_to r.crisis_id cid) db.reports
                h),
          sum_counts-time_series now cid db,
        )

    answered :
        (cid : String)
        → scope_allows u cid ≡ true
        → All (λ r. IsStatus r.verification) db.reports
        → IsOverview u db (sent 200 (overview_for (some u) (overview to_int gis now cid db)))
    unfolding overview_for overview
    answered cid s h =
        let (c, l) = recent-crisis gis now cid db in
        let adds = overview-AddsUp cid h in
        let o = overview to_int gis now cid db in
        let m = length-projected (recent gis now cid 6 db) in
        if_both (λ shown. IsOverview u db (sent 200 shown)) (is_viewer_tier u)
          {x = record o { recent = projected o.recent }} {y = o}
          (λ v. (
            cid,
            s,
            adds,
            (projected-IsShown u cid (recent gis now cid 6 db) c, omega (arith, l, m)),
          ))
          (λ v. (cid, s, adds, (whole u cid (recent gis now cid 6 db) v c, l)))

    within :
        (broken : Bool) (cid : Option String)
        → IsReached u cid
        → All (λ r. IsStatus r.verification) db.reports
        → IsOverview u db (elim cid [
          | none ↦ refused 403 "out_of_scope"
          | some cid ↦
              if broken
              then refused 500 "internal"
              else sent 200 (overview_for (some u) (overview to_int gis now cid db))
        ])
    within broken none a h = tt
    within broken (some cid) (a, n) h =
        if_both (IsOverview u db) broken (λ e. tt) (λ e. answered cid a h)

    -- Where every stored status is one of the three, an overview is of a crisis in the user's scope; its
    -- tiers, its statuses and its time buckets each add up to the number of that crisis's reports; and
    -- it holds at most six reports, all of the crisis, for an external viewer only projections of
    -- verified ones.
    pub stats_overview-IsOverview :
        (lost broken : Bool) (query : String)
        → All (λ r. IsStatus r.verification) db.reports
        → IsOverview u db (stats_overview to_int gis now lost broken (some u) query db)
    unfolding stats_overview
    stats_overview-IsOverview lost broken query h =
        if_both (IsOverview u db) lost (λ e. tt)
          (λ e.
            within broken (scoped_crisis (some u) query db) (scoped_crisis-IsReached u query db) h)
