-- ===== src/Handler/Stats.antt =====
-- internal/service/stats_service.go and internal/handler/stats.go: the overview of a crisis, behind
-- requireAnalyst. Its area groups are left out.
pub mod Laws
use beacon_backend.Prelude.{
  ℕ, ◌+◌, String, Option, none, some, List, [], ◌∷◌, Bool, true, false, eqb, ◌==◌, if◌then◌else◌,
  map, select,
}
use beacon_backend.Prelude.Int.{ℤ, pos}
use beacon_backend.Std.Float.{Float, of_nat}
use beacon_backend.Model.Report.{Report}
use beacon_backend.Model.User.{User}
use beacon_backend.Store.Db.{Db, Postgis}
use beacon_backend.Store.Stats.{
  Counts, TimeBucket, DamageTierCounts, VerificationCounts, stats_counts, time_series, recent,
}
use beacon_backend.Handler.Reply.{Reply, sent, refused}
use beacon_backend.Handler.Scope.{scoped_crisis}
use beacon_backend.Handler.Listing.{viewer_tier}
use beacon_backend.Handler.Projection.{public_projection}

pub record StatsOverview (F : Type 0) : Type 0 where
  pub total_reports : ℕ
  pub damage_tier_counts : DamageTierCounts
  pub verification_counts : VerificationCounts
  pub synced_count : ℕ
  pub synced_pct : ℤ
  pub complete_pct : ℤ
  pub destroyed_pct : ℤ
  pub severe_plus_pct : ℤ
  pub time_series : List TimeBucket
  pub time_series_unit : String
  pub recent : List (Report F)

module _ {F : Type 0} ⦃fl : Float F⦄ where
  -- The reports that a viewer gets.
  unfoldable pub projected : List (Report F) → List (Report F)
  projected reps = map public_projection (select (λ rep. rep.verification == "verified") reps)

  unfoldable pub overview_for : Option User → StatsOverview F → StatsOverview F
  unfolding projected
  overview_for user o = if viewer_tier user then record o { recent = projected o.recent } else o

module _ {F : Type 0} ⦃fl : Float F⦄ (to_int : F → ℤ) where
  -- `to_int` is Go's int() of a float64.
  unfoldable pub pct : ℕ → ℕ → ℤ
  pct n total =
      if eqb total 0
      then pos 0
      else to_int (fl.round (fl.mul (fl.div (of_nat n) (of_nat total)) (of_nat 100)))

  unfoldable pub overview : Postgis F → ℕ → String → Db F → StatsOverview F
  unfolding pct
  overview gis now id db =
      let c = stats_counts id db in
      let (series, unit) = time_series now id db in
      record {
        total_reports = c.total;
        damage_tier_counts = c.tier;
        verification_counts = c.ver;
        synced_count = c.synced;
        synced_pct = pct c.synced c.total;
        complete_pct = pct c.tier.complete c.total;
        destroyed_pct = pct c.tier.complete c.total;
        severe_plus_pct = pct (c.tier.partial + c.tier.complete) c.total;
        time_series = series;
        time_series_unit = unit;
        recent = recent gis now id 6 db;
      }

  -- `lost` where the crisis cannot be resolved, `broken` where a query of the overview fails.
  unfoldable pub stats_overview :
      Postgis F → ℕ → Bool → Bool → Option User → String → Db F → Reply (StatsOverview F)
  unfolding overview overview_for
  stats_overview gis now lost broken user query db =
      if lost then refused 500 "internal" else elim (scoped_crisis user query db) [
        | none ↦ refused 403 "out_of_scope"
        | some cid ↦
            if broken
            then refused 500 "internal"
            else sent 200 (overview_for user (overview gis now cid db))
      ]
