-- ===== src/Store/Stats.antt =====
-- internal/store/stats.go: StatsCounts, TimeSeries and Recent. Instants are microseconds; the area
-- groups of the overview are left out.
pub mod Laws
use beacon_backend.Prelude.{
  ℕ, zero, suc, ◌+◌, ◌-◌, ◌*◌, ◌/◌, String, Option, none, some, List, [], ◌∷◌, Bool, ◌&&◌, ◌==◌,
  eqb, ltb, if◌then◌else◌, map, select, take, length, find_first,
}
use beacon_backend.Std.{points_to}
use beacon_backend.Std.Float.{Float}
use beacon_backend.Model.Report.{Report}
use beacon_backend.Model.Vocabulary.{rollup_tier}
use beacon_backend.Store.Db.{Row, Db, Postgis}
use beacon_backend.Store.Scan.{scan_report}
use beacon_backend.Store.Listing.{ordered}

pub record DamageTierCounts : Type 0 where
  pub minimal : ℕ
  pub partial : ℕ
  pub complete : ℕ

pub record VerificationCounts : Type 0 where
  pub verified : ℕ
  pub pending : ℕ
  pub flagged : ℕ

pub record Counts : Type 0 where
  pub total : ℕ
  pub tier : DamageTierCounts
  pub ver : VerificationCounts
  pub synced : ℕ

-- The index counts the steps back from now.
pub record TimeBucket : Type 0 where
  pub hour : ℕ
  pub count : ℕ

-- Microseconds in an hour, a day and a minute.
abbrev pub hour : ℕ
hour = 3600000000

abbrev pub day : ℕ
day = 24 * hour

abbrev pub minute : ℕ
minute = 60000000

-- int(math.Ceil(ageHours / 24)), at least 7 and at most 30.
abbrev pub clamp_days : ℕ → ℕ
clamp_days n = let m = if ltb n 7 then 7 else n in if ltb 30 m then 30 else m

-- The unit, the width of a bucket in minutes and the number of buckets.
unfoldable pub buckets_for : ℕ → String × ℕ × ℕ
buckets_for age =
    if ltb (48 * hour) age
    then ("day", 60 * 24, clamp_days ((age + day - 1) / day))
    else ("hour", 60, 12)

module _ {F : Type 0} where
  -- count(*) FILTER (WHERE p)
  abbrev pub count_if : (Row F → Bool) → List (Row F) → ℕ
  count_if p rows = length (select p rows)

  -- WHERE crisis_id = $1
  abbrev pub of_crisis : String → List (Row F) → List (Row F)
  of_crisis id rows = select (λ r. points_to r.crisis_id id) rows

  abbrev pub has_tier : String → Row F → Bool
  has_tier tier r = rollup_tier r.damage == tier

  unfoldable pub stats_counts : String → Db F → Counts
  stats_counts id db =
      let rows = of_crisis id db.reports in
      record {
        total = length rows;
        tier = record {
          minimal = count_if (has_tier "minimal") rows;
          partial = count_if (has_tier "partial") rows;
          complete = count_if (has_tier "complete") rows;
        };
        ver = record {
          verified = count_if (λ r. r.verification == "verified") rows;
          pending = count_if (λ r. r.verification == "pending") rows;
          flagged = count_if (λ r. r.verification == "flagged") rows;
        };
        synced = count_if (λ r. r.synced) rows;
      }

  -- The age of a crisis, 0 for an unknown one.
  unfoldable pub crisis_age : ℕ → String → Db F → ℕ
  crisis_age now id db = elim (find_first (λ c. c.id == id) db.crises) [
    | none ↦ 0
    | some c ↦ now - c.started_at
  ]

  -- LEAST(n - 1, FLOOR(GREATEST(0, minutes) / width))
  unfoldable pub bucket_of : ℕ → ℕ → ℕ → Row F → ℕ
  bucket_of now width n r =
      let b = (now - r.captured_at) / (minute * width) in if ltb b (n - 1) then b else n - 1

  -- The buckets from the oldest to the newest.
  unfoldable pub series_of : (Row F → ℕ) → ℕ → List (Row F) → List TimeBucket
  series_of bucket zero rows = []
  series_of bucket (suc g) rows =
      record { hour = g; count = count_if (λ r. eqb (bucket r) g) rows } ∷ series_of bucket g rows

  unfoldable pub time_series : ℕ → String → Db F → List TimeBucket × String
  unfolding crisis_age buckets_for bucket_of series_of
  time_series now id db =
      let (unit, width, n) = buckets_for (crisis_age now id db) in
      (series_of (bucket_of now width n) n (of_crisis id db.reports), unit)

  unfoldable pub recent : ⦃fl : Float F⦄ → Postgis F → ℕ → String → ℕ → Db F → List (Report F)
  recent gis now id n db = map (scan_report now) (take n (ordered gis (of_crisis id db.reports)))
