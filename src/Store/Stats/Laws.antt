-- ===== src/Store/Stats/Laws.antt =====
-- The counts of the overview add up.
use beacon_backend.Prelude.{
  ℕ, zero, suc, ◌+◌, ◌<◌, String, List, [], ◌∷◌, Bool, true, false, ◌==◌, ◌≡◌, ◌⊎◌, All, inl, inr,
  refl, ap, ◌∙◌, arith, eqb, ltb, length, Bool-cases, eq_iff,
}
use beacon_backend.Model.Vocabulary.{rollup_tier}
use beacon_backend.Store.Db.{Row, Db}
use beacon_backend.Store.Stats.{
  TimeBucket, count_if, of_crisis, has_tier, crisis_age, buckets_for, bucket_of, series_of,
  time_series,
}

abbrev pub sum_counts : List TimeBucket → ℕ
sum_counts [] = 0
sum_counts (b ∷ buckets) = b.count + sum_counts buckets

abbrev one : Bool → ℕ
one true = 1
one false = 0

abbrev IsTier : String → Type 0
IsTier t = (t ≡ "minimal") ⊎ (t ≡ "partial") ⊎ (t ≡ "complete")

rollup_tier-IsTier : (d : String) → IsTier (rollup_tier d)
unfolding rollup_tier
rollup_tier-IsTier d = elim (Bool-cases (d == "minimal")) [
  | inl e ↦ rw e (inl ((eq_iff d "minimal").0 e))
  | inr m ↦ elim (Bool-cases (d == "partial")) [
    | inl e ↦ rw (m, e) (inr (inl ((eq_iff d "partial").0 e)))
    | inr p ↦ elim (Bool-cases (d == "complete")) [
      | inl e ↦ rw (m, p, e) (inr (inr ((eq_iff d "complete").0 e)))
      | inr c ↦ rw (m, p, c) (inl refl)
    ]
  ]
]

one_tier :
    (t : String)
    → IsTier t
    → one (t == "minimal") + one (t == "partial") + one (t == "complete") ≡ 1
one_tier t (inl e) = rw e refl
one_tier t (inr (inl e)) = rw e refl
one_tier t (inr (inr e)) = rw e refl

one_below : (b g : ℕ) → one (ltb b (suc g)) ≡ one (eqb b g) + one (ltb b g)
one_below b g = ground arith

some_buckets : (age : ℕ) → 0 < (buckets_for age).2
unfolding buckets_for
some_buckets age = ground arith

-- A status that the column may hold.
abbrev pub IsStatus : String → Type 0
IsStatus v = (v ≡ "verified") ⊎ (v ≡ "pending") ⊎ (v ≡ "flagged")

one_status :
    (v : String)
    → IsStatus v
    → one (v == "verified") + one (v == "pending") + one (v == "flagged") ≡ 1
one_status v (inl e) = rw e refl
one_status v (inr (inl e)) = rw e refl
one_status v (inr (inr e)) = rw e refl

module _ {F : Type 0} where
  count_step :
      (p : Row F → Bool) (r : Row F) (rows : List (Row F))
      → count_if p (r ∷ rows) ≡ one (p r) + count_if p rows
  count_step p r rows = elim (Bool-cases (p r)) [
    | inl e ↦ rw e (omega arith)
    | inr e ↦ rw e (omega arith)
  ]

  -- Each row has one of the three tiers.
  pub tiers_add :
      (rows : List (Row F))
      → count_if (has_tier "minimal") rows
          + count_if (has_tier "partial") rows
          + count_if (has_tier "complete") rows
        ≡ length rows
  tiers_add [] = refl
  tiers_add (r ∷ rows) =
      let a = count_step (has_tier "minimal") r rows in
      let b = count_step (has_tier "partial") r rows in
      let c = count_step (has_tier "complete") r rows in
      let mine = one_tier (rollup_tier r.damage) (rollup_tier-IsTier r.damage) in
      let others = tiers_add rows in omega (arith, a, b, c, mine, others)

  pub statuses_add :
      (rows : List (Row F))
      → All (λ r. IsStatus r.verification) rows
      → count_if (λ r. r.verification == "verified") rows
          + count_if (λ r. r.verification == "pending") rows
          + count_if (λ r. r.verification == "flagged") rows
        ≡ length rows
  statuses_add [] h = refl
  statuses_add (r ∷ rows) (k, h) =
      let a = count_step (λ q. q.verification == "verified") r rows in
      let b = count_step (λ q. q.verification == "pending") r rows in
      let c = count_step (λ q. q.verification == "flagged") r rows in
      let mine = one_status r.verification k in
      let others = statuses_add rows h in omega (arith, a, b, c, mine, others)

  below :
      (bucket : Row F → ℕ) (g : ℕ) (rows : List (Row F))
      → count_if (λ r. ltb (bucket r) (suc g)) rows
        ≡ count_if (λ r. eqb (bucket r) g) rows + count_if (λ r. ltb (bucket r) g) rows
  below bucket g [] = refl
  below bucket g (r ∷ rows) =
      let a = count_step (λ q. ltb (bucket q) (suc g)) r rows in
      let b = count_step (λ q. eqb (bucket q) g) r rows in
      let c = count_step (λ q. ltb (bucket q) g) r rows in
      let mine = one_below (bucket r) g in
      let others = below bucket g rows in omega (arith, a, b, c, mine, others)

  nothing_below :
      (bucket : Row F → ℕ) (rows : List (Row F)) → 0 ≡ count_if (λ r. ltb (bucket r) 0) rows
  nothing_below bucket [] = refl
  nothing_below bucket (r ∷ rows) =
      let a = count_step (λ q. ltb (bucket q) 0) r rows in
      let b : one (ltb (bucket r) 0) ≡ 0 = ground arith in
      let others = nothing_below bucket rows in omega (arith, a, b, others)

  all_below :
      (bucket : Row F → ℕ) (n : ℕ) (rows : List (Row F))
      → ((r : Row F) → ltb (bucket r) n ≡ true)
      → count_if (λ r. ltb (bucket r) n) rows ≡ length rows
  all_below bucket n [] h = refl
  all_below bucket n (r ∷ rows) h = rw (h r) (ap suc (all_below bucket n rows h))

  -- The buckets below g have the rows that fall below g.
  sum_counts-series_of :
      (bucket : Row F → ℕ) (g : ℕ) (rows : List (Row F))
      → sum_counts (series_of bucket g rows) ≡ count_if (λ r. ltb (bucket r) g) rows
  unfolding series_of
  sum_counts-series_of bucket zero rows = nothing_below bucket rows
  sum_counts-series_of bucket (suc g) rows =
      let b = below bucket g rows in
      let ih = sum_counts-series_of bucket g rows in omega (arith, b, ih)

  bucket_of_within : (now width n : ℕ) (r : Row F) → 0 < n → ltb (bucket_of now width n r) n ≡ true
  unfolding bucket_of
  bucket_of_within now width n r h = ground (arith, h)

  -- The buckets of a crisis hold each of its reports once.
  pub sum_counts-time_series :
      (now : ℕ) (id : String) (db : Db F)
      → sum_counts (time_series now id db).0 ≡ length (of_crisis id db.reports)
  unfolding time_series
  sum_counts-time_series now id db =
      let rows = of_crisis id db.reports in
      let (unit, width, n) = buckets_for (crisis_age now id db) in
      sum_counts-series_of (bucket_of now width n) n rows
      ∙ all_below (bucket_of now width n) n rows
          (λ r. bucket_of_within now width n r (some_buckets (crisis_age now id db)))
