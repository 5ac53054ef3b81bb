-- ===== src/Store/Emergent/Laws.antt =====
-- What forming an emergent crisis changes, and when it may happen.
use beacon_backend.Prelude.{
  ℕ, ◌≤◌, ◌<◌, String, Option, none, some, List, [], ◌∷◌, ◌++◌, Bool, ◌≡◌, ◌⊎◌, inl, inr, refl,
  arith, eq_refl, select, length, map, ltb, ltb→lt, All, Bool-cases,
}
use beacon_backend.Std.Float.{Float}
use beacon_backend.Model.Vocabulary.{contains}
use beacon_backend.Store.Db.{Row, CrisisRow, Db, Postgis}
use beacon_backend.Store.Emergent.{
  EmergentConfig, AdminScope, Surroundings, clustered, distinct, proposed_crisis, pulled_in,
  detect_emergent_crisis,
}

-- A row less the two columns that a pull-in or a release may change.
abbrev pub frozen : {F : Type 0} → Row F → Row F
frozen row = record row { crisis_id = none; updated_at = 0 }

frozen-pulled_in :
    {F : Type 0} ⦃fl : Float F⦄ (gis : Postgis F) (now : ℕ) (id : String) (test : Row F → Bool)
    (rows : List (Row F))
    → map frozen (map (pulled_in gis now id test) rows) ≡ map frozen rows
unfolding pulled_in
frozen-pulled_in gis now id test [] = refl
frozen-pulled_in gis now id test (r ∷ rs) = ground (arith, frozen-pulled_in gis now id test rs)

module _ {F : Type 0} ⦃fl : Float F⦄ (gis : Postgis F) (env : Surroundings F) (lat lng : F) (at : ℕ)
    (cfg : EmergentConfig F) (scope : AdminScope) (db : Db F) where
  abbrev outcome : String × Db F
  outcome = detect_emergent_crisis gis env lat lng at cfg scope db

  abbrev cluster : List (Row F)
  cluster = select (clustered gis lat lng at cfg scope) db.reports

  -- Detection touches no report but its crisis and its update time, and no audit or withdrawal.
  pub detect_emergent_crisis-frozen :
      (map frozen outcome.1.reports ≡ map frozen db.reports)
      × (outcome.1.submitters ≡ db.submitters)
      × (outcome.1.audits ≡ db.audits)
      × (outcome.1.withdrawals ≡ db.withdrawals)
  unfolding detect_emergent_crisis
  detect_emergent_crisis-frozen =
      elim (Bool-cases
        (ltb (length (distinct (map (λ r. r.submitter_id) cluster))) cfg.min_reports)) [
          | inl e ↦ rw e (refl, refl, refl, refl)
          | inr e ↦ rw e (frozen-pulled_in gis env.now _ _ db.reports, refl, refl, refl)
        ]

  -- Below the minimum of distinct submitters among the gated reports no table changes; from it on
  -- a crisis is added at the end that is proposed, emergent and open, its id is the answer, and
  -- the reports are as before but that exactly the gated ones are attached to it.
  pub detect_emergent_crisis_lem :
      let reporters = distinct (map (λ r. r.submitter_id) cluster) in
      ((length reporters < cfg.min_reports) × (outcome ≡ ("", db)))
      ⊎ ((cfg.min_reports ≤ length reporters)
          × (c : CrisisRow F) × (c.status ≡ "proposed")
          × (c.source ≡ "emergent")
          × (c.ended_at ≡ none)
          × (c.radius_km ≡ cfg.radius_km)
          × (outcome.0 ≡ c.id)
          × (outcome.1.crises ≡ db.crises ++ c ∷ [])
          × (outcome.1.reports
              ≡ map (pulled_in gis env.now c.id (clustered gis lat lng at cfg scope)) db.reports))
  unfolding detect_emergent_crisis proposed_crisis
  detect_emergent_crisis_lem =
      elim (Bool-cases
        (ltb (length (distinct (map (λ r. r.submitter_id) cluster))) cfg.min_reports)) [
          | inl e ↦ inl (ltb→lt _ _ e, rw e refl)
          | inr e ↦ inr (
            ground (arith, e),
            proposed_crisis gis env cfg scope cluster,
            refl,
            refl,
            refl,
            refl,
            rw e refl,
            rw e refl,
            rw e refl,
          )
        ]

distinct-one :
    (s : String) (xs : List (Option String))
    → All (λ x. (x ≡ none) ⊎ (x ≡ some s)) xs
    → (distinct xs ≡ []) ⊎ (distinct xs ≡ s ∷ [])
unfolding distinct contains
distinct-one s [] h = inl refl
distinct-one s (none ∷ xs) (h, t) = distinct-one s xs t
distinct-one s (some x ∷ xs) (h, t) = ground (arith, distinct-one s xs t, eq_refl s)

All-map :
    {A B : Type 0} (f : A → B) (P : B → Type 0) (xs : List A)
    → All (λ x. P (f x)) xs
    → All P (map f xs)
All-map f P [] h = tt
All-map f P (x ∷ xs) (h, t) = (h, All-map f P xs t)

module _ {F : Type 0} ⦃fl : Float F⦄ (gis : Postgis F) (env : Surroundings F) (lat lng : F) (at : ℕ)
    (cfg : EmergentConfig F) (scope : AdminScope) (db : Db F) where
  -- However many pending reports stand close together, those of one submitter, with those of
  -- nobody, never form a crisis under a minimum of two or more.
  pub detect_emergent_crisis-one :
      (s : String)
      → 2 ≤ cfg.min_reports
      → All
          (λ r. (r.submitter_id ≡ none) ⊎ (r.submitter_id ≡ some s))
          (select (clustered gis lat lng at cfg scope) db.reports)
      → detect_emergent_crisis gis env lat lng at cfg scope db ≡ ("", db)
  detect_emergent_crisis-one s m h =
      let one = distinct-one s _ (All-map (λ r. r.submitter_id) _ _ h) in
      ground (arith, one, detect_emergent_crisis_lem gis env lat lng at cfg scope db)
