-- ===== src/Store/Profile/Laws.antt =====
-- Points cannot be gamed.
use beacon_backend.Prelude.{
  ℕ, suc, ◌*◌, String, List, [], ◌∷◌, ◌++◌, Bool, false, ◌==◌, ◌&&◌, any, ◌≡◌, inl, inr, refl, sym,
  ap, ◌∙◌, All, Bool-cases, Option-cases, find_first,
}
use beacon_backend.Std.{points_to}
use beacon_backend.Store.Db.{Row, Db}
use beacon_backend.Store.Withdraw.{resolve_submitter_id}
use beacon_backend.Store.Profile.{
  Badge, Profile, reports_of, verified_of, derive_badges, profile_of, get_or_create_profile,
}

-- Whether a badge has been earned.
abbrev pub earned_badge : String → List Badge → Bool
earned_badge id badges = any (λ b. b.id == id && b.earned) badges

-- What a profile shows for verified work.
abbrev pub rewards : Profile → ℕ × Bool × Bool
rewards p = (p.points, earned_badge "first" p.badges, earned_badge "verified" p.badges)

module _ {F : Type 0} where
  abbrev pub IsUnverified : Row F → Type 0
  IsUnverified r = (r.verification == "verified") ≡ false

  verified_of-none :
      (submitter : String) (more : List (Row F))
      → All IsUnverified more
      → verified_of (reports_of submitter more) ≡ 0
  verified_of-none submitter [] a = refl
  verified_of-none submitter (r ∷ more) (n, a) =
      elim (Bool-cases (points_to r.submitter_id submitter)) [
        | inl e ↦ rw (e, n) (verified_of-none submitter more a)
        | inr e ↦ rw e (verified_of-none submitter more a)
      ]

  verified_of-append :
      (submitter : String) (rows more : List (Row F))
      → All IsUnverified more
      → verified_of (reports_of submitter (rows ++ more)) ≡ verified_of (reports_of submitter rows)
  verified_of-append submitter [] more a = verified_of-none submitter more a
  verified_of-append submitter (r ∷ rows) more a =
      elim (Bool-cases (points_to r.submitter_id submitter)) [
        | inr e ↦ rw e (verified_of-append submitter rows more a)
        | inl e ↦ elim (Bool-cases (r.verification == "verified")) [
          | inl v ↦ rw (e, v) (ap suc (verified_of-append submitter rows more a))
          | inr v ↦ rw (e, v) (verified_of-append submitter rows more a)
        ]
      ]

  -- Finding the submitter reads no report and changes none.
  resolve_submitter_id-reports :
      (uuid id : String) (db : Db F) (rows : List (Row F))
      → ((resolve_submitter_id uuid id (record db { reports = rows })).0
          ≡ (resolve_submitter_id uuid id db).0)
        × ((resolve_submitter_id uuid id (record db { reports = rows })).1.reports ≡ rows)
  unfolding resolve_submitter_id
  resolve_submitter_id-reports uuid id db rows =
      elim (Option-cases (find_first (λ s. s.anonymous_id == id) db.submitters)) [
        | inl e ↦ (rw (e, resolve_submitter_id) refl, rw (e, resolve_submitter_id) refl)
        | inr (s, e) ↦ (rw (e, resolve_submitter_id) refl, rw (e, resolve_submitter_id) refl)
      ]

  rewards-profile_of :
      (id submitter : String) (rows more : List (Row F))
      → All IsUnverified more
      → rewards (profile_of id submitter (rows ++ more)) ≡ rewards (profile_of id submitter rows)
  unfolding profile_of derive_badges
  rewards-profile_of id submitter rows more a =
      ap
        (λ n. (
          n * 10,
          earned_badge "first" (derive_badges 0 0 n),
          earned_badge "verified" (derive_badges 0 0 n),
        ))
        (verified_of-append submitter rows more a)

  -- Points and the badges for verified work cannot be had by sending reports: more reports, whosever
  -- they are and as long as none is verified, leave them as they are.
  pub get_or_create_profile-unverified :
      (uuid id : String) (db : Db F) (more : List (Row F))
      → All IsUnverified more
      → rewards (get_or_create_profile uuid id (record db { reports = db.reports ++ more })).0
        ≡ rewards (get_or_create_profile uuid id db).0
  unfolding get_or_create_profile
  get_or_create_profile-unverified uuid id db more a =
      let (s, r) = resolve_submitter_id-reports uuid id db (db.reports ++ more) in
      let (s0, r0) = resolve_submitter_id-reports uuid id db db.reports in
      let submitter = (resolve_submitter_id uuid id db).0 in
      let later =
        (resolve_submitter_id uuid id (record db { reports = db.reports ++ more })).1.reports in
      ap (λ t. rewards (profile_of id t later)) s
      ∙ ap (λ q. rewards (profile_of id submitter q)) r
      ∙ rewards-profile_of id submitter db.reports more a
      ∙ ap (λ q. rewards (profile_of id submitter q)) (sym r0)
