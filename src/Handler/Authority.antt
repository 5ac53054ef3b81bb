-- ===== src/Handler/Authority.antt =====
-- Who can change what, and what a change leaves on the record.
use beacon_backend.Prelude.{
  ℕ, String, Option, none, some, List, [], ◌∷◌, ◌++◌, Bool, true, false, ◌≡◌, ◌≢◌, ◌⊎◌, inl, inr,
  refl, arith, ◌==◌, eq_iff, find_first, All, any, map,
}
use beacon_backend.Std.{is_blank, points_to}
use beacon_backend.Std.Float.{Float}
use beacon_backend.Model.Vocabulary.{contains, verifications}
use beacon_backend.Model.Report.{Report, VerificationRequest}
use beacon_backend.Model.User.{User, can_mutate, can_manage_crisis, scope_allows}
use beacon_backend.Store.Db.{Row, BuildingRow, Db}
use beacon_backend.Store.Scan.{or_text}
use beacon_backend.Store.Verification.{decision, decide_on, update_verification}
use beacon_backend.Store.Crises.{released_report, released_building, set_crisis_status}
use beacon_backend.Handler.Reply.{sent}
use beacon_backend.Handler.Middleware.{require_mutator}
use beacon_backend.Handler.Scope.{is_in_scope, scope_allows_crisis, scope_report_mutation}
use beacon_backend.Handler.Moderation.{
  Faults, requested, lifecycle, patch_verification, change_status,
}

module _ {F : Type 0} ⦃fl : Float F⦄ where
  sent-missing :
      (now : ℕ) (faults : Faults) (u : User) (id : String) (r : VerificationRequest) (db : Db F)
      (code : ℕ) (rep : Report F)
      → find_first (λ x. x.id == id) db.reports ≡ none
      → (patch_verification now faults (some u) id (some r) db).0 ≢ sent code rep
  unfolding patch_verification require_mutator scope_report_mutation update_verification decide_on
  sent-missing now faults u id r db code rep e h = ground (arith, e, h)

  sent-found :
      (now : ℕ) (faults : Faults) (u : User) (id : String) (r : VerificationRequest) (db : Db F)
      (code : ℕ) (rep : Report F) (row : Row F)
      → find_first (λ x. x.id == id) db.reports ≡ some row
      → (patch_verification now faults (some u) id (some r) db).0 ≡ sent code rep
      → (can_mutate u ≡ true)
        × (is_in_scope u (or_text row.crisis_id "") ≡ true)
        × (contains verifications (requested r) ≡ true)
        × ((requested r ≢ "verified") ⊎ (is_blank row.photo_url ≡ false) ⊎ (r.force ≡ true))
        × ((patch_verification now faults (some u) id (some r) db).1.audits
            ≡ db.audits ++ decision id row.verification (requested r) u.email r.note r.force ∷ [])
  unfolding patch_verification require_mutator scope_report_mutation update_verification decide_on
      is_in_scope
  sent-found now faults u id r db code rep row e h = (
    ground (arith, e, h),
    ground (arith, e, h),
    ground (arith, e, h),
    ground (arith, e, h, eq_iff (requested r) "verified"),
    ground (arith, e, h),
  )

  -- A verification decision that is answered with a report was taken by a user whose role may
  -- change reports and whose scope holds the report's crisis, for a known status, and with a photo
  -- or by force where that is "verified"; its audit row names the old and the new status and the
  -- user.
  pub patch_verification-sent :
      (now : ℕ) (faults : Faults) (user : Option User) (id : String)
      (req : Option VerificationRequest) (db : Db F) (code : ℕ) (rep : Report F)
      → (patch_verification now faults user id req db).0 ≡ sent code rep
      → (u : User) × (r : VerificationRequest) × (row : Row F) × (user ≡ some u)
        × (req ≡ some r)
        × (find_first (λ x. x.id == id) db.reports ≡ some row)
        × (can_mutate u ≡ true)
        × (is_in_scope u (or_text row.crisis_id "") ≡ true)
        × (contains verifications (requested r) ≡ true)
        × ((requested r ≢ "verified") ⊎ (is_blank row.photo_url ≡ false) ⊎ (r.force ≡ true))
        × ((patch_verification now faults user id req db).1.audits
            ≡ db.audits ++ decision id row.verification (requested r) u.email r.note r.force ∷ [])
  unfolding patch_verification require_mutator
  patch_verification-sent now faults none id req db code rep h = ground arith
  patch_verification-sent now faults (some u) id none db code rep h = ground arith
  patch_verification-sent now faults (some u) id (some r) db code rep h =
      go (find_first (λ x. x.id == id) db.reports) refl
    where
      go :
          (o : Option (Row F))
          → find_first (λ x. x.id == id) db.reports ≡ o
          → (u' : User) × (r' : VerificationRequest) × (row : Row F) × (some u ≡ some u')
            × (some r ≡ some r')
            × (find_first (λ x. x.id == id) db.reports ≡ some row)
            × (can_mutate u' ≡ true)
            × (is_in_scope u' (or_text row.crisis_id "") ≡ true)
            × (contains verifications (requested r') ≡ true)
            × ((requested r' ≢ "verified") ⊎ (is_blank row.photo_url ≡ false) ⊎ (r'.force ≡ true))
            × ((patch_verification now faults (some u) id (some r) db).1.audits
                ≡ db.audits
                  ++ decision id row.verification (requested r') u'.email r'.note r'.force ∷ [])
      go none e = absurd (sent-missing now faults u id r db code rep e h)
      go (some row) e =
          let (a, b, c, d, f) = sent-found now faults u id r db code rep row e h in
          (u, r, row, refl, refl, e, a, b, c, d, f)

  -- A crisis's status is changed only by a user who manages crises and has the crisis in scope, and
  -- only to a status of the lifecycle.
  pub change_status-changed :
      (now : ℕ) (lost : Bool) (user : Option User) (id : String) (status : Option String)
      (db : Db F)
      → ((change_status now lost user id status db).1 ≡ db)
        ⊎ ((u : User) × (s : String) × (user ≡ some u)
            × (status ≡ some s)
            × (can_manage_crisis u ≡ true)
            × (scope_allows u id ≡ true)
            × (contains lifecycle s ≡ true)
            × ((change_status now lost user id status db).1 ≡ (set_crisis_status now id s db).1))
  unfolding change_status require_mutator scope_allows_crisis
  change_status-changed now lost none id status db = inl refl
  change_status-changed now lost (some u) id none db = inl (ground arith)
  change_status-changed now lost (some u) id (some s) db = elim either [
    | inl e ↦ inl e
    | inr (a, b, c, e) ↦ inr (u, s, refl, refl, a, b, c, e)
  ]
    where
      either :
          ((change_status now lost (some u) id (some s) db).1 ≡ db)
          ⊎ ((can_manage_crisis u ≡ true)
              × (scope_allows u id ≡ true)
              × (contains lifecycle s ≡ true)
              × ((change_status now lost (some u) id (some s) db).1
                  ≡ (set_crisis_status now id s db).1))
      either = ground arith

  released_rows :
      (now : ℕ) (id : String) (rows : List (Row F))
      → All (λ r. points_to r.crisis_id id ≡ false) (map (released_report now id) rows)
  released_rows now id [] = tt
  released_rows now id (r ∷ rs) = (ground arith, released_rows now id rs)

  released_sites :
      (id : String) (bs : List (BuildingRow F))
      → All (λ b. points_to b.crisis_id id ≡ false) (map (released_building id) bs)
  released_sites id [] = tt
  released_sites id (b ∷ bs) = (ground arith, released_sites id bs)

  -- Dismissing a crisis leaves no report and no building of it.
  pub set_crisis_status-dismissed :
      (now : ℕ) (id : String) (db : Db F)
      → any (λ c. c.id == id) db.crises ≡ true
      → All
          (λ r. points_to r.crisis_id id ≡ false)
          (set_crisis_status now id "dismissed" db).1.reports
        × All
            (λ b. points_to b.crisis_id id ≡ false)
            (set_crisis_status now id "dismissed" db).1.buildings
  unfolding set_crisis_status
  set_crisis_status-dismissed now id db h =
      rw h (released_rows now id db.reports, released_sites id db.buildings)
