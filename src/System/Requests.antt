-- ===== src/System/Requests.antt =====
-- Every request that writes keeps the tables' invariant.
use beacon_backend.Prelude.{
  ℕ, String, Option, none, some, List, [], ◌∷◌, ◌++◌, Bool, true, false, not, ◌&&◌, ◌==◌, ◌≡◌, ◌≢◌,
  ◌⊎◌, inl, inr, refl, arith, any, any-append, select, find_first, map, eq_iff, eq_refl, eq-of-str,
  Bool-cases, ne-of-str,
}
use beacon_backend.Std.{is_blank, points_to}
use beacon_backend.Std.Float.{Float}
use beacon_backend.Model.Vocabulary.{contains, verifications}
use beacon_backend.Model.Report.{SubmitReportRequest}
use beacon_backend.Model.Form.{FormOverrides}
use beacon_backend.Store.Db.{Row, Audit, Db}
use beacon_backend.Store.Insert.{passes_checks}
use beacon_backend.Store.Verification.{
  update_verification, decide_on, decided, decision, with_verification,
}
use beacon_backend.Store.Withdraw.{
  owns, device_of, withdraw_report, erased, cut_link, set_photo_url, with_photo, erase_owned,
}
use beacon_backend.Store.Crises.{released_report, set_crisis_status, set_form_overrides}
use beacon_backend.Store.Emergent.Laws.{frozen}
use beacon_backend.Service.Submit.Context.{Env}
use beacon_backend.Service.Submit.{submit}
use beacon_backend.Service.Submission.Outcome.{Kept, submit-cases, Created-pending}
use beacon_backend.System.Rows.{
  NoRepeat-select, map-same, All-imp, All-map, All-select, All-both, found_alone,
}
use beacon_backend.System.Sound.{IsFine, IsSound, is_forced, IsSound-Kept, IsSound-Appended}

module _ {F : Type 0} where
  pub IsSound-same :
      (old new : Db F)
      → IsSound old
      → new.reports ≡ old.reports
      → new.audits ≡ old.audits
      → IsSound new
  IsSound-same old new s r a = record {
    ids = rw r s.ids;
    keys = rw r s.keys;
    fine = rw (r, a) s.fine;
  }

forced-kept :
    (id : String) (audits : List Audit) (a : Audit)
    → any (is_forced id) audits ≡ true
    → any (is_forced id) (audits ++ a ∷ []) ≡ true
forced-kept id audits a h = ground (arith, any-append (is_forced id) audits (a ∷ []))

module _ {F : Type 0} ⦃fl : Float F⦄ where
  pub IsSound-submit :
      (env : Env F) (req : SubmitReportRequest F) (sid : Option String) (db : Db F)
      → IsSound db
      → IsSound (submit env req sid db).1
  IsSound-submit env req sid db s = elim (submit-cases env req sid db) [
    | inl k ↦ IsSound-Kept db _ s k
    | inr (r', c, k) ↦
        let p = Created-pending env req sid db r' c in
        IsSound-Kept _ _ (IsSound-Appended _ db _ s c.appended p.0) k
  ]

  pub update_verification-cases :
      (now : ℕ) (id status actor : String) (remark : Option String) (force : Bool) (db : Db F)
      → let new = (update_verification now id status actor remark force db).1 in
        (new ≡ db)
        ⊎ ((row : Row F) × (find_first (λ r. r.id == id) db.reports ≡ some row)
            × ((status == "verified" && is_blank row.photo_url && not force) ≡ false)
            × (new ≡ decided now id status actor remark force row db))
  unfolding update_verification decide_on
  update_verification-cases now id status actor remark force db =
      go (find_first (λ r. r.id == id) db.reports) refl
    where
      go :
          (o : Option (Row F))
          → find_first (λ r. r.id == id) db.reports ≡ o
          → let new = (decide_on now id status actor remark force o db).1 in
            (new ≡ db)
            ⊎ ((row : Row F) × (find_first (λ r. r.id == id) db.reports ≡ some row)
                × ((status == "verified" && is_blank row.photo_url && not force) ≡ false)
                × (new ≡ decided now id status actor remark force row db))
      go none h = inl refl
      go (some row) h =
          elim (Bool-cases (status == "verified" && is_blank row.photo_url && not force)) [
            | inl g ↦ inl (rw g refl)
            | inr g ↦ inr (row, h, g, rw g refl)
          ]

  IsFine-decided :
      (now : ℕ) (id status actor : String) (remark : Option String) (force : Bool) (row : Row F)
      (db : Db F)
      → contains verifications status ≡ true
      → (status == "verified" && is_blank row.photo_url && not force) ≡ false
      → (r : Row F) → IsFine db.audits r × (((r.id == id) ≡ false) ⊎ (r ≡ row))
      → IsFine
          (db.audits ++ decision id row.verification status actor remark force ∷ [])
          (with_verification now id status r)
  unfolding passes_checks
  IsFine-decided now id status actor remark force row db v g r ((c, f), o) =
      let d = decision id row.verification status actor remark force in
      let audit = any-append (is_forced r.id) db.audits (d ∷ []) in
      elim (Bool-cases (r.id == id)) [
        | inr e ↦ rw e (c, ground (arith, f, forced-kept r.id db.audits d))
        | inl e ↦ rw e (
          ground (arith, c, v),
          gate (Bool-cases (status == "verified")) (Bool-cases (is_blank r.photo_url)) e o,
        )
      ]
    where
      d : Audit
      d = decision id row.verification status actor remark force

      gate :
          ((status == "verified") ≡ true) ⊎ ((status == "verified") ≡ false)
          → (is_blank r.photo_url ≡ true) ⊎ (is_blank r.photo_url ≡ false)
          → (r.id == id) ≡ true
          → ((r.id == id) ≡ false) ⊎ (r ≡ row)
          → (status ≢ "verified")
            ⊎ (is_blank r.photo_url ≡ false)
            ⊎ (any (is_forced r.id) (db.audits ++ d ∷ []) ≡ true)
      gate (inr s) b e o = inl (ne-of-str status "verified" s)
      gate (inl s) (inr b) e o = inr (inl b)
      gate (inl s) (inl b) e (inl n) = ground arith
      gate (inl s) (inl b) e (inr same) =
          let blank : is_blank row.photo_url ≡ true = rw same at b in
          let f : force ≡ true = ground (arith, g, s, blank) in
          inr (
            inr (
              rw
                (
                  any-append (is_forced r.id) db.audits (d ∷ []),
                  f,
                  s,
                  eq-of-str r.id id e,
                  eq_refl id,
                )
                (ground arith)))

  -- A decision keeps the invariant, since the photo gate stands before it.
  pub IsSound-update_verification :
      (now : ℕ) (id status actor : String) (remark : Option String) (force : Bool) (db : Db F)
      → contains verifications status ≡ true
      → IsSound db
      → IsSound (update_verification now id status actor remark force db).1
  IsSound-update_verification now id status actor remark force db v s =
      elim (update_verification-cases now id status actor remark force db) [
        | inl e ↦ rw e s
        | inr (row, found, gate, e) ↦ rw e (kept row found gate)
      ]
    where
      kept :
          (row : Row F)
          → find_first (λ r. r.id == id) db.reports ≡ some row
          → (status == "verified" && is_blank row.photo_url && not force) ≡ false
          → IsSound (decided now id status actor remark force row db)
      kept row found gate = record {
        ids =
            rw
              (map-same (with_verification now id status) (λ r. r.id) db.reports
                (λ r. ground arith))
              s.ids;
        keys =
            rw
              (map-same (with_verification now id status) (λ r. r.idempotency_key) db.reports
                (λ r. ground arith))
              s.keys;
        fine =
            All-map (λ r. IsFine db.audits r × (((r.id == id) ≡ false) ⊎ (r ≡ row)))
              (IsFine (db.audits ++ decision id row.verification status actor remark force ∷ []))
              (with_verification now id status) db.reports
              (IsFine-decided now id status actor remark force row db v gate)
              (All-both (IsFine db.audits) (λ r. ((r.id == id) ≡ false) ⊎ (r ≡ row)) db.reports
                s.fine (found_alone (λ r. r.id) id db.reports row s.ids found));
      }

forced-select :
    (id gone : String) (audits : List Audit)
    → not (id == gone) ≡ true
    → any (is_forced id) (select (λ a. not (a.report_id == gone)) audits)
      ≡ any (is_forced id) audits
forced-select id gone [] h = refl
forced-select id gone (a ∷ audits) h = ground (
  arith,
  forced-select id gone audits,
  eq_iff a.report_id id,
  eq_iff a.report_id gone,
  eq_iff id gone,
)

module _ {F : Type 0} where
  erased-IsSound : (id : String) (row : Row F) (db : Db F) → IsSound db → IsSound (erased id row db)
  unfolding passes_checks
  erased-IsSound id row db s =
      let p = λ (r : Row F). not (r.id == id) in
      let cut = map (cut_link id) db.reports in
      record {
        ids =
            NoRepeat-select (λ r. r.id) p cut
              (rw (map-same (cut_link id) (λ r. r.id) db.reports (λ r. ground arith)) s.ids);
        keys =
            NoRepeat-select (λ r. r.idempotency_key) p cut
              (rw (map-same (cut_link id) (λ r. r.idempotency_key) db.reports (λ r. ground arith))
                s.keys);
        fine =
            All-imp (λ r. (p r ≡ true) × IsFine db.audits r) (IsFine (erased id row db).audits)
              (select p cut) (λ r h. (h.1.0, rw (forced-select r.id id db.audits h.0) h.1.1))
              (All-select (IsFine db.audits) p cut (
                All-map (IsFine db.audits) (IsFine db.audits) (cut_link id) db.reports uncut
                  s.fine));
      }
    where
      uncut : (r : Row F) → IsFine db.audits r → IsFine db.audits (cut_link id r)
      uncut r h = elim (Bool-cases (points_to r.supersedes_report_id id)) [
        | inl e ↦ rw e h
        | inr e ↦ rw e h
      ]

  -- A withdrawal erases the report of the caller's own device, and otherwise changes nothing.
  pub withdraw_report-cases :
      (id caller : String) (db : Db F)
      → (((withdraw_report id caller db).1 ≡ db) × ((withdraw_report id caller db).0.owned ≡ false))
        ⊎ ((row : Row F) × (find_first (λ r. r.id == id) db.reports ≡ some row)
            × (owns (device_of db row) caller ≡ true)
            × ((withdraw_report id caller db).0.owned ≡ true)
            × ((withdraw_report id caller db).1 ≡ erased id row db))
  unfolding withdraw_report
  withdraw_report-cases id caller db = go (find_first (λ r. r.id == id) db.reports) refl
    where
      go :
          (o : Option (Row F))
          → find_first (λ r. r.id == id) db.reports ≡ o
          → (((erase_owned id caller o db).1 ≡ db) × ((erase_owned id caller o db).0.owned ≡ false))
            ⊎ ((row : Row F) × (find_first (λ r. r.id == id) db.reports ≡ some row)
                × (owns (device_of db row) caller ≡ true)
                × ((erase_owned id caller o db).0.owned ≡ true)
                × ((erase_owned id caller o db).1 ≡ erased id row db))
      go none h = inl (refl, refl)
      go (some row) h = elim (Bool-cases (owns (device_of db row) caller)) [
        | inl e ↦ inr (row, h, e, rw e refl, rw e refl)
        | inr e ↦ inl (rw e (refl, refl))
      ]

  pub IsSound-withdraw_report :
      (id caller : String) (db : Db F) → IsSound db → IsSound (withdraw_report id caller db).1
  IsSound-withdraw_report id caller db s = elim (withdraw_report-cases id caller db) [
    | inl (e, o) ↦ rw e s
    | inr (row, f, o, y, e) ↦ rw e (erased-IsSound id row db s)
  ]

  pub IsSound-set_photo_url :
      (now : ℕ) (id url : String) (db : Db F)
      → (url == "") ≡ false
      → IsSound db
      → IsSound (set_photo_url now id url db).1
  unfolding set_photo_url passes_checks
  IsSound-set_photo_url now id url db u s = record {
    ids = rw (map-same (with_photo now id url) (λ r. r.id) db.reports (λ r. ground arith)) s.ids;
    keys =
        rw
          (map-same (with_photo now id url) (λ r. r.idempotency_key) db.reports (λ r. ground arith))
          s.keys;
    fine =
        All-map (IsFine db.audits) (IsFine db.audits) (with_photo now id url) db.reports shown
          s.fine;
  }
    where
      shown : (r : Row F) → IsFine db.audits r → IsFine db.audits (with_photo now id url r)
      shown r (c, f) = elim (Bool-cases (r.id == id)) [
        | inl e ↦ rw e (c, inr (inl u))
        | inr e ↦ rw e (c, f)
      ]

  frozen-released :
      (now : ℕ) (id : String) (rows : List (Row F))
      → map frozen (map (released_report now id) rows) ≡ map frozen rows
  frozen-released now id [] = refl
  frozen-released now id (r ∷ rs) = ground (arith, frozen-released now id rs)

  pub set_crisis_status-Kept :
      (now : ℕ) (id status : String) (db : Db F) → Kept db (set_crisis_status now id status db).1
  unfolding set_crisis_status
  set_crisis_status-Kept now id status db = record {
    rows = ground (arith, frozen-released now id db.reports);
    submitters = ground arith;
    audits = ground arith;
    withdrawals = ground arith;
  }

  pub set_form_overrides-Kept :
      (id : String) (ov : FormOverrides) (db : Db F) → Kept db (set_form_overrides id ov db).1
  unfolding set_form_overrides
  set_form_overrides-Kept id ov db = record {
    rows = refl;
    submitters = refl;
    audits = refl;
    withdrawals = refl;
  }
