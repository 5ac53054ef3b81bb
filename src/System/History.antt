-- ===== src/System/History.antt =====
-- Histories: the writing requests as a step relation on the tables, and the invariant of whatever
-- a history reaches. Requests are taken one after another.
use beacon_backend.Prelude.{
  ℕ, String, Option, none, some, List, Bool, true, false, ◌==◌, ◌≡◌, ◌⊎◌, inl, inr, refl, arith,
  Bool-cases, ltb, length, take,
}
use Prim.Native.String
use Prim.Native.String.append
use Prim.Native.String.compare.{cons-nil}
use Prim.Native.Char.{Char}
use beacon_backend.Std.Float.{Float}
use beacon_backend.Std.Text.{trim_space}
use beacon_backend.Model.Vocabulary.{contains, verifications}
use beacon_backend.Model.Report.{SubmitReportRequest, VerificationRequest}
use beacon_backend.Model.User.{User}
use beacon_backend.Store.Db.{Db}
use beacon_backend.Store.Verification.{update_verification}
use beacon_backend.Store.Withdraw.{resolve_submitter_id, withdraw_report, set_photo_url}
use beacon_backend.Store.Crises.{set_crisis_status, set_form_overrides}
use beacon_backend.Service.Submit.Context.{Env}
use beacon_backend.Service.Submit.{submit}
use beacon_backend.Handler.Middleware.{require_mutator}
use beacon_backend.Handler.Reports.{submit_report}
use beacon_backend.Handler.Moderation.{Faults, requested, patch_verification, change_status}
use beacon_backend.Handler.Forms.{FormPatch, patch_crisis_form}
use beacon_backend.Handler.Withdrawal.{withdraw}
use beacon_backend.Handler.Photo.{
  Volume, Upload, max_photo_bytes, at_rest, record_photo, accept_file, accept_form, photo_url,
  upload_photo,
}
use beacon_backend.Photo.Jpeg.{sniff_image, strip_jpeg_metadata}
use beacon_backend.Photo.Crypto.{Outcome, success, failure}
use beacon_backend.Service.Submission.Outcome.{Kept}
use beacon_backend.System.Sound.{IsSound, IsSound-Kept}
use beacon_backend.System.Requests.{
  IsSound-same, IsSound-submit, IsSound-update_verification, IsSound-withdraw_report,
  IsSound-set_photo_url, set_crisis_status-Kept,
}

-- One request, served by its handler.
pub data Step {F : Type 0} ⦃fl : Float F⦄ (old new : Db F) : Type 0 where
  submitted :
      (env : Env F) (lost : Bool) (uuid header : String) (req : Option (SubmitReportRequest F))
      → new ≡ (submit_report env lost uuid header req old).1
      → Step old new
  decided :
      (now : ℕ) (faults : Faults) (user : Option User) (id : String)
      (req : Option VerificationRequest)
      → new ≡ (patch_verification now faults user id req old).1
      → Step old new
  withdrawn :
      (lost : Bool) (id header : String) → new ≡ (withdraw lost id header old).1 → Step old new
  photographed :
      (now : ℕ) (v : Volume) (id header : String) (up : Upload)
      → new ≡ (upload_photo now v id header up old).2
      → Step old new
  moved :
      (now : ℕ) (lost : Bool) (user : Option User) (id : String) (status : Option String)
      → new ≡ (change_status now lost user id status old).1
      → Step old new
  reshaped :
      (lost : Bool) (user : Option User) (id : String) (body : Option FormPatch)
      → new ≡ (patch_crisis_form lost user id body old).1
      → Step old new

pub data Reach {F : Type 0} ⦃fl : Float F⦄ (start : Db F) : Db F → Type 0 where
  here : Reach start start
  later : {mid new : Db F} → Reach start mid → Step mid new → Reach start new

append-ne : (c : Char) (s t : String) → (String.◌++◌ (String.◌∷◌ c s) t == "") ≡ false
append-ne c s t = rw (append.cons c s t, cons-nil c (String.◌++◌ s t)) refl

photo_url-ne : (id : String) → (photo_url id == "") ≡ false
unfolding photo_url
photo_url-ne id = append-ne "/" "api/v1/reports/" (String.◌++◌ id "/photo")

module _ {F : Type 0} ⦃fl : Float F⦄ where
  resolve_submitter_id-keeps :
      (uuid device : String) (db : Db F)
      → let new = (resolve_submitter_id uuid device db).1 in
        (new.reports ≡ db.reports) × (new.audits ≡ db.audits)
  unfolding resolve_submitter_id
  resolve_submitter_id-keeps uuid device db = ground arith

  submit_report-cases :
      (env : Env F) (lost : Bool) (uuid header : String) (req : Option (SubmitReportRequest F))
      (db : Db F)
      → ((submit_report env lost uuid header req db).1 ≡ db)
        ⊎ ((r : SubmitReportRequest F) × (sid : Option String) × (known : Db F) × (known.reports
              ≡ db.reports)
            × (known.audits ≡ db.audits)
            × ((submit_report env lost uuid header req db).1 ≡ (submit env r sid known).1))
  unfolding submit_report
  submit_report-cases env lost uuid header none db = inl refl
  submit_report-cases env true uuid header (some r) db =
      elim (Bool-cases (trim_space header == "")) [
        | inl e ↦ inl (rw e refl)
        | inr e ↦ inr (r, none, db, refl, refl, rw e refl)
      ]
  submit_report-cases env false uuid header (some r) db =
      elim (Bool-cases (trim_space header == "")) [
        | inl e ↦ inl (rw e refl)
        | inr e ↦
            let known = resolve_submitter_id uuid (trim_space header) db in
            let (a, b) = resolve_submitter_id-keeps uuid (trim_space header) db in
            inr (r, some known.0, known.1, a, b, rw e refl)
      ]

  -- The handler writes only for a known status, as the caller.
  patch_verification-cases :
      (now : ℕ) (faults : Faults) (u : User) (id : String) (r : VerificationRequest) (db : Db F)
      → ((patch_verification now faults (some u) id (some r) db).1 ≡ db)
        ⊎ ((contains verifications (requested r) ≡ true)
            × ((patch_verification now faults (some u) id (some r) db).1
                ≡ (update_verification now id (requested r) u.email r.note r.force db).1))
  unfolding patch_verification require_mutator
  patch_verification-cases now faults u id r db = ground arith

  IsSound-patch_verification :
      (now : ℕ) (faults : Faults) (user : Option User) (id : String)
      (req : Option VerificationRequest) (db : Db F)
      → IsSound db
      → IsSound (patch_verification now faults user id req db).1
  unfolding patch_verification require_mutator
  IsSound-patch_verification now faults none id req db s = s
  IsSound-patch_verification now faults (some u) id none db s =
      let same : (patch_verification now faults (some u) id none db).1 ≡ db = ground arith in
      rw same s
  IsSound-patch_verification now faults (some u) id (some r) db s =
      elim (patch_verification-cases now faults u id r db) [
        | inl e ↦ rw e s
        | inr (v, e) ↦
            rw e (IsSound-update_verification now id (requested r) u.email r.note r.force db v s)
      ]

  change_status-cases :
      (now : ℕ) (lost : Bool) (user : Option User) (id : String) (status : Option String)
      (db : Db F)
      → ((change_status now lost user id status db).1 ≡ db)
        ⊎ ((new : String) × ((change_status now lost user id status db).1
              ≡ (set_crisis_status now id new db).1))
  unfolding change_status require_mutator
  change_status-cases now lost none id status db = inl refl
  change_status-cases now lost (some u) id none db = inl (ground arith)
  change_status-cases now lost (some u) id (some status) db = elim (either (some u)) [
    | inl e ↦ inl e
    | inr e ↦ inr (status, e)
  ]
    where
      either :
          (user : Option User)
          → ((change_status now lost user id (some status) db).1 ≡ db)
            ⊎ ((change_status now lost user id (some status) db).1
                ≡ (set_crisis_status now id status db).1)
      either user = ground arith

  patch_crisis_form-Kept :
      (lost : Bool) (user : Option User) (id : String) (body : Option FormPatch) (db : Db F)
      → Kept db (patch_crisis_form lost user id body db).1
  unfolding patch_crisis_form require_mutator set_form_overrides
  patch_crisis_form-Kept lost user id body db = record {
    rows = ground arith;
    submitters = ground arith;
    audits = ground arith;
    withdrawals = ground arith;
  }

  withdraw-cases :
      (lost : Bool) (id header : String) (db : Db F)
      → ((withdraw lost id header db).1 ≡ db)
        ⊎ ((withdraw lost id header db).1 ≡ (withdraw_report id (trim_space header) db).1)
  unfolding withdraw
  withdraw-cases lost id header db = ground arith

  record_photo-cases :
      (now : ℕ) (v : Volume) (id : String) (o : Outcome) (db : Db F)
      → ((record_photo now v id o db).2 ≡ db)
        ⊎ ((record_photo now v id o db).2 ≡ (set_photo_url now id (photo_url id) db).1)
  unfolding record_photo
  record_photo-cases now v id (failure e) db = inl refl
  record_photo-cases now v id (success bytes) db = ground arith

  accept_form-cases :
      (now : ℕ) (v : Volume) (id : String) (ok : Bool) (f : Option (List ℕ)) (db : Db F)
      → ((accept_form now v id ok f db).2 ≡ db)
        ⊎ ((accept_form now v id ok f db).2 ≡ (set_photo_url now id (photo_url id) db).1)
  unfolding accept_form accept_file
  accept_form-cases now v id false f db = inl refl
  accept_form-cases now v id true none db = inl refl
  accept_form-cases now v id true (some file) db = elim (Bool-cases (sniff_image (take 512 file))) [
    | inr e ↦ rw e (inl refl)
    | inl e ↦ elim (Bool-cases (ltb max_photo_bytes (length file))) [
      | inl l ↦ rw (e, l) (inl refl)
      | inr l ↦ rw (e, l) (record_photo-cases now v id (at_rest v (strip_jpeg_metadata file)) db)
    ]
  ]

  upload_photo-cases :
      (now : ℕ) (v : Volume) (id header : String) (up : Upload) (db : Db F)
      → ((upload_photo now v id header up db).2 ≡ db)
        ⊎ ((upload_photo now v id header up db).2 ≡ (set_photo_url now id (photo_url id) db).1)
  unfolding upload_photo
  upload_photo-cases now v id header up db =
      ground (arith, accept_form-cases now v id up.form_ok up.file db)

  -- Every request keeps the invariant.
  pub IsSound-Step : (old new : Db F) → IsSound old → Step old new → IsSound new
  IsSound-Step old new s (submitted env lost uuid header req e) =
      rw e (elim (submit_report-cases env lost uuid header req old) [
        | inl same ↦ rw same s
        | inr (r, sid, known, a, b, c) ↦
            rw c (IsSound-submit env r sid known (IsSound-same old known s a b))
      ])
  IsSound-Step old new s (decided now faults user id req e) =
      rw e (IsSound-patch_verification now faults user id req old s)
  IsSound-Step old new s (withdrawn lost id header e) =
      rw e (elim (withdraw-cases lost id header old) [
        | inl same ↦ rw same s
        | inr w ↦ rw w (IsSound-withdraw_report id (trim_space header) old s)
      ])
  IsSound-Step old new s (photographed now v id header up e) =
      rw e (elim (upload_photo-cases now v id header up old) [
        | inl same ↦ rw same s
        | inr w ↦ rw w (IsSound-set_photo_url now id (photo_url id) old (photo_url-ne id) s)
      ])
  IsSound-Step old new s (moved now lost user id status e) =
      rw e (elim (change_status-cases now lost user id status old) [
        | inl same ↦ rw same s
        | inr (n, w) ↦ rw w (IsSound-Kept old _ s (set_crisis_status-Kept now id n old))
      ])
  IsSound-Step old new s (reshaped lost user id body e) =
      rw e (IsSound-Kept old _ s (patch_crisis_form-Kept lost user id body old))

  -- From sound tables, empty ones say, whatever requests come in whatever order, no two reports
  -- share an id or an idempotency key, every column keeps its vocabulary, and a verified report
  -- has a photo or a forced decision in the audit.
  pub IsSound-Reach : (start db : Db F) → IsSound start → Reach start db → IsSound db
  IsSound-Reach start db s here = s
  IsSound-Reach start db s (later {mid} r step) =
      IsSound-Step mid db (IsSound-Reach start mid s r) step
