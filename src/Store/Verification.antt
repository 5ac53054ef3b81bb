-- ===== src/Store/Verification.antt =====
-- internal/store/write.go: UpdateVerification.
use beacon_backend.Prelude.{
  ℕ, String, Option, none, some, [], ◌∷◌, ◌++◌, Bool, not, ◌&&◌, ◌==◌, if◌then◌else◌, find_first,
  map,
}
use beacon_backend.Std.{is_blank}
use beacon_backend.Std.Float.{Float}
use beacon_backend.Model.Report.{Report}
use beacon_backend.Store.Db.{Row, Audit, Db}
use beacon_backend.Store.Scan.{get_by_id}

-- What the transaction returns: ErrPhotoRequired, the nil report, or the updated one.
pub data Update (F : Type 0) : Type 0 where
  photo_required missing : Update F
  updated : Report F → Update F

-- The audit row of a decision.
abbrev pub decision : String → String → String → String → Option String → Bool → Audit
decision id old status actor remark force = record {
  report_id = id;
  from_status = old;
  to_status = status;
  actor = actor;
  note = remark;
  forced = force;
}

module _ {F : Type 0} where
  abbrev pub with_verification : ℕ → String → String → Row F → Row F
  with_verification now id status row =
      if row.id == id then record row { verification = status; updated_at = now } else row

  -- The UPDATE and the audit INSERT, once the row is found and the photo gate passed.
  abbrev pub decided : ℕ → String → String → String → Option String → Bool → Row F → Db F → Db F
  decided now id status actor remark force row db = record db {
    audits = db.audits ++ decision id row.verification status actor remark force ∷ [];
    reports = map (with_verification now id status) db.reports;
  }

  abbrev or_missing : Option (Report F) → Update F
  or_missing none = missing
  or_missing (some r) = updated r

module _ {F : Type 0} ⦃fl : Float F⦄ where
  -- The photo gate, on the row that was found.
  unfoldable pub decide_on :
      ℕ → String → String → String → Option String → Bool → Option (Row F) → Db F → Update F × Db F
  unfolding get_by_id
  decide_on now id status actor remark force none db = (missing, db)
  decide_on now id status actor remark force (some row) db =
      if status == "verified" && is_blank row.photo_url && not force
      then (photo_required, db)
      else let db' = decided now id status actor remark force row db in
        (or_missing (get_by_id now db' id), db')

  unfoldable pub update_verification :
      ℕ → String → String → String → Option String → Bool → Db F → Update F × Db F
  unfolding decide_on
  update_verification now id status actor remark force db =
      decide_on now id status actor remark force (find_first (λ r. r.id == id) db.reports) db
