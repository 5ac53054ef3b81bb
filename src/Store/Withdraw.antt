-- ===== src/Store/Withdraw.antt =====
-- internal/store/reports.go: WithdrawReport, PhotoUploadInfo and SetPhotoURL; ResolveSubmitterID of
-- internal/store/crisis.go.
pub mod Laws
use beacon_backend.Prelude.{
  ℕ, String, Option, none, some, List, [], ◌∷◌, ◌++◌, Bool, true, false, not, ◌&&◌, ◌||◌, ◌==◌, ltb,
  if◌then◌else◌, find_first, any, select, map,
}
use beacon_backend.Std.{is_blank, points_to}
use beacon_backend.Store.Db.{Row, SubmitterRow, Audit, Withdrawal, Db}

pub record WithdrawOutcome : Type 0 where
  pub found : Bool
  pub owned : Bool
  pub photo_url : Option String

abbrev anonymous : Option SubmitterRow → Option String
anonymous none = none
anonymous (some s) = some s.anonymous_id

-- `dev == nil || *dev == "" || callerDevice == "" || callerDevice != *dev`, negated.
abbrev pub owns : Option String → String → Bool
owns none caller = false
owns (some dev) caller = not (dev == "") && not (caller == "") && caller == dev

module _ {F : Type 0} where
  -- SELECT anonymous_id FROM submitters s WHERE s.id = r.submitter_id
  unfoldable pub device_of : Db F → Row F → Option String
  device_of db row = elim row.submitter_id [
    | none ↦ none
    | some sid ↦ anonymous (find_first (λ s. s.id == sid) db.submitters)
  ]

  abbrev pub cut_link : String → Row F → Row F
  cut_link id row =
      if points_to row.supersedes_report_id id
      then record row { supersedes_report_id = none }
      else row

  -- The UPDATE, the DELETE with its cascade over the audit rows, and the INSERT.
  abbrev pub erased : String → Row F → Db F → Db F
  erased id row db = record db {
    reports = select (λ r. not (r.id == id)) (map (cut_link id) db.reports);
    audits = select (λ a. not (a.report_id == id)) db.audits;
    withdrawals =
        db.withdrawals
        ++ record { report_id = id; submitter_id = row.submitter_id; crisis_id = row.crisis_id }
          ∷ [];
  }

  -- What happens to the row that was found.
  unfoldable pub erase_owned : String → String → Option (Row F) → Db F → WithdrawOutcome × Db F
  unfolding device_of
  erase_owned id caller none db = (record { found = false; owned = false; photo_url = none }, db)
  erase_owned id caller (some row) db =
      if owns (device_of db row) caller
      then (record { found = true; owned = true; photo_url = row.photo_url }, erased id row db)
      else (record { found = true; owned = false; photo_url = none }, db)

  unfoldable pub withdraw_report : String → String → Db F → WithdrawOutcome × Db F
  unfolding erase_owned
  withdraw_report id caller db = erase_owned id caller (find_first (λ r. r.id == id) db.reports) db

pub record PhotoUploadAuth : Type 0 where
  pub found : Bool
  pub device_id : Option String
  pub has_photo : Bool
  pub captured_at : ℕ

module _ {F : Type 0} where
  unfoldable pub photo_upload_info : Db F → String → PhotoUploadAuth
  unfolding device_of
  photo_upload_info db id = elim (find_first (λ r. r.id == id) db.reports) [
    | none ↦ record { found = false; device_id = none; has_photo = false; captured_at = 0 }
    | some row ↦ record {
      found = true;
      device_id = device_of db row;
      has_photo = not (is_blank row.photo_url);
      captured_at = if ltb row.captured_at row.created_at then row.created_at else row.captured_at;
    }
  ]

  abbrev pub with_photo : ℕ → String → String → Row F → Row F
  with_photo now id url r =
      if r.id == id then record r { photo_url = some url; updated_at = now } else r

  -- Whether the report exists.
  unfoldable pub set_photo_url : ℕ → String → String → Db F → Bool × Db F
  set_photo_url now id url db = (
    any (λ r. r.id == id) db.reports,
    record db { reports = map (with_photo now id url) db.reports },
  )

  -- The submitter's internal id, created under a fresh uuid on first sight.
  unfoldable pub resolve_submitter_id : String → String → Db F → String × Db F
  resolve_submitter_id uuid anonymous_id db =
      elim (find_first (λ s. s.anonymous_id == anonymous_id) db.submitters) [
        | some s ↦ (s.id, db)
        | none ↦ (
          uuid,
          record db {
            submitters = db.submitters ++ record { id = uuid; anonymous_id = anonymous_id } ∷ [];
          },
        )
      ]
