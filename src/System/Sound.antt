-- ===== src/System/Sound.antt =====
-- The invariant of the tables, and the changes that keep it.
use beacon_backend.Prelude.{
  String, List, Bool, true, false, ◌&&◌, ◌==◌, ◌≡◌, ◌≢◌, ◌⊎◌, inl, refl, sym, ap, ◌∙◌, All, any,
  map, ne-of-str,
}
use beacon_backend.Std.{is_blank}
use beacon_backend.Store.Db.{Row, Audit, Db}
use beacon_backend.Store.Insert.{passes_checks}
use beacon_backend.Store.Emergent.Laws.{frozen}
use beacon_backend.Service.Submission.Outcome.{Kept}
use beacon_backend.Service.Submission.Created.{Appended}
use beacon_backend.System.Rows.{NoRepeat, NoRepeat-append, map-same, All-alike, All-append}

-- An audit row of a forced verification of the report.
abbrev pub is_forced : String → Audit → Bool
is_forced id a = a.report_id == id && a.to_status == "verified" && a.forced

-- The columns keep their vocabularies, and a verified report has a photo, or an analyst has forced
-- its verification on the record.
abbrev pub IsFine : {F : Type 0} → List Audit → Row F → Type 0
IsFine audits r =
    (passes_checks r ≡ true)
    × ((r.verification ≢ "verified")
        ⊎ (is_blank r.photo_url ≡ false)
        ⊎ (any (is_forced r.id) audits ≡ true))

pub record IsSound {F : Type 0} (db : Db F) : Type 0 where
  pub ids : NoRepeat (map (λ r. r.id) db.reports)
  pub keys : NoRepeat (map (λ r. r.idempotency_key) db.reports)
  pub fine : All (IsFine db.audits) db.reports

module _ {F : Type 0} where
  same_column :
      (g : Row F → String) (xs ys : List (Row F))
      → ((r : Row F) → g (frozen r) ≡ g r)
      → map frozen ys ≡ map frozen xs
      → map g ys ≡ map g xs
  same_column g xs ys h e = sym (map-same frozen g ys h) ∙ ap (map g) e ∙ map-same frozen g xs h

  pub IsSound-Kept : (old new : Db F) → IsSound old → Kept old new → IsSound new
  unfolding passes_checks
  IsSound-Kept old new s k = record {
    ids = rw (same_column (λ r. r.id) old.reports new.reports (λ r. refl) k.rows) s.ids;
    keys =
        rw (same_column (λ r. r.idempotency_key) old.reports new.reports (λ r. refl) k.rows) s.keys;
    fine = rw k.audits (
        All-alike (IsFine old.audits) frozen old.reports new.reports (λ r h. h) (λ r h. h) k.rows
          s.fine);
  }

  pub IsSound-Appended :
      (row : Row F) (old new : Db F)
      → IsSound old
      → Appended row old new
      → row.verification ≡ "pending"
      → IsSound new
  IsSound-Appended row old new s a v = record {
    ids = rw a.rows (NoRepeat-append (λ r. r.id) old.reports row a.fresh_id s.ids);
    keys = rw a.rows (NoRepeat-append (λ r. r.idempotency_key) old.reports row a.fresh_key s.keys);
    fine =
        rw (a.rows, a.audits)
          (All-append (IsFine old.audits) old.reports row s.fine
            (a.checked, inl (rw v (ne-of-str "pending" "verified" refl))));
  }
