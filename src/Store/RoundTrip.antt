-- ===== src/Store/RoundTrip.antt =====
-- Reading a stored report back and storing what was read again writes the same row.
use beacon_backend.Prelude.{
  ℕ, String, Option, none, some, Bool, false, ◌≡◌, refl, arith, eq_refl, ◌==◌, ◌||◌, if◌then◌else◌,
  Bool-cases, inl, inr,
}
use beacon_backend.Std.{Slice, or_empty}
use beacon_backend.Std.Float.{Float}
use beacon_backend.Model.Report.{ReportDescription, Report}
use beacon_backend.Service.Normalize.Laws.{IsNormal, IsPresent}
use beacon_backend.Store.Db.{Postgis}
use beacon_backend.Store.Scan.{or_text, non_null, scan_description, scan_admin, scan_report}
use beacon_backend.Store.Insert.{
  row_of, null_if_empty, stored_modular, stored_original, stored_original_lang, stored_translation,
  stored_lang,
}

IsPresent-or_empty {ℓ} : {A : Type ℓ} (xs : Slice A) → IsPresent xs → or_empty xs ≡ xs
IsPresent-or_empty none h = absurd h
IsPresent-or_empty (some xs) h = refl

or-false : (a b : Bool) → (a || b) ≡ false → (a ≡ false) × (b ≡ false)
or-false a b h = ground arith

null_if_empty-or_text :
    (s : String) → null_if_empty (or_text (null_if_empty s) "") ≡ null_if_empty s
null_if_empty-or_text s = elim (Bool-cases (s == "")) [ inl e ↦ rw e | inr e ↦ rw e (rw e) ]

stored_modular-non_null :
    (s : String) → stored_modular (non_null (stored_modular s)) ≡ stored_modular s
stored_modular-non_null s = elim (Bool-cases (s == "" || s == "null")) [
  | inl e ↦ rw e
  | inr e ↦ let (a, b) = or-false (s == "") (s == "null") e in rw (a, b) (rw b (rw (a, b)))
]

abbrev synced_or : String → String
synced_or s = if s == "" then "{\"type\":\"Synced\"}" else s

synced_or_idempotent : (s : String) → synced_or (synced_or (synced_or s)) ≡ synced_or s
synced_or_idempotent s = elim (Bool-cases (s == "")) [ inl e ↦ rw e | inr e ↦ rw e (rw e (rw e)) ]

-- The description's four columns survive the trip.
description-columns :
    (d : Option ReportDescription)
    → let back =
        scan_description
          (stored_original d)
          (stored_original_lang d)
          (stored_translation d)
          (stored_lang d) in
      (stored_original back ≡ stored_original d)
      × (stored_original_lang back ≡ stored_original_lang d)
      × (stored_translation back ≡ stored_translation d)
      × (stored_lang back ≡ stored_lang d)
unfolding scan_description stored_translation
description-columns none = (refl, refl, refl, refl)
description-columns (some d) =
    elim (Bool-cases (d.translated == "" || d.translated == d.original)) [
      | inl e ↦ rw (e, eq_refl d.original) (refl, refl, ground arith, refl)
      | inr e ↦
          let (a, b) = or-false (d.translated == "") (d.translated == d.original) e in
          rw (a, b) (rw (a, b) (refl, refl, rw a, refl))
    ]

module _ {F : Type 0} ⦃fl : Float F⦄ (gis : Postgis F) (now later next : ℕ) (r : Report F) where
  -- Of a normalised report whose administrative chain, where it has one, has a level, storing what
  -- was read of its row writes the same row.
  pub row_of-scan_report :
      IsNormal r
      → scan_admin r.admin ≡ r.admin
      → row_of gis next (scan_report later (row_of gis now r)) ≡ row_of gis now r
  unfolding row_of scan_report
  row_of-scan_report n a = ground (
    arith,
    n.faces,
    n.plates,
    description-columns r.description,
    IsPresent-or_empty r.infra_types n.infra,
    IsPresent-or_empty r.crisis_nature n.nature,
    IsPresent-or_empty r.photos n.photos,
    IsPresent-or_empty r.clusters n.clusters,
    null_if_empty-or_text r.crisis_id,
    stored_modular-non_null r.modular,
    synced_or_idempotent r.sync,
  )
