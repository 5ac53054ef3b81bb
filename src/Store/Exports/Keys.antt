-- ===== src/Store/Exports/Keys.antt =====
-- The keys that ModularKeysRaw finds.
use beacon_backend.Prelude.{
  ℕ, List, [], ◌∷◌, ◌++◌, Bool, true, false, ◌||◌, ◌≡◌, inl, inr, refl, sym, ap, ◌∙◌, arith, any,
  any-append, map, select, Bool-cases,
}
use beacon_backend.Std.Float.{Float}
use beacon_backend.Photo.Jpeg.{same_bytes}
use beacon_backend.Photo.Jpeg.Laws.{same_bytes_iff}
use beacon_backend.Store.Db.{Row, Db, Postgis}
use beacon_backend.Store.Scan.{non_null, scan_report}
use beacon_backend.Store.Listing.{ListFilter, Search, matches, put, ordered}
use beacon_backend.Store.Insert.{before}
use beacon_backend.Store.Exports.{export_rows, object_keys, distinct_keys, modular_keys_raw}
use beacon_backend.Export.Text.{Text, Formats}
use beacon_backend.Export.Columns.{has_text, answers_of, modular_keys}
use beacon_backend.Export.Columns.Unique.{SameTexts}

or_swap : (a b c : Bool) → (a || (b || c)) ≡ (b || (a || c))
or_swap true true c = refl
or_swap true false c = refl
or_swap false b c = refl

has_text-distinct_keys : (keys : List Text) → SameTexts (distinct_keys keys) keys
unfolding distinct_keys
has_text-distinct_keys [] u = refl
has_text-distinct_keys (k ∷ keys) u =
    let ih = has_text-distinct_keys keys u in
    elim (Bool-cases (has_text keys k)) [
      | inr n ↦ ground (arith, n, ih)
      | inl y ↦ elim (Bool-cases (same_bytes k u)) [
        | inr d ↦ ground (arith, y, d, ih)
        | inl e ↦
            let there : has_text keys u ≡ true =
              ap (has_text keys) (sym ((same_bytes_iff k u).0 e)) ∙ y in
            ground (arith, y, e, ih, there)
      ]
    ]

module _ {F : Type 0} (fmt : Formats F) where
  has_text-put :
      (gis : Postgis F) (r : Row F) (rows : List (Row F)) (u : Text)
      → has_text (object_keys fmt (put gis r rows)) u ≡ has_text (object_keys fmt (r ∷ rows)) u
  unfolding object_keys put
  has_text-put gis r [] u = refl
  has_text-put gis r (q ∷ rows) u =
      let is_u = λ (v : Text). same_bytes v u in
      let mine = map (λ a. a.0) (answers_of fmt (non_null r.modular)) in
      let its = map (λ a. a.0) (answers_of fmt (non_null q.modular)) in
      let more = object_keys fmt rows in
      elim (Bool-cases (before gis r q)) [
        | inl e ↦ rw e refl
        | inr e ↦ rw e (
            any-append is_u its (object_keys fmt (put gis r rows))
            ∙ ap (λ b. any is_u its || b) (has_text-put gis r rows u ∙ any-append is_u mine more)
            ∙ or_swap (any is_u its) (any is_u mine) (any is_u more)
            ∙ ap (λ b. any is_u mine || b) (sym (any-append is_u its more))
            ∙ sym (any-append is_u mine (its ++ more)))
      ]

  has_text-ordered :
      (gis : Postgis F) (rows : List (Row F))
      → SameTexts (object_keys fmt (ordered gis rows)) (object_keys fmt rows)
  unfolding ordered object_keys
  has_text-ordered gis [] u = refl
  has_text-ordered gis (r ∷ rows) u =
      let is_u = λ (v : Text). same_bytes v u in
      let mine = map (λ a. a.0) (answers_of fmt (non_null r.modular)) in
      has_text-put gis r (ordered gis rows) u
      ∙ any-append is_u mine (object_keys fmt (ordered gis rows))
      ∙ ap (λ b. any is_u mine || b) (has_text-ordered gis rows u)
      ∙ sym (any-append is_u mine (object_keys fmt rows))

  module _ ⦃real : Float F⦄ where
    modular_keys-scan_report :
        (now : ℕ) (rows : List (Row F))
        → modular_keys fmt (map (scan_report now) rows) ≡ object_keys fmt rows
    unfolding object_keys scan_report
    modular_keys-scan_report now [] = refl
    modular_keys-scan_report now (r ∷ rows) =
        ap (λ ks. map (λ a. a.0) (answers_of fmt (non_null r.modular)) ++ ks)
          (modular_keys-scan_report now rows)

    -- The keys that the pre-pass finds are those of the reports that the cursor yields.
    pub modular_keys_raw-export_rows :
        (gis : Postgis F) (s : Search F) (f : ListFilter F) (now : ℕ) (db : Db F)
        → SameTexts (modular_keys_raw fmt s f db) (modular_keys fmt (export_rows gis s f now db))
    unfolding modular_keys_raw export_rows
    modular_keys_raw-export_rows gis s f now db u =
        let rows = select (matches s f) db.reports in
        has_text-distinct_keys (object_keys fmt rows) u
        ∙ sym (has_text-ordered gis rows u)
        ∙ ap (λ ks. has_text ks u) (sym (modular_keys-scan_report now (ordered gis rows)))
