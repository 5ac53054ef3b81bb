-- ===== src/Handler/Export/Reached.antt =====
-- The crisis that a request reaches, and that its reports are of it.
use mathlib.Core.Bool.{false≢true}
use beacon_backend.Prelude.{
  ℕ, String, Option, none, some, List, [], ◌∷◌, true, false, ◌==◌, ◌≡◌, inl, inr, refl, arith,
  eq_iff, All, map, select, Bool-cases,
}
use beacon_backend.Std.{points_to}
use beacon_backend.Std.Float.{Float}
use beacon_backend.Std.Text.{trim_space}
use beacon_backend.Model.User.{User, scope_allows}
use beacon_backend.Store.Db.{Row, Db}
use beacon_backend.Store.Scan.{or_text, scan_report}
use beacon_backend.Store.Crises.{active_id}
use beacon_backend.Store.Listing.{ListFilter, Search, in_crises, matches, ordered}
use beacon_backend.Store.Listing.Order.{All-ordered}
use beacon_backend.Store.Listing.Matching.{selected}
use beacon_backend.Store.Exports.{export_rows}
use beacon_backend.System.Rows.{All-imp}
use beacon_backend.Handler.Scope.{crisis_id, scoped_crisis}
use beacon_backend.Handler.Export.{Press}

-- A crisis in the user's scope, with an id.
abbrev pub IsReached : User → Option String → Type 0
IsReached u none = Unit
IsReached u (some cid) = (scope_allows u cid ≡ true) × ((cid == "") ≡ false)

pub points_to-or_text :
    (column : Option String) (c : String) → points_to column c ≡ true → or_text column "" ≡ c
points_to-or_text none c h = absurd (false≢true h)
points_to-or_text (some t) c h = (eq_iff t c).0 h

module _ {F : Type 0} where
  crisis_id_nonempty : (q : String) (db : Db F) → (crisis_id q db == "") ≡ false
  unfolding crisis_id
  crisis_id_nonempty q db = elim (Bool-cases (trim_space q == "")) [
    | inr n ↦ rw n n
    | inl e ↦ elim (Bool-cases (active_id db == "")) [
      | inr n ↦ rw (e, n) n
      | inl a ↦ rw (e, a) refl
    ]
  ]

  pub scoped_crisis-IsReached :
      (u : User) (q : String) (db : Db F) → IsReached u (scoped_crisis (some u) q db)
  unfolding scoped_crisis
  scoped_crisis-IsReached u q db = elim (Bool-cases (scope_allows u (crisis_id q db))) [
    | inr n ↦ rw n tt
    | inl a ↦ rw a (a, crisis_id_nonempty q db)
  ]

  matches-crisis :
      (s : Search F) (f : ListFilter F) (row : Row F)
      → (f.crisis_id == "") ≡ false
      → matches s f row ≡ true
      → or_text row.crisis_id "" ≡ f.crisis_id
  unfolding matches in_crises
  matches-crisis s f row n h =
      let i : in_crises f row ≡ true = ground (arith, h) in
      points_to-or_text row.crisis_id f.crisis_id (ground (arith, i, n))

module _ {F : Type 0} ⦃real : Float F⦄ where
  pub All-scan_report :
      (now : ℕ) (c : String) (rows : List (Row F))
      → All (λ r. or_text r.crisis_id "" ≡ c) rows
      → All (λ rep. rep.crisis_id ≡ c) (map (scan_report now) rows)
  unfolding scan_report
  All-scan_report now c [] a = tt
  All-scan_report now c (r ∷ rows) (e, a) = (e, All-scan_report now c rows a)

  pub export_rows-crisis :
      (p : Press F) (f : ListFilter F) (db : Db F)
      → (f.crisis_id == "") ≡ false
      → All (λ rep. rep.crisis_id ≡ f.crisis_id) (export_rows p.gis p.search f p.now db)
  unfolding export_rows
  export_rows-crisis p f db n =
      let M = λ (r : Row F). matches p.search f r ≡ true in
      let chosen = select (matches p.search f) db.reports in
      All-scan_report p.now f.crisis_id (ordered p.gis chosen) (
        All-imp M (λ r. or_text r.crisis_id "" ≡ f.crisis_id) (ordered p.gis chosen)
          (λ r h. matches-crisis p.search f r n h)
          (All-ordered p.gis M chosen (selected (matches p.search f) db.reports)))
