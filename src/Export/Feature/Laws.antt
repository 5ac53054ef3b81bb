-- ===== src/Export/Feature/Laws.antt =====
-- What the properties of a feature are.
use mathlib.Core.Bool.{false≢true}
use beacon_backend.Prelude.{
  Option, none, some, List, [], ◌∷◌, true, false, ◌≡◌, inl, inr, refl, sym, ap, ◌∙◌, arith,
  if◌then◌else◌, map, Bool-cases,
}
use beacon_backend.Std.Text.{codes}
use beacon_backend.Photo.Jpeg.{same_bytes}
use beacon_backend.Photo.Jpeg.Laws.{same_bytes_iff}
use beacon_backend.Model.Report.{Report}
use beacon_backend.Store.Db.{Postgis}
use beacon_backend.Export.Text.{Text, Formats}
use beacon_backend.Export.Columns.{has_text}
use beacon_backend.Export.Columns.Order.{are_distinct}
use beacon_backend.Export.Feature.{
  Value, Properties, put, property_at, put_all, modular_properties, own_properties, geojson_feature,
}

abbrev Own : Type 0
Own = List (Text × Option Value)

-- The report's own value of a key: none where it has none, or none that is written.
unfoldable pub own_at : Own → Text → Option Value
own_at [] u = none
own_at ((key, v) ∷ own) u = let rest = own_at own u in if same_bytes key u then v else rest

abbrev pub or_else : Option Value → Option Value → Option Value
or_else (some v) w = some v
or_else none w = w

abbrev keys_of : Own → List Text
keys_of own = map (λ k. k.0) own

differs : (k key u : Text) → same_bytes k key ≡ false → k ≡ u → same_bytes key u ≡ false
differs k key u e p = elim (Bool-cases (same_bytes key u)) [
  | inr n ↦ n
  | inl y ↦
      absurd (false≢true (sym e ∙ (same_bytes_iff k key).1 (p ∙ sym ((same_bytes_iff key u).0 y))))
]

property_at-put :
    (key : Text) (v : Value) (props : Properties) (u : Text)
    → property_at (put key v props) u ≡ (if same_bytes key u then some v else property_at props u)
unfolding put property_at
property_at-put key v [] u = refl
property_at-put key v ((k, w) ∷ props) u =
    let ih = property_at-put key v props u in
    elim (Bool-cases (same_bytes k key)) [
      | inl e ↦
          let p : k ≡ key = (same_bytes_iff k key).0 e in
          ground (arith, e, ap (λ t. same_bytes t u) p)
      | inr e ↦ elim (Bool-cases (same_bytes k u)) [
        | inl q ↦
            let p : k ≡ u = (same_bytes_iff k u).0 q in
            let n : same_bytes key u ≡ false = differs k key u e p in ground (arith, e, q, n)
        | inr q ↦ ground (arith, e, q, ih)
      ]
    ]

own_at-missing : (own : Own) (u : Text) → has_text (keys_of own) u ≡ false → own_at own u ≡ none
unfolding own_at
own_at-missing [] u h = refl
own_at-missing ((key, v) ∷ own) u h = ground (arith, h, own_at-missing own u)

module _ (key : Text) (own : Own) (props : Properties) (u : Text) where
  -- The assignments after the first one, whatever the map is then.
  abbrev Later : Type 0
  Later =
      (more : Properties)
      → property_at (put_all own more) u ≡ or_else (own_at own u) (property_at more u)

  abbrev First : Option Value → Type 0
  First w =
      property_at (put_all ((key, w) ∷ own) props) u
      ≡ or_else (own_at ((key, w) ∷ own) u) (property_at props u)

  written : same_bytes key u ≡ true → own_at own u ≡ none → Later → (v : Option Value) → First v
  unfolding put_all own_at
  written e m later none = later props ∙ rw (m, e) refl
  written e m later (some v) =
      later (put key v props) ∙ rw (m, property_at-put key v props u, e) refl

  passed : same_bytes key u ≡ false → Later → (v : Option Value) → First v
  unfolding put_all own_at
  passed e later none = later props ∙ rw e refl
  passed e later (some v) = later (put key v props) ∙ rw (property_at-put key v props u, e) refl

property_at-put_all :
    (own : Own) (props : Properties) (u : Text)
    → are_distinct (keys_of own) ≡ true
    → property_at (put_all own props) u ≡ or_else (own_at own u) (property_at props u)
unfolding put_all own_at
property_at-put_all [] props u d = refl
property_at-put_all ((key, v) ∷ own) props u d = elim (Bool-cases (same_bytes key u)) [
  | inl e ↦
      let missing =
        own_at-missing own u
          (ap (has_text (keys_of own)) (sym ((same_bytes_iff key u).0 e)) ∙ ground (arith, d)) in
      written key own props u e missing (λ more. property_at-put_all own more u (ground (arith, d)))
        v
  | inr e ↦ passed key own props u e (λ more. property_at-put_all own more u (ground (arith, d))) v
]

module _ {F : Type 0} (fmt : Formats F) (gis : Postgis F) where
  own_at-own_properties :
      (r : Report F)
      → own_at (own_properties fmt gis (record r { adm1_pcode = none })) (codes "admin1_pcode")
        ≡ none
  unfolding own_properties own_at
  own_at-own_properties r = refl

  pub property_at-geojson_feature_lem :
      (r : Report F) (u : Text)
      → property_at (geojson_feature fmt gis r).properties u
        ≡ or_else
            (own_at (own_properties fmt gis r) u)
            (property_at (modular_properties fmt gis r) u)
  unfolding geojson_feature own_properties
  property_at-geojson_feature_lem r u =
      property_at-put_all (own_properties fmt gis r) (modular_properties fmt gis r) u refl

  -- A property of a feature is the report's own value where it has one, and else the answer of the
  -- modular object under that name. So a report without an admin P-code shows as "admin1_pcode"
  -- whatever its client has answered under a key of that name.
  pub property_at-geojson_feature :
      (r : Report F) (u : Text)
      → (property_at (geojson_feature fmt gis r).properties u
          ≡ or_else
              (own_at (own_properties fmt gis r) u)
              (property_at (modular_properties fmt gis r) u))
        × (property_at
              (geojson_feature fmt gis (record r { adm1_pcode = none })).properties
              (codes "admin1_pcode")
            ≡ property_at (modular_properties fmt gis r) (codes "admin1_pcode"))
  property_at-geojson_feature r u =
      let bare = record r { adm1_pcode = none } in
      (
        property_at-geojson_feature_lem r u,
        property_at-geojson_feature_lem bare (codes "admin1_pcode")
            ∙ rw (own_at-own_properties r) refl,
      )
