-- ===== src/Export/Feature.antt =====
-- geoJSONFeature: one report as a GeoJSON feature. JSON text is left out: the properties are the
-- entries of the map that is encoded.
pub mod Laws
use beacon_backend.Prelude.{
  ℕ, String, Option, none, some, List, [], ◌∷◌, ◌++◌, Bool, if◌then◌else◌, map,
}
use beacon_backend.Std.Text.{codes}
use beacon_backend.Photo.Jpeg.{same_bytes}
use beacon_backend.Model.Report.{Report}
use beacon_backend.Store.Db.{Postgis}
use beacon_backend.Export.Text.{Text, Formats, join_with}
use beacon_backend.Export.Columns.{flatten_modular, Cells}
use beacon_backend.Export.Cells.{
  deref, joined, title_tier, export_description, num_ptr, resolved_point, report_h3,
}

pub data Value : Type 0 where
  text : Text → Value
  flag : Bool → Value

-- A map from keys to values, each key once.
abbrev pub Properties : Type 0
Properties = List (Text × Value)

pub record Feature (F : Type 0) : Type 0 where
  pub geometry : Option (F × F)
  pub properties : Properties

-- `props[key] = v`
unfoldable pub put : Text → Value → Properties → Properties
put key v [] = (key, v) ∷ []
put key v ((k, w) ∷ props) =
    let rest = put key v props in if same_bytes k key then (k, v) ∷ props else (k, w) ∷ rest

-- `props[key]`
unfoldable pub property_at : Properties → Text → Option Value
property_at [] key = none
property_at ((k, v) ∷ props) key =
    let rest = property_at props key in if same_bytes k key then some v else rest

-- The assignments one after another; a key without a value is not assigned.
unfoldable pub put_all : List (Text × Option Value) → Properties → Properties
unfolding put
put_all [] props = props
put_all ((key, none) ∷ own) props = put_all own props
put_all ((key, some v) ∷ own) props = put_all own (put key v props)

-- `if v != "" { props[key] = v }`
abbrev pub unless_empty : Text → Option Value
unless_empty [] = none
unless_empty (c ∷ s) = some (text (c ∷ s))

module _ {F : Type 0} (fmt : Formats F) (gis : Postgis F) where
  abbrev pub modular_properties : Report F → Properties
  modular_properties r = map (λ c. (c.0, text c.1)) (flatten_modular fmt r.modular)

  unfoldable pub own_properties : Report F → List (Text × Option Value)
  unfolding title_tier export_description report_h3
  own_properties r =
      (codes "id", some (text (codes r.id)))
      ∷ (codes "damage_classification", some (text (title_tier r.damage_tier)))
      ∷ (codes "damage", some (text (codes r.damage)))
      ∷ (codes "possiblyDamaged", some (flag r.possibly_damaged))
      ∷ (codes "infrastructure_type", some (text (joined r.infra_types)))
      ∷ (codes "infrastructure_name", some (text (deref r.infra_name)))
      ∷ (codes "infrastructure_other_detail", some (text (deref r.infra_other_detail)))
      ∷ (codes "hazard_type", some (text (joined r.crisis_nature)))
      ∷ (codes "timestamp", some (text (fmt.show_time r.captured_at)))
      ∷ (codes "debris", some (text (codes r.debris)))
      ∷ (codes "buildingId", some (text (deref r.building_id)))
      ∷ (codes "verification", some (text (codes r.verification)))
      ∷ (codes "synced", some (flag r.synced))
      ∷ (codes "place", some (text (codes r.place)))
      ∷ (codes "description", some (text (export_description r.description)))
      ∷ (codes "plus_code", some (text (deref r.plus_code)))
      ∷ (codes "accuracy_m", unless_empty (num_ptr fmt gis r.gps_accuracy_meters))
      ∷ (codes "admin1_pcode", unless_empty (deref r.adm1_pcode))
      ∷ (codes "admin2_pcode", unless_empty (deref r.adm2_pcode))
      ∷ (codes "admin3_pcode", unless_empty (deref r.adm3_pcode))
      ∷ (codes "h3id", unless_empty (report_h3 fmt gis r))
      ∷ []

  unfoldable pub geojson_feature : Report F → Feature F
  unfolding put_all own_properties
  geojson_feature r = record {
    geometry = resolved_point fmt gis r;
    properties = put_all (own_properties r) (modular_properties r);
  }
