-- ===== src/Service/Geography.antt =====
-- internal/service/report_service.go: isFootprintReport, the containment of a pinned crisis,
-- haversineKm, adminScopeFromChain and emergentAreaName.
use beacon_backend.Prelude.{String, Option, none, some, Bool, false, not, ◌||◌, ◌==◌, if◌then◌else◌}
use beacon_backend.Std.{points_to}
use beacon_backend.Std.Text.{has_prefix}
use beacon_backend.Std.Float.{Float, of_nat, tenths, max_float}
use beacon_backend.Model.Report.{AdminRef, AdminChain, Report}
use beacon_backend.Store.Db.{CrisisRow}
use beacon_backend.Store.Emergent.{AdminScope}

abbrev id_has_prefix : Option String → String → Bool
id_has_prefix none p = false
id_has_prefix (some s) p = has_prefix s p

unfoldable pub is_footprint_report : {F : Type 0} → Report F → Bool
is_footprint_report r = points_to r.building_source "footprint" || id_has_prefix r.building_id "fp-"

module _ {F : Type 0} ⦃fl : Float F⦄ where
  -- math.Max(radius * 1.5, radius + 5.0)
  unfoldable pub pin_containment_limit_km : F → F
  pin_containment_limit_km radius = max_float (fl.mul radius (tenths 15)) (fl.add radius (of_nat 5))

  -- deg * math.Pi / 180
  to_rad : F → F
  to_rad deg = fl.div (fl.mul deg fl.pi) (of_nat 180)

  unfoldable pub haversine_km : F → F → F → F → F
  unfolding to_rad
  haversine_km lat1 lng1 lat2 lng2 =
      let d_lat = to_rad (fl.sub lat2 lat1) in
      let d_lng = to_rad (fl.sub lng2 lng1) in
      let s = fl.sin (fl.div d_lat (of_nat 2)) in
      let t = fl.sin (fl.div d_lng (of_nat 2)) in
      let a =
        fl.add (fl.mul s s)
          (fl.mul (fl.mul (fl.mul (fl.cos (to_rad lat1)) (fl.cos (to_rad lat2))) t) t) in
      fl.mul (fl.mul (of_nat 2) (of_nat 6371))
        (fl.atan2 (fl.sqrt a) (fl.sqrt (fl.sub (of_nat 1) a)))

  -- `c.RadiusKm <= 0` is `!(0 < c.RadiusKm)` on values that are no NaN.
  unfoldable pub pin_outside_containment : F → F → CrisisRow F → Bool
  unfolding pin_containment_limit_km
  pin_outside_containment lat lng c =
      if not (fl.lt (of_nat 0) c.radius_km)
      then false
      else fl.lt (pin_containment_limit_km c.radius_km)
          (haversine_km lat lng c.center_lat c.center_lng)

abbrev no_scope : AdminScope
no_scope = record { level = 0; pcode = "" }

-- `a != nil && a.Pcode != ""`
abbrev has_code : Option AdminRef → Bool
has_code none = false
has_code (some a) = not (a.pcode == "")

abbrev code_of : Option AdminRef → String
code_of none = ""
code_of (some a) = a.pcode

-- The deepest of ADM2 and ADM1 that has a P-code.
unfoldable pub admin_scope_from_chain : Option AdminChain → AdminScope
admin_scope_from_chain none = no_scope
admin_scope_from_chain (some chain) =
    if has_code chain.adm2
    then record { level = 2; pcode = code_of chain.adm2 }
    else if has_code chain.adm1
    then record { level = 1; pcode = code_of chain.adm1 }
    else no_scope

-- The name of the deepest level, or "" outside every boundary.
unfoldable pub emergent_area_name : Option AdminChain → String
emergent_area_name none = ""
emergent_area_name (some chain) = elim chain.adm2 [
  | some a ↦ a.name
  | none ↦ elim chain.adm1 [
    | some a ↦ a.name
    | none ↦ elim chain.adm0 [ some a ↦ a.name | none ↦ "" ]
  ]
]
