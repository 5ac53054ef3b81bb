-- ===== src/Service/Validate.antt =====
-- internal/service/report_service.go: validate. None is the nil error; the loops stop at the first
-- unknown entry.
pub mod Laws
use beacon_backend.Prelude.{
  String, Option, none, some, List, [], ◌∷◌, Bool, true, false, not, ◌||◌, ◌==◌, if◌then◌else◌,
}
use beacon_backend.Std.{items, is_empty, is_blank}
use beacon_backend.Std.Float.{Float, of_nat, of_neg}
use beacon_backend.Model.Vocabulary.{
  damage_tiers, debris_states, infra_types_all, crisis_natures, cluster_names, contains,
}
use beacon_backend.Model.Report.{Report}
use beacon_backend.Service.Errors.{
  Invalid, id_required, damage_not_a_tier, debris_not_a_state, infra_required, nature_required,
  infra_unknown, nature_unknown, cluster_unknown, ai_level_not_a_tier, coords_required,
  coords_out_of_range, landmark_required, Result, ok, err, validation, ◌>>◌,
}

-- `if bad { return ValidationError{...} }`
abbrev reject_if : Bool → Invalid → Result (Unit {0})
reject_if true e = err (validation e)
reject_if false e = ok tt

-- The loop `for _, v := range vs { if !contains(set, v) { return ... } }`.
each_known : List String → (String → Invalid) → List String → Result (Unit {0})
each_known set e [] = ok tt
each_known set e (v ∷ vs) =
    let rest = each_known set e vs in if contains set v then rest else err (validation (e v))

-- `r.AILevel != nil && !contains(model.DamageTiers, *r.AILevel)`
abbrev bad_ai_level : Option String → Bool
bad_ai_level none = false
bad_ai_level (some l) = not (contains damage_tiers l)

module _ {F : Type 0} ⦃fl : Float F⦄ where
  -- `*r.Lat < -90 || *r.Lat > 90 || *r.Lng < -180 || *r.Lng > 180`
  unfoldable pub out_of_range : F → F → Bool
  out_of_range lat lng =
      fl.lt lat (of_neg 89)
      || fl.lt (of_nat 90) lat
      || fl.lt lng (of_neg 179)
      || fl.lt (of_nat 180) lng

  check_location : Bool → Option F → Option F → Option String → Result (Unit {0})
  unfolding out_of_range
  check_location true (some lat) (some lng) landmark =
      reject_if (out_of_range lat lng) coords_out_of_range
  check_location true _ _ landmark = err (validation coords_required)
  check_location false _ _ landmark = reject_if (is_blank landmark) landmark_required

  unfoldable pub validate : Report F → Result (Unit {0})
  unfolding check_location each_known
  validate r = do
    reject_if (r.id == "") id_required
    reject_if (not (contains damage_tiers r.damage)) damage_not_a_tier
    reject_if (not (contains debris_states r.debris)) debris_not_a_state
    reject_if (is_empty r.infra_types) infra_required
    each_known infra_types_all infra_unknown (items r.infra_types)
    reject_if (is_empty r.crisis_nature) nature_required
    each_known crisis_natures nature_unknown (items r.crisis_nature)
    reject_if (bad_ai_level r.ai_level) ai_level_not_a_tier
    each_known cluster_names cluster_unknown (items r.clusters)
    check_location r.location_resolved r.lat r.lng r.landmark
