-- ===== src/Service/FormSchema.antt =====
-- internal/service/form_schema.go: the built-in capture form and a crisis's overrides of it.
pub mod Laws
use beacon_backend.Prelude.{
  String, Option, none, some, List, [], ◌∷◌, Bool, true, false, not, ◌||◌, if◌then◌else◌, map,
}
use beacon_backend.Model.Vocabulary.{contains}
use beacon_backend.Model.Form.{FormOption, FormSection, FormOverrides}
use beacon_backend.Service.Errors.{
  Result, ok, err, ServiceError, validation, section_unknown, section_required_and_disabled, ◌>>=◌,
  ◌>>◌,
}

abbrev option : String → String → FormOption
option value label = record { value = value; label = label }

abbrev electricity : FormSection
electricity = record {
  key = "electricity";
  title = "Electricity infrastructure condition";
  kind = "single";
  required = false;
  allow_other_text = false;
  options =
      option "none_observed" "No damage observed"
      ∷ option "minor" "Minor damage (service disruptions but quickly repairable)"
      ∷ option "moderate" "Moderate damage (partial outages requiring repairs)"
      ∷ option "severe" "Severe damage (major infrastructure damaged, prolonged outages)"
      ∷ option "destroyed" "Completely destroyed (no electricity infrastructure functioning)"
      ∷ option "unknown" "Unknown/cannot be assessed"
      ∷ [];
}

abbrev health_services : FormSection
health_services = record {
  key = "healthServices";
  title = "Health services functioning";
  kind = "single";
  required = false;
  allow_other_text = false;
  options =
      option "fully_functional" "Fully functional"
      ∷ option "partially_functional" "Partially functional"
      ∷ option "largely_disrupted" "Largely disrupted"
      ∷ option "not_functioning" "Not functioning at all"
      ∷ option "unknown" "Unknown"
      ∷ [];
}

abbrev pressing_needs : FormSection
pressing_needs = record {
  key = "pressingNeeds";
  title = "Most pressing needs";
  kind = "multi";
  required = false;
  allow_other_text = true;
  options =
      option "food_water" "Food assistance and safe drinking water"
      ∷ option "cash" "Cash or financial assistance"
      ∷ option "healthcare" "Access to healthcare and essential medicines"
      ∷ option "shelter" "Shelter, housing repair, or temporary accommodation"
      ∷ option "livelihoods" "Restoration of livelihoods or income sources"
      ∷ option "wash" "Water, sanitation, and hygiene (toilets, washing facilities)"
      ∷ option "basic_services"
          "Restoration of basic services and infrastructure (electricity, roads, schools)"
      ∷ option "protection" "Protection services and psychosocial support"
      ∷ option "local_support" "Support from local authorities and community organizations"
      ∷ option "other" "Other"
      ∷ [];
}

abbrev pub default_form_sections : List FormSection
default_form_sections = electricity ∷ health_services ∷ pressing_needs ∷ []

unfoldable pub known_form_section_keys : List String
known_form_section_keys = map (λ s. s.key) default_form_sections

abbrev pub resolved : List String → FormSection → FormSection
resolved required s = if contains required s.key then record s { required = true } else s

unfoldable pub apply_to : FormOverrides → List FormSection → List FormSection
apply_to ov [] = []
apply_to ov (s ∷ sections) =
    let rest = apply_to ov sections in
    if contains ov.disabled s.key then rest else resolved ov.required s ∷ rest

unfoldable pub apply_form_overrides : List FormSection → Option FormOverrides → List FormSection
unfolding apply_to
apply_form_overrides sections none = sections
apply_form_overrides sections (some ov) = apply_to ov sections

abbrev reject_if : Bool → ServiceError → Result (Unit {0})
reject_if true e = err e
reject_if false e = ok tt

unfoldable pub check_disabled : List String → Result (Unit {0})
check_disabled [] = ok tt
check_disabled (k ∷ ks) =
    let rest = check_disabled ks in
    reject_if (not (contains known_form_section_keys k)) (validation (section_unknown k)) >> rest

unfoldable pub check_required : List String → List String → Result (Unit {0})
check_required disabled [] = ok tt
check_required disabled (k ∷ ks) =
    let rest = check_required disabled ks in
    reject_if (not (contains known_form_section_keys k)) (validation (section_unknown k))
    >> reject_if (contains disabled k) (validation (section_required_and_disabled k))
    >> rest

unfoldable pub validate_form_overrides : FormOverrides → Result (Unit {0})
unfolding check_disabled check_required
validate_form_overrides ov = check_disabled ov.disabled >> check_required ov.disabled ov.required
