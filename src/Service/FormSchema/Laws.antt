-- ===== src/Service/FormSchema/Laws.antt =====
-- A crisis's capture form against its overrides.
use beacon_backend.Prelude.{
  String, some, List, [], ◌∷◌, Bool, true, false, not, ◌||◌, ◌≡◌, ◌↔◌, refl, arith, map, select,
  All,
}
use beacon_backend.Model.Vocabulary.{contains}
use beacon_backend.Model.Form.{FormSection, FormOverrides}
use beacon_backend.Service.Errors.{Result, ok, ◌>>◌}
use beacon_backend.Service.FormSchema.{
  known_form_section_keys, apply_to, apply_form_overrides, check_disabled, check_required,
  validate_form_overrides,
}

abbrev pub is_shown : FormOverrides → FormSection → Bool
is_shown ov s = not (contains ov.disabled s.key)

abbrev pub is_asked : FormOverrides → FormSection → Bool
is_asked ov s = s.required || contains ov.required s.key

-- The keys of the form are those that are not disabled, in the form's order; a section is required
-- exactly where it was, or the overrides require it.
pub apply_form_overrides_lem :
    (sections : List FormSection) (ov : FormOverrides)
    → let form = apply_form_overrides sections (some ov) in
      let shown = select (is_shown ov) sections in
      (map (λ s. s.key) form ≡ map (λ s. s.key) shown)
      × (map (λ s. s.required) form ≡ map (is_asked ov) shown)
      × (map (λ s. s.options) form ≡ map (λ s. s.options) shown)
unfolding apply_form_overrides apply_to
apply_form_overrides_lem [] ov = (refl, refl, refl)
apply_form_overrides_lem (s ∷ sections) ov =
    let ih = apply_form_overrides_lem sections ov in
    (ground (arith, ih.0), ground (arith, ih.1), ground (arith, ih.2))

abbrev IsKnown : String → Type 0
IsKnown k = contains known_form_section_keys k ≡ true

check_disabled_iff : (ks : List String) → (check_disabled ks ≡ ok tt) ↔ All IsKnown ks
unfolding check_disabled
check_disabled_iff [] = (λ h. tt, λ h. refl)
check_disabled_iff (k ∷ ks) = let ih = check_disabled_iff ks in ground (arith, ih)

check_required_iff :
    (disabled ks : List String)
    → (check_required disabled ks ≡ ok tt) ↔ All (λ k. IsKnown k × (contains disabled k ≡ false)) ks
unfolding check_required
check_required_iff disabled [] = (λ h. tt, λ h. refl)
check_required_iff disabled (k ∷ ks) = let ih = check_required_iff disabled ks in ground (arith, ih)

both_ok : (m k : Result (Unit {0})) → ((m >> k) ≡ ok tt) ↔ ((m ≡ ok tt) × (k ≡ ok tt))
both_ok m k = ground arith

-- Overrides are accepted exactly when every key names a section of the form and none is both
-- required and disabled.
pub validate_form_overrides_iff :
    (ov : FormOverrides)
    → (validate_form_overrides ov ≡ ok tt) ↔ (
        All (λ k. contains known_form_section_keys k ≡ true) ov.disabled
        × All
            (λ k. (contains known_form_section_keys k ≡ true) × (contains ov.disabled k ≡ false))
            ov.required)
unfolding validate_form_overrides
validate_form_overrides_iff ov =
    let d = check_disabled_iff ov.disabled in
    let r = check_required_iff ov.disabled ov.required in
    let b = both_ok (check_disabled ov.disabled) (check_required ov.disabled ov.required) in
    (λ h. (d.0 (b.0 h).0, r.0 (b.0 h).1), λ h. b.1 (d.1 h.0, r.1 h.1))
