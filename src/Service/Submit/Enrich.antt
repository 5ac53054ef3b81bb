-- ===== src/Service/Submit/Enrich.antt =====
-- internal/service/report_service.go: the steps of Submit between the guards and the transaction:
-- reverse geocoding, the client's pinned crisis, crisis assignment, translation. None can fail.
use beacon_backend.Prelude.{
  ℕ, String, Option, none, some, Bool, false, not, ◌&&◌, ◌||◌, ◌==◌, if◌then◌else◌,
}
use beacon_backend.Std.Float.{Float}
use beacon_backend.Model.Report.{AdminChain, ReportDescription, Report}
use beacon_backend.Store.Db.{CrisisRow, Db}
use beacon_backend.Store.Crises.{get_crisis, assign_crisis}
use beacon_backend.Service.Geography.{pin_outside_containment}
use beacon_backend.Service.Submit.Context.{
  get_crisis as crisis_lookup, assign_crisis as assignment, Translator, Env,
}

abbrev or_chain : Option AdminChain → Option AdminChain → Option AdminChain
or_chain none old = old
or_chain (some c) old = some c

-- `lang != target && tr != original`: a genuine translation, into another language.
translated_into : String → String → String → ReportDescription → ReportDescription
translated_into target tr lang d =
    let spoken =
      if d.original_lang == "" || d.original_lang == "auto"
      then record d { original_lang = lang }
      else d in
    if not (lang == target) && not (tr == d.original)
    then record spoken { translated = tr; translated_lang = some target }
    else spoken

-- What the translator answers leaves the original as it is.
unfoldable pub translate_description :
    Translator → Option ReportDescription → Option ReportDescription
unfolding translated_into
translate_description t none = none
translate_description t (some d) =
    if t.enabled && not (d.original == "")
    then elim (t.translate d.original) [
      | none ↦ some d
      | some answer ↦ some (translated_into t.target answer.0 answer.1 d)
    ]
    else some d

module _ {F : Type 0} ⦃fl : Float F⦄ (env : Env F) (db : Db F) where
  abbrev is_outside : F → F → Option (CrisisRow F) → Bool
  is_outside lat lng none = false
  is_outside lat lng (some c) = pin_outside_containment lat lng c

  -- A pin whose crisis lies far from the point is ignored.
  unfoldable pub keep_pin : F → F → String → String
  keep_pin lat lng crisis_id =
      if not (crisis_id == "")
        && not (env.fails crisis_lookup)
        && is_outside lat lng (get_crisis db crisis_id)
      then ""
      else crisis_id

  -- With no pin left the server assigns by space and time.
  unfoldable pub choose_crisis : F → F → ℕ → String → String
  unfolding keep_pin
  choose_crisis lat lng captured_at pin =
      let kept = keep_pin lat lng pin in
      if kept == "" && not (env.fails assignment)
      then assign_crisis env.gis db lat lng captured_at
      else kept

  -- The two steps that need a resolved point.
  locate : Report F → Report F
  unfolding choose_crisis
  locate r = elim r.lat [
    | none ↦ r
    | some lat ↦ elim r.lng [
      | none ↦ r
      | some lng ↦ record r {
        admin = or_chain (env.resolve_admin lat lng) r.admin;
        crisis_id = choose_crisis lat lng r.captured_at r.crisis_id;
      }
    ]
  ]

  unfoldable pub enrich : Report F → Report F
  unfolding locate translate_description
  enrich r =
      let located = locate r in
      record located { description = translate_description env.translator located.description }
