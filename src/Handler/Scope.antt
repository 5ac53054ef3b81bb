-- ===== src/Handler/Scope.antt =====
-- internal/handler/handlers.go: who is a low-trust caller, and which crises a caller may reach.
use beacon_backend.Prelude.{
  String, Option, none, some, List, [], ◌∷◌, Bool, true, false, not, ◌==◌, if◌then◌else◌,
  find_first,
}
use beacon_backend.Std.Text.{trim_space}
use beacon_backend.Model.User.{User, is_viewer_tier, scope_all, scope_allows}
use beacon_backend.Store.Db.{Db}
use beacon_backend.Store.Scan.{or_text}
use beacon_backend.Store.Crises.{active_id}

abbrev pub default_crisis_id : String
default_crisis_id = "crisis-antakya"

unfoldable pub is_public_tier : Option User → Bool
is_public_tier none = true
is_public_tier (some u) = is_viewer_tier u

-- Whether a caller may act on an explicit crisis; a nil user has been gated before.
unfoldable pub scope_allows_crisis : Option User → String → Bool
scope_allows_crisis none id = true
scope_allows_crisis (some u) id = scope_allows u id

-- A report of no crisis is within an org-wide scope alone.
unfoldable pub is_in_scope : User → String → Bool
is_in_scope u crisis_id = if crisis_id == "" then scope_all u else scope_allows u crisis_id

module _ {F : Type 0} where
  -- crisisID: an explicit crisis, else the newest active one, else the default.
  unfoldable pub crisis_id : String → Db F → String
  crisis_id query db =
      if not (trim_space query == "")
      then trim_space query
      else if active_id db == ""
      then default_crisis_id
      else active_id db

  -- scopedCrisis; none where the caller is out of scope.
  unfoldable pub scoped_crisis : Option User → String → Db F → Option String
  unfolding crisis_id
  scoped_crisis none query db = some (crisis_id query db)
  scoped_crisis (some u) query db =
      if not (scope_allows u (crisis_id query db)) then none else some (crisis_id query db)

-- The crisis filter of the report list; none where the caller is out of scope.
unfoldable pub list_scope : Option User → String → Option (String × Option (List String))
list_scope none query =
    if not (trim_space query == "")
    then some (trim_space query, none)
    else some (default_crisis_id, none)
list_scope (some u) query =
    if not (trim_space query == "")
    then (if not (scope_allows u (trim_space query)) then none else some (trim_space query, none))
    else if scope_all u
    then some ("", none)
    else elim u.crisis_scope [
      | [] ↦ some (default_crisis_id, none)
      | c ∷ cs ↦ some ("", some (c ∷ cs))
    ]

pub data MutationScope : Type 0 where
  scope_ok scope_not_found scope_forbidden scope_internal : MutationScope

abbrev decide : Option User → String → MutationScope
decide none crisis = scope_ok
decide (some u) crisis =
    if crisis == ""
    then (if scope_all u then scope_ok else scope_forbidden)
    else if not (scope_allows u crisis)
    then scope_forbidden
    else scope_ok

module _ {F : Type 0} where
  -- CrisisIDOf: none where no report has the id, "" where the report has no crisis.
  unfoldable pub crisis_id_of : Db F → String → Option String
  crisis_id_of db id = elim (find_first (λ r. r.id == id) db.reports) [
    | none ↦ none
    | some row ↦ some (or_text row.crisis_id "")
  ]

  unfoldable pub scope_report_mutation : Bool → Option User → String → Db F → MutationScope
  unfolding crisis_id_of
  scope_report_mutation true user id db = scope_internal
  scope_report_mutation false user id db = elim (crisis_id_of db id) [
    | none ↦ scope_not_found
    | some crisis ↦ decide user crisis
  ]
