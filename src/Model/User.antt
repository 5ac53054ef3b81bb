-- ===== src/Model/User.antt =====
-- internal/model/user.go: roles, and what each may do.
use beacon_backend.Prelude.{
  ℕ, String, List, [], ◌∷◌, Bool, false, not, ◌&&◌, ◌||◌, ◌==◌, leb, if◌then◌else◌, Option,
}

pub record User : Type 0 where
  pub id : String
  pub email : String
  pub name : String
  pub role : String
  pub region : Option String
  pub crisis_scope : List String

unfoldable pub can_mutate : User → Bool
can_mutate u = not (u.role == "external_viewer") && not (u.role == "")

unfoldable pub is_viewer_tier : User → Bool
is_viewer_tier u = not (
    u.role == "field_validator"
    || u.role == "co_analyst"
    || u.role == "regional_analyst"
    || u.role == "crisis_admin")

-- roleRank; a missing key reads as 0.
unfoldable pub role_rank : String → ℕ
role_rank role =
    if role == "field_validator"
    then 1
    else if role == "co_analyst"
    then 2
    else if role == "regional_analyst"
    then 3
    else if role == "crisis_admin"
    then 4
    else 0

unfoldable pub can_manage_global_config : User → Bool
unfolding role_rank
can_manage_global_config u = leb (role_rank "regional_analyst") (role_rank u.role)

unfoldable pub can_manage_crisis : User → Bool
unfolding role_rank
can_manage_crisis u = leb (role_rank "regional_analyst") (role_rank u.role)

has_star : List String → Bool
has_star [] = false
has_star (c ∷ scope) = c == "*" || has_star scope

unfoldable pub has_crisis : List String → String → Bool
has_crisis [] crisis_id = false
has_crisis (c ∷ scope) crisis_id = c == crisis_id || has_crisis scope crisis_id

unfoldable pub scope_all : User → Bool
unfolding has_star
scope_all u = has_star u.crisis_scope

unfoldable pub scope_allows : User → String → Bool
unfolding scope_all has_crisis
scope_allows u crisis_id = scope_all u || has_crisis u.crisis_scope crisis_id
