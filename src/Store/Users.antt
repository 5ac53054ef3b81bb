-- ===== src/Store/Users.antt =====
-- internal/store/users.go and migrations 00006 and 00024: the accounts of analysts. An UPDATE by id
-- changes the rows of that id; ids and emails are unique.
use beacon_backend.Prelude.{
  ℕ, String, Option, none, some, List, [], ◌∷◌, ◌++◌, Bool, true, false, ◌&&◌, ◌==◌, if◌then◌else◌,
  any, map, find_first, is_some, length,
}
use beacon_backend.Model.User.{User}

pub record Account : Type 0 where
  pub user : User
  pub password_hash : String
  pub mfa_secret : Option String
  pub mfa_enabled : Bool

abbrev pub has_id : String → Account → Bool
has_id id a = a.user.id == id

unfoldable pub count_users : List Account → ℕ
count_users accounts = length accounts

-- ON CONFLICT (email) DO NOTHING
unfoldable pub create_user : User → String → List Account → List Account
create_user u hash accounts =
    if any (λ a. a.user.email == u.email) accounts
    then accounts
    else accounts
      ++ record { user = u; password_hash = hash; mfa_secret = none; mfa_enabled = false } ∷ []

unfoldable pub get_by_email : String → List Account → Option Account
get_by_email email accounts = find_first (λ a. a.user.email == email) accounts

-- (enabled, encrypted secret), "" for no secret; a missing account reads as disabled.
unfoldable pub get_mfa_by_id : String → List Account → Bool × String
get_mfa_by_id id accounts = elim (find_first (has_id id) accounts) [
  | none ↦ (false, "")
  | some a ↦ elim a.mfa_secret [ none ↦ (a.mfa_enabled, "") | some s ↦ (a.mfa_enabled, s) ]
]

unfoldable pub set_mfa_pending : String → String → List Account → List Account
set_mfa_pending id secret accounts =
    map (λ a. if has_id id a then record a { mfa_secret = some secret; mfa_enabled = false } else a)
      accounts

unfoldable pub enable_mfa : String → List Account → List Account
enable_mfa id accounts =
    map (λ a. if has_id id a && is_some a.mfa_secret then record a { mfa_enabled = true } else a)
      accounts

unfoldable pub disable_mfa : String → List Account → List Account
disable_mfa id accounts =
    map (λ a. if has_id id a then record a { mfa_secret = none; mfa_enabled = false } else a)
      accounts
