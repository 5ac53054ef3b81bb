-- ===== src/Config.antt =====
-- internal/config/config.go: Config.Validate and sslEnforced. The fields that neither reads are
-- left out.
pub mod Laws
use Prim.Native.String.{len, find, slice}
use beacon_backend.Prelude.{
  ℕ, ◌+◌, String, Option, none, some, List, Bool, true, false, not, ◌&&◌, ◌||◌, ◌==◌, eqb, ltb,
  length, if◌then◌else◌,
}
use beacon_backend.Prelude.Int.{ℤ, pos, ltb_ℤ}
use beacon_backend.Std.Float.{Float, of_nat}
use beacon_backend.Photo.Crypto.{key_len}

pub record Config (F : Type 0) : Type 0 where
  pub database_url : String
  pub pgx_max_conns : ℤ
  pub seed_dataset : String
  pub jwt_secret : String
  pub env : String
  pub data_encryption_key : List ℕ
  pub emergent_radius_km : F
  pub emergent_window_hrs : ℤ
  pub emergent_min_reports : ℤ

-- The errors of Validate, in its order.
pub data Fault : Type 0 where
  no_database_url too_few_conns unknown_dataset unknown_env default_jwt_secret radius_not_positive :
      Fault
  window_too_short too_few_reports no_encryption_key ssl_not_enforced : Fault

-- The value of `sslmode=` up to the next `&`.
sslmode : String → String
sslmode url =
    let v = slice url (find url "sslmode=" + 8) (len url) in
    if ltb (len v) (find v "&") then v else slice v 0 (find v "&")

unfoldable pub ssl_enforced : String → Bool
unfolding sslmode
ssl_enforced url =
    if ltb (len url) (find url "sslmode=")
    then false
    else sslmode url == "require" || sslmode url == "verify-ca" || sslmode url == "verify-full"

module _ {F : Type 0} ⦃fl : Float F⦄ where
  unfoldable pub validate_config : Config F → Option Fault
  validate_config c =
      if c.database_url == ""
      then some no_database_url
      else if ltb_ℤ c.pgx_max_conns (pos 1)
      then some too_few_conns
      else if not
          (c.seed_dataset == "dashboard" || c.seed_dataset == "mobile" || c.seed_dataset == "both")
      then some unknown_dataset
      else if not (c.env == "dev" || c.env == "prod")
      then some unknown_env
      else if c.env == "prod"
          && (c.jwt_secret == "" || c.jwt_secret == "beacon-dev-secret-change-me")
      then some default_jwt_secret
      else if fl.le c.emergent_radius_km (of_nat 0)
      then some radius_not_positive
      else if ltb_ℤ c.emergent_window_hrs (pos 1)
      then some window_too_short
      else if ltb_ℤ c.emergent_min_reports (pos 2)
      then some too_few_reports
      else if c.env == "prod" && not (eqb (length c.data_encryption_key) key_len)
      then some no_encryption_key
      else if c.env == "prod" && not (ssl_enforced c.database_url)
      then some ssl_not_enforced
      else none
