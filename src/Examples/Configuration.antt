-- ===== src/Examples/Configuration.antt =====
-- Configurations at concrete inputs.
use beacon_backend.Prelude.{ℕ, ◌≤◌, List, [], ◌∷◌, some, false, ◌≡◌, ◌⊎◌, refl, ◌++◌}
use beacon_backend.Prelude.Int.{ℤ, pos, pos_part}
use beacon_backend.Config.{Config, default_jwt_secret, ssl_enforced, validate_config}
use beacon_backend.Config.Laws.{IsGuarded, validate_config-IsGuarded}
use beacon_backend.Fixtures.{whole}

running : Unit {0}
unfolding ssl_enforced validate_config
running = tt

abbrev four : List ℕ
four = 1 ∷ 2 ∷ 3 ∷ 4 ∷ []

abbrev production : Config ℤ
production = record {
  database_url = "postgres://beacon@db/beacon?sslmode=verify-full&pool=4";
  pgx_max_conns = pos 20;
  seed_dataset = "dashboard";
  jwt_secret = "a secret of the deployment";
  env = "prod";
  data_encryption_key = four ++ four ++ four ++ four ++ four ++ four ++ four ++ four;
  emergent_radius_km = pos 2;
  emergent_window_hrs = pos 24;
  emergent_min_reports = pos 3;
}

refused_secret :
    validate_config (record production { jwt_secret = "beacon-dev-secret-change-me" })
    ≡ some default_jwt_secret
unfolding running
refused_secret = refl

plain_text : ssl_enforced "postgres://beacon@db/beacon?sslmode=prefer" ≡ false
unfolding running
plain_text = refl

validate_config-IsGuarded_example :
    (2 ≤ pos_part production.emergent_min_reports)
    × (1 ≤ pos_part production.emergent_window_hrs)
    × ((production.env ≡ "dev") ⊎ ((production.env ≡ "prod") × IsGuarded production))
unfolding running
validate_config-IsGuarded_example = validate_config-IsGuarded production refl
