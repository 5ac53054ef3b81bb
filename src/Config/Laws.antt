-- ===== src/Config/Laws.antt =====
-- Which configurations the server starts with.
use beacon_backend.Prelude.{
  ℕ, suc, ◌≤◌, none, some, Bool, true, false, ◌==◌, ◌≡◌, ◌≢◌, ◌⊎◌, ◌↔◌, length, if◌then◌else◌,
  arith, eq_iff, Bool-cases, inl, inr,
}
use beacon_backend.Prelude.Int.{ℤ, pos, negsuc, ltb_ℤ, pos_part}
use beacon_backend.Std.Float.{Float}
use beacon_backend.Config.{
  Config, no_database_url, too_few_conns, unknown_dataset, unknown_env, default_jwt_secret,
  radius_not_positive, window_too_short, too_few_reports, no_encryption_key, ssl_not_enforced,
  ssl_enforced, validate_config,
}

-- What a server that faces the public must have.
pub record IsGuarded {F : Type 0} (c : Config F) : Type 0 where
  pub secret : c.jwt_secret ≢ ""
  pub own_secret : c.jwt_secret ≢ "beacon-dev-secret-change-me"
  pub key : length c.data_encryption_key ≡ 32
  pub tls : ssl_enforced c.database_url ≡ true

at_least : (k : ℕ) (a : ℤ) → (ltb_ℤ a (pos (suc k)) ≡ false) ↔ (suc k ≤ pos_part a)
at_least k (pos n) = ground arith
at_least k (negsuc n) = ground arith

-- No guard of the sequence fires.
passed :
    (url conns dataset known secret radius window few key ssl : Bool)
    → (if url
        then some no_database_url
        else if conns
        then some too_few_conns
        else if dataset
        then some unknown_dataset
        else if known
        then some unknown_env
        else if secret
        then some default_jwt_secret
        else if radius
        then some radius_not_positive
        else if window
        then some window_too_short
        else if few
        then some too_few_reports
        else if key
        then some no_encryption_key
        else if ssl
        then some ssl_not_enforced
        else none)
      ≡ none
    → (known ≡ false)
      × (secret ≡ false)
      × (window ≡ false)
      × (few ≡ false)
      × (key ≡ false)
      × (ssl ≡ false)
passed url conns dataset known secret radius window few key ssl h = ground (arith, h)

module _ {F : Type 0} ⦃fl : Float F⦄ where
  -- A configuration that validates demands at least two reports for a crisis and a window of an
  -- hour, and is for development or, in production, has a signing secret of its own, a key of 32
  -- bytes for data at rest and an encrypted connection to the database.
  pub validate_config-IsGuarded :
      (c : Config F)
      → validate_config c ≡ none
      → (2 ≤ pos_part c.emergent_min_reports)
        × (1 ≤ pos_part c.emergent_window_hrs)
        × ((c.env ≡ "dev") ⊎ ((c.env ≡ "prod") × IsGuarded c))
  unfolding validate_config
  validate_config-IsGuarded c v =
      let (known, secret, window, few, key, ssl) = passed _ _ _ _ _ _ _ _ _ _ v in
      (
        (at_least 1 c.emergent_min_reports).0 few,
        (at_least 0 c.emergent_window_hrs).0 window,
        elim (Bool-cases (c.env == "prod")) [
          | inr n ↦ inl (ground (arith, known, n, eq_iff c.env "dev"))
          | inl e ↦ inr (
            (eq_iff c.env "prod").0 e,
            record {
              secret = ground (arith, secret, e, eq_iff c.jwt_secret "");
              own_secret =
                  ground (arith, secret, e, eq_iff c.jwt_secret "beacon-dev-secret-change-me");
              key = ground (arith, key, e);
              tls = ground (arith, ssl, e);
            },
          )
        ],
      )
