-- ===== src/Handler/Mfa.antt =====
-- internal/handler/mfa.go and auth.go: signing in, and the second factor of an account. The routes
-- of the second factor stand behind requireAnalyst alone.
pub mod Laws
pub mod Changes
pub mod Cycle
use beacon_backend.Prelude.{
  ℕ, String, Option, none, some, List, Bool, true, false, not, ◌&&◌, ◌||◌, ◌==◌, eqb, if◌then◌else◌,
  length,
}
use beacon_backend.Std.Text.{trim_space}
use beacon_backend.Model.User.{User}
use beacon_backend.Photo.Crypto.{Aead, key_len}
use beacon_backend.Auth.Totp.{Primitives, validate_totp}
use beacon_backend.Auth.Secrets.{Codec, seal_string, open_string}
use beacon_backend.Store.Users.{
  Account, get_by_email, get_mfa_by_id, set_mfa_pending, enable_mfa, disable_mfa,
}
use beacon_backend.Handler.Reply.{Reply, sent, refused}

-- `key` is DataEncryptionKey; `check_password` is bcrypt's comparison of a hash with a password,
-- `issue` signs a token at an instant, and `provision` is the otpauth URI of a secret and an email.
pub record Keys : Type 0 where
  pub gcm : Aead
  pub codec : Codec
  pub totp : Primitives
  pub key : List ℕ
  pub check_password : String → String → Bool
  pub issue : User → ℕ → Option String
  pub provision : String → String → String

pub record LoginRequest : Type 0 where
  pub email : String
  pub password : String
  pub mfa_code : String

-- Whether the lookup and the update of a request fail.
pub record Trouble : Type 0 where
  pub lookup : Bool
  pub update : Bool

abbrev pub Accounts : Type 0
Accounts = List Account

module _ (k : Keys) where
  abbrev pub has_key : Bool
  has_key = eqb (length k.key) key_len

  abbrev pub or_else : Option String → Bool → (String → Bool) → Bool
  or_else none d f = d
  or_else (some s) d f = f s

  -- `derr == nil && auth.ValidateTOTP(secret, code, now)`
  unfoldable pub is_valid_code : String → String → ℕ → Bool
  is_valid_code enc code now =
      or_else (open_string k.gcm k.codec k.key enc) false (λ s. validate_totp k.totp s code now)

  abbrev pub secret_of : Option String → String
  secret_of none = ""
  secret_of (some s) = s

  unfoldable pub signed_in : User → ℕ → Reply (String × User)
  signed_in u now = elim (k.issue u now) [
    | none ↦ refused 500 "internal"
    | some t ↦ sent 200 (t, u)
  ]

  unfoldable pub second_factor : Account → String → ℕ → Reply (String × User)
  unfolding signed_in
  second_factor a code now =
      if not a.mfa_enabled
      then signed_in a.user now
      else if not has_key
      then refused 500 "internal"
      else if trim_space code == ""
      then refused 401 "mfa_required"
      else if not (is_valid_code (secret_of a.mfa_secret) code now)
      then refused 401 "mfa_invalid"
      else signed_in a.user now

  -- none where the body is no JSON of its type; a login writes no table.
  unfoldable pub login : ℕ → Bool → Option LoginRequest → Accounts → Reply (String × User)
  unfolding second_factor
  login now lost none accounts = refused 400 "bad_json"
  login now true (some req) accounts = refused 500 "internal"
  login now false (some req) accounts = elim (get_by_email req.email accounts) [
    | none ↦ refused 401 "invalid_credentials"
    | some a ↦
        if not (k.check_password a.password_hash req.password)
        then refused 401 "invalid_credentials"
        else second_factor a req.mfa_code now
  ]

  unfoldable pub me : Option User → Reply User
  me none = refused 401 "unauthorized"
  me (some u) = sent 200 u

  unfoldable pub stored :
      Trouble → User → String → Option String → Accounts → Reply (String × String) × Accounts
  stored trouble u secret none accounts = (refused 500 "internal", accounts)
  stored trouble u secret (some enc) accounts =
      if trouble.update
      then (refused 500 "db", accounts)
      else (sent 200 (secret, k.provision secret u.email), set_mfa_pending u.id enc accounts)

  -- `fresh` is the new secret, none where the random source fails; `nonce` is of the same source.
  unfoldable pub enroll_mfa :
      Trouble → Option String → List ℕ → Option User → Accounts → Reply (String × String) × Accounts
  unfolding stored
  enroll_mfa trouble fresh nonce none accounts = (refused 401 "unauthorized", accounts)
  enroll_mfa trouble fresh nonce (some u) accounts =
      if not has_key then (refused 503 "mfa_unavailable", accounts) else elim fresh [
        | none ↦ (refused 500 "internal", accounts)
        | some secret ↦
            stored trouble u secret (seal_string k.gcm k.codec k.key nonce secret) accounts
      ]

  unfoldable pub verify_mfa :
      ℕ → Trouble → Option User → Option String → Accounts → Reply Bool × Accounts
  verify_mfa now trouble none body accounts = (refused 401 "unauthorized", accounts)
  verify_mfa now trouble (some u) none accounts = (refused 400 "bad_json", accounts)
  verify_mfa now trouble (some u) (some code) accounts =
      let enc = (get_mfa_by_id u.id accounts).1 in
      if not has_key
      then (refused 503 "mfa_unavailable", accounts)
      else if trouble.lookup
      then (refused 500 "db", accounts)
      else if enc == ""
      then (refused 400 "mfa_not_enrolled", accounts)
      else if not (is_valid_code enc (trim_space code) now)
      then (refused 401 "mfa_invalid", accounts)
      else if trouble.update
      then (refused 500 "db", accounts)
      else (sent 200 true, enable_mfa u.id accounts)

  unfoldable pub disable_mfa_request :
      ℕ → Trouble → Option User → Option String → Accounts → Reply Bool × Accounts
  disable_mfa_request now trouble none body accounts = (refused 401 "unauthorized", accounts)
  disable_mfa_request now trouble (some u) none accounts = (refused 400 "bad_json", accounts)
  disable_mfa_request now trouble (some u) (some code) accounts =
      let (enabled, enc) = get_mfa_by_id u.id accounts in
      if trouble.lookup
      then (refused 500 "db", accounts)
      else if not enabled || enc == ""
      then (sent 200 false, accounts)
      else if not has_key
      then (refused 503 "mfa_unavailable", accounts)
      else if not (is_valid_code enc (trim_space code) now)
      then (refused 401 "mfa_invalid", accounts)
      else if trouble.update
      then (refused 500 "db", accounts)
      else (sent 200 false, disable_mfa u.id accounts)
