-- ===== src/Examples/SignIn.antt =====
-- Signing in at concrete inputs.
use Prim.Native.String.{len}
use beacon_backend.Prelude.{
  ℕ, ◌+◌, ◌-◌, ◌/◌, some, List, [], ◌∷◌, ◌++◌, Bool, true, false, ◌≡◌, ◌⊎◌, ◌↔◌, refl, arith, ◌==◌,
}
use beacon_backend.Std.Text.{codes, is_space, trim_space}
use beacon_backend.Photo.Crypto.{seal, open_blob, is_encrypted}
use beacon_backend.Auth.Totp.{Primitives, byte_at, hotp, totp_code, try_codes, validate_totp}
use beacon_backend.Auth.Totp.Laws.{IsCode, validate_totp_iff}
use beacon_backend.Auth.Secrets.{seal_string, open_string}
use beacon_backend.Store.Users.{
  Account, create_user, get_by_email, get_mfa_by_id, set_mfa_pending, enable_mfa, disable_mfa,
}
use beacon_backend.Handler.Reply.{Reply, sent, refused}
use beacon_backend.Handler.Mfa.{
  Keys, LoginRequest, Trouble, Accounts, stored, signed_in, second_factor, is_valid_code, login,
  enroll_mfa, verify_mfa, disable_mfa_request,
}
use beacon_backend.Handler.Mfa.Laws.{HasFactor, login_iff}
use beacon_backend.Handler.Mfa.Changes.{
  Request, enroll, Pointwise, IsChange, perform, perform-IsChange,
}
use beacon_backend.Handler.Mfa.Cycle.{login-enroll_mfa, login-verify_mfa}
use beacon_backend.Examples.Texts.{toy_cipher, toy_codec, toy_codec-IsFaithful}
use beacon_backend.Fixtures.{analyst}

running : Unit {0}
unfolding is_space trim_space seal open_blob is_encrypted byte_at hotp totp_code try_codes
    validate_totp seal_string open_string create_user get_by_email get_mfa_by_id set_mfa_pending
    enable_mfa disable_mfa stored signed_in second_factor is_valid_code login enroll_mfa verify_mfa
    disable_mfa_request perform
running = tt

abbrev toy_codes : Primitives
toy_codes = record { hmac = λ k m. m ++ (m ++ m); base32 = λ s. some (codes s); to_upper = λ s. s }

abbrev eight : List ℕ
eight = 1 ∷ 2 ∷ 3 ∷ 4 ∷ 5 ∷ 6 ∷ 7 ∷ 8 ∷ []

abbrev keys : Keys
keys = record {
  gcm = toy_cipher;
  codec = toy_codec;
  totp = toy_codes;
  key = eight ++ eight ++ eight ++ eight;
  check_password = λ hash password. hash == password;
  issue = λ u now. some u.email;
  provision = λ secret email. secret;
}

abbrev calm : Trouble
calm = record { lookup = false; update = false }

abbrev accounts : Accounts
accounts =
    record { user = analyst; password_hash = "pw"; mfa_secret = some "old"; mfa_enabled = true }
    ∷ []

abbrev request : LoginRequest
request = record { email = "analyst@example.org"; password = "pw"; mfa_code = "" }

-- The code of step 300, and of its neighbours, at second 9000.
codes_at_9000 :
    (validate_totp toy_codes "S" " 000300" 9000 ≡ true)
    × (validate_totp toy_codes "S" "000001" 9029 ≡ true)
    × (validate_totp toy_codes "S" "000298" 9000 ≡ false)
unfolding running
codes_at_9000 = (refl, refl, refl)

validate_totp_iff_example : (validate_totp toy_codes "S" "000301" 9000 ≡ true) ↔ (
    (len (trim_space "000301") ≡ 6)
    × ((key : List ℕ) × (toy_codes.base32 (toy_codes.to_upper (trim_space "S")) ≡ some key)
        × (IsCode toy_codes "000301" key (9000 / 30)
            ⊎ IsCode toy_codes "000301" key (9000 / 30 - 1)
            ⊎ IsCode toy_codes "000301" key (9000 / 30 + 1))))
validate_totp_iff_example = validate_totp_iff toy_codes "S" "000301" 9000 (omega arith)

login_iff_example :
    (login keys 9000 false (some request) accounts ≡ sent 200 ("analyst@example.org", analyst)) ↔ (
      (a : Account) × (get_by_email request.email accounts ≡ some a)
      × (keys.check_password a.password_hash request.password ≡ true)
      × HasFactor keys a request.mfa_code 9000
      × (keys.issue a.user 9000 ≡ some "analyst@example.org")
      × (a.user ≡ analyst))
login_iff_example = login_iff keys 9000 request accounts "analyst@example.org" analyst

refused_login : login keys 9000 false (some request) accounts ≡ refused 401 "mfa_required"
unfolding running
refused_login = refl

abbrev enrolling : Request
enrolling = enroll calm (some "S") (5 ∷ 6 ∷ [])

perform-IsChange_example :
    Pointwise
      (IsChange keys analyst enrolling accounts)
      accounts
      (perform keys analyst enrolling accounts)
perform-IsChange_example = perform-IsChange keys analyst enrolling accounts

login-enroll_mfa_example :
    login keys 9000 false
      (some request)
      (enroll_mfa keys calm (some "S") (5 ∷ 6 ∷ []) (some analyst) accounts).1
    ≡ sent 200 ("analyst@example.org", analyst)
unfolding running
login-enroll_mfa_example =
    login-enroll_mfa keys calm (some "S") (5 ∷ 6 ∷ []) analyst accounts ("S", "S") 9000 request
      (record { user = analyst; password_hash = "pw"; mfa_secret = some "old"; mfa_enabled = true })
      "analyst@example.org" refl refl refl refl refl

abbrev verified : Reply Bool × Accounts
verified =
    verify_mfa keys 9000 calm (some analyst) (some "000300")
      (enroll_mfa keys calm (some "S") (5 ∷ 6 ∷ []) (some analyst) accounts).1

login-verify_mfa_example :
    (verified.0 ≡ sent 200 true)
    × (login keys 9005 false (some request) verified.1 ≡ refused 401 "mfa_required")
unfolding running
login-verify_mfa_example =
    let account : Account = record {
      user = analyst;
      password_hash = "pw";
      mfa_secret = some "old";
      mfa_enabled = true;
    } in
    login-verify_mfa keys calm (some "S") (5 ∷ 6 ∷ []) analyst accounts ("S", "S") 9000 9005 calm
      "000300" request account account toy_codec-IsFaithful refl refl refl (refl, refl) refl refl
      refl refl refl
