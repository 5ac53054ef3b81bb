-- ===== src/Handler/Mfa/Cycle.antt =====
-- Enrolling, verifying and signing in, one after another.
use beacon_backend.Prelude.{
  ℕ, String, Option, none, some, List, [], ◌∷◌, Bool, true, false, ◌&&◌, ◌==◌, ◌≡◌, ◌≢◌, inl, inr,
  refl, sym, ap, ◌∙◌, arith, eq_iff, length, if◌then◌else◌, map, find_first, find_first-holds,
  is_some, Bool-cases, Option-cases,
}
use beacon_backend.Std.Text.{trim_space}
use beacon_backend.Model.User.{User}
use beacon_backend.Auth.Totp.{validate_totp}
use beacon_backend.Auth.Secrets.{IsFaithful, seal_string, open_string-seal_string}
use beacon_backend.Store.Users.{
  Account, has_id, get_by_email, get_mfa_by_id, set_mfa_pending, enable_mfa,
}
use beacon_backend.Handler.Reply.{Reply, sent, refused}
use beacon_backend.Handler.Mfa.{
  Keys, LoginRequest, Trouble, Accounts, has_key, stored, signed_in, second_factor, login,
  enroll_mfa, verify_mfa,
}
use beacon_backend.Handler.Mfa.Laws.{IsProof, is_valid_code_iff, login-second_factor}

-- An account with a pending secret, and with one that is in force.
abbrev pending : String → Account → Account
pending enc a = record a { mfa_secret = some enc; mfa_enabled = false }

abbrev in_force : Account → Account
in_force a = record a { mfa_enabled = true }

find_first-map :
    (p : Account → Bool) (f : Account → Account) (accounts : Accounts) (a : Account)
    → ((b : Account) → p (f b) ≡ p b)
    → find_first p accounts ≡ some a
    → find_first p (map f accounts) ≡ some (f a)
find_first-map p f [] a keeps h = ground (arith, h)
find_first-map p f (b ∷ accounts) a keeps h =
    ground (arith, h, keeps b, find_first-map p f accounts a keeps)

module _ (email : String) (accounts : Accounts) (a : Account)
    (found : get_by_email email accounts ≡ some a) where
  get_by_email-set_mfa_pending :
      (id enc : String)
      → has_id id a ≡ true
      → get_by_email email (set_mfa_pending id enc accounts) ≡ some (pending enc a)
  unfolding get_by_email set_mfa_pending
  get_by_email-set_mfa_pending id enc h =
      find_first-map (λ b. b.user.email == email) (λ b. if has_id id b then pending enc b else b)
        accounts a (λ b. ground arith) found
      ∙ rw h refl

  get_by_email-enable_mfa :
      (id : String)
      → has_id id a ≡ true
      → is_some a.mfa_secret ≡ true
      → get_by_email email (enable_mfa id accounts) ≡ some (in_force a)
  unfolding get_by_email enable_mfa
  get_by_email-enable_mfa id h s =
      find_first-map (λ b. b.user.email == email)
        (λ b. if has_id id b && is_some b.mfa_secret then in_force b else b) accounts a
        (λ b. ground arith) found
      ∙ ground (arith, h, s)

get_mfa_by_id-set_mfa_pending :
    (id enc : String) (accounts : Accounts) (b : Account)
    → find_first (has_id id) accounts ≡ some b
    → get_mfa_by_id id (set_mfa_pending id enc accounts) ≡ (false, enc)
unfolding get_mfa_by_id set_mfa_pending
get_mfa_by_id-set_mfa_pending id enc accounts b h =
    let mine = find_first-holds (has_id id) accounts b h in
    ground (
      arith,
      mine,
      find_first-map (has_id id) (λ c. if has_id id c then pending enc c else c) accounts b
          (λ c. ground arith) h,
    )

module _ (k : Keys) (trouble : Trouble) (fresh : Option String) (nonce : List ℕ) (u : User)
    (accounts : Accounts) where
  abbrev after_enroll : Accounts
  after_enroll = (enroll_mfa k trouble fresh nonce (some u) accounts).1

  record IsEnrolled (r : String × String) : Type 0 where
    enc : String
    keyed : has_key k ≡ true
    given : fresh ≡ some r.0
    sealed : seal_string k.gcm k.codec k.key nonce r.0 ≡ some enc
    written : after_enroll ≡ set_mfa_pending u.id enc accounts

  stored-sent :
      (secret : String) (enc : Option String) (r : String × String)
      → (stored k trouble u secret enc accounts).0 ≡ sent 200 r
      → (e : String) × (enc ≡ some e)
        × (secret ≡ r.0)
        × ((stored k trouble u secret enc accounts).1 ≡ set_mfa_pending u.id e accounts)
  unfolding stored
  stored-sent secret none r h = ground (arith, h)
  stored-sent secret (some e) r h = elim (Bool-cases trouble.update) [
    | inl t ↦ ground (arith, h, t)
    | inr t ↦ (e, refl, ground (arith, h, t), rw t refl)
  ]

  enroll_mfa-stored :
      (secret : String)
      → has_key k ≡ true
      → fresh ≡ some secret
      → enroll_mfa k trouble fresh nonce (some u) accounts
        ≡ stored k trouble u secret (seal_string k.gcm k.codec k.key nonce secret) accounts
  unfolding enroll_mfa
  enroll_mfa-stored secret b f = ground (arith, b, f)

  enroll_mfa-IsEnrolled :
      (r : String × String)
      → (enroll_mfa k trouble fresh nonce (some u) accounts).0 ≡ sent 200 r
      → IsEnrolled r
  unfolding enroll_mfa
  enroll_mfa-IsEnrolled r h = elim (Bool-cases (has_key k)) [
    | inr b ↦ ground (arith, b, h)
    | inl b ↦ elim (Option-cases fresh) [
      | inl f ↦ ground (arith, b, f, h)
      | inr (secret, f) ↦
          let step = enroll_mfa-stored secret b f in
          let (e, s, q, w) =
            stored-sent secret (seal_string k.gcm k.codec k.key nonce secret) r (rw step at h) in
          record {
            enc = e;
            keyed = b;
            given = f ∙ ap some q;
            sealed = sym (ap (seal_string k.gcm k.codec k.key nonce) q) ∙ s;
            written = ap (λ (x : Reply (String × String) × Accounts). x.1) step ∙ w;
          }
    ]
  ]

  -- Enrolling turns the second factor off without any code: after a session has enrolled, the
  -- password alone signs in, also where the factor was on before.
  pub login-enroll_mfa :
      (r : String × String) (now : ℕ) (req : LoginRequest) (a : Account) (t : String)
      → (enroll_mfa k trouble fresh nonce (some u) accounts).0 ≡ sent 200 r
      → get_by_email req.email accounts ≡ some a
      → a.user.id ≡ u.id
      → k.check_password a.password_hash req.password ≡ true
      → k.issue a.user now ≡ some t
      → login k now false (some req) after_enroll ≡ sent 200 (t, a.user)
  unfolding second_factor signed_in
  login-enroll_mfa r now req a t h found mine password token =
      let e = enroll_mfa-IsEnrolled r h in
      let there =
        get_by_email-set_mfa_pending req.email accounts a found u.id e.enc
          ((eq_iff a.user.id u.id).1 mine) in
      rw e.written (
        login-second_factor k now req (set_mfa_pending u.id e.enc accounts) (pending e.enc a) there
          password
        ∙ ground (arith, token))

  abbrev after_verify : ℕ → Trouble → String → Reply Bool × Accounts
  after_verify now calm code = verify_mfa k now calm (some u) (some code) after_enroll

  verify_mfa-proof :
      (now : ℕ) (calm : Trouble) (code enc : String) (now_accounts : Accounts)
      → has_key k ≡ true
      → calm.lookup ≡ false
      → calm.update ≡ false
      → get_mfa_by_id u.id now_accounts ≡ (false, enc)
      → enc ≢ ""
      → IsProof k enc (trim_space code) now
      → verify_mfa k now calm (some u) (some code) now_accounts
        ≡ (sent 200 true, enable_mfa u.id now_accounts)
  unfolding verify_mfa
  verify_mfa-proof now calm code enc now_accounts b l w g n v =
      let valid = (is_valid_code_iff k enc (trim_space code) now).1 v in
      let e = ap (λ (x : Bool × String). x.1) g in
      rw e (ground (arith, b, l, w, n, eq_iff enc "", valid))

  -- With a faithful cipher and encoding: once a session has enrolled, a current code of the secret
  -- that it was given turns the second factor on, and from then on the account's password without
  -- a code is answered with "mfa_required".
  pub login-verify_mfa :
      (r : String × String) (now later : ℕ) (calm : Trouble) (code : String) (req : LoginRequest)
      (a b : Account)
      → IsFaithful k.gcm k.codec
      → length nonce ≡ k.gcm.nonce_size
      → (enroll_mfa k trouble fresh nonce (some u) accounts).0 ≡ sent 200 r
      → find_first (has_id u.id) accounts ≡ some b
      → (calm.lookup ≡ false) × (calm.update ≡ false)
      → validate_totp k.totp r.0 (trim_space code) now ≡ true
      → get_by_email req.email accounts ≡ some a
      → a.user.id ≡ u.id
      → k.check_password a.password_hash req.password ≡ true
      → trim_space req.mfa_code ≡ ""
      → ((after_verify now calm code).0 ≡ sent 200 true)
        × (login k later false (some req) (after_verify now calm code).1
            ≡ refused 401 "mfa_required")
  unfolding second_factor
  login-verify_mfa r now later calm code req a b f n h here (l, w) v found mine password blank =
      let e = enroll_mfa-IsEnrolled r h in
      let (o, nonempty) =
        open_string-seal_string k.gcm k.codec k.key nonce r.0 e.enc f n e.sealed in
      let id = (eq_iff a.user.id u.id).1 mine in
      let enrolled = set_mfa_pending u.id e.enc accounts in
      let done =
        verify_mfa-proof now calm code e.enc enrolled e.keyed l w
          (get_mfa_by_id-set_mfa_pending u.id e.enc accounts b here) nonempty (r.0, o, v) in
      let there = get_by_email-set_mfa_pending req.email accounts a found u.id e.enc id in
      let on = get_by_email-enable_mfa req.email enrolled (pending e.enc a) there u.id id refl in
      rw (e.written, done)
        (
          refl,
          login-second_factor k later req (enable_mfa u.id enrolled) (in_force (pending e.enc a)) on
                password
              ∙ ground (arith, e.keyed, blank, eq_iff (trim_space req.mfa_code) ""),
        )
