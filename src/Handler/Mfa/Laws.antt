-- ===== src/Handler/Mfa/Laws.antt =====
-- Who is signed in, and what may change the second factor of an account.
use beacon_backend.Prelude.{
  ℕ, String, some, Bool, true, false, not, ◌==◌, ◌≡◌, ◌≢◌, ◌⊎◌, ◌↔◌, inl, inr, refl, sym, ◌∙◌,
  arith, eqb, eq_iff, if◌then◌else◌, length, Bool-cases, Option-cases,
}
use beacon_backend.Std.Text.{trim_space}
use beacon_backend.Model.User.{User}
use beacon_backend.Photo.Crypto.{key_len}
use beacon_backend.Auth.Totp.{validate_totp}
use beacon_backend.Auth.Secrets.{open_string}
use beacon_backend.Store.Users.{Account, get_by_email}
use beacon_backend.Handler.Reply.{Reply, sent, refused}
use beacon_backend.Handler.Mfa.{
  Keys, LoginRequest, Accounts, secret_of, signed_in, second_factor, is_valid_code, login,
}

factor_guards :
    {A : Type 0} (enabled key blank valid : Bool) (next : Reply A) (r : A)
    → ((if not enabled
          then next
          else if not key
          then refused 500 "internal"
          else if blank
          then refused 401 "mfa_required"
          else if not valid
          then refused 401 "mfa_invalid"
          else next)
        ≡ sent 200 r)
      ↔ (((enabled ≡ false) ⊎ ((key ≡ true) × (blank ≡ false) × (valid ≡ true)))
          × (next ≡ sent 200 r))
factor_guards false key blank valid next r = (λ h. (inl refl, h), λ (f, h). h)
factor_guards true false blank valid next r = (λ h. ground (arith, h), λ (f, h). ground arith)
factor_guards true true true valid next r = (λ h. ground (arith, h), λ (f, h). ground arith)
factor_guards true true false false next r = (λ h. ground (arith, h), λ (f, h). ground arith)
factor_guards true true false true next r = (λ h. (inr (refl, refl, refl), h), λ (f, h). h)

module _ (k : Keys) where
  -- The stored secret opens, and the code is one of its current ones.
  abbrev pub IsProof : String → String → ℕ → Type 0
  IsProof enc code now =
      (secret : String) × (open_string k.gcm k.codec k.key enc ≡ some secret)
      × (validate_totp k.totp secret code now ≡ true)

  pub is_valid_code_iff :
      (enc code : String) (now : ℕ) → (is_valid_code k enc code now ≡ true) ↔ IsProof enc code now
  unfolding is_valid_code
  is_valid_code_iff enc code now = elim (Option-cases (open_string k.gcm k.codec k.key enc)) [
    | inl e ↦ (λ h. ground (arith, e, h), λ (s, o, v). ground (arith, e, o))
    | inr (s, e) ↦ (λ h. (s, e, ground (arith, e, h)), λ (s', o, v). ground (arith, e, o, v))
  ]

  -- The second factor where it is on.
  abbrev pub HasFactor : Account → String → ℕ → Type 0
  HasFactor a code now =
      (a.mfa_enabled ≡ false)
      ⊎ ((length k.key ≡ key_len)
          × (trim_space code ≢ "")
          × IsProof (secret_of k a.mfa_secret) code now)

  signed_in_iff :
      (u : User) (now : ℕ) (t : String) (v : User)
      → (signed_in k u now ≡ sent 200 (t, v)) ↔ ((k.issue u now ≡ some t) × (u ≡ v))
  unfolding signed_in
  signed_in_iff u now t v = elim (Option-cases (k.issue u now)) [
    | inl e ↦ (λ h. ground (arith, e, h), λ (i, p). ground (arith, e, i))
    | inr (t', e) ↦ (λ h. ground (arith, e, h), λ (i, p). ground (arith, e, i, p))
  ]

  second_factor_iff :
      (a : Account) (code : String) (now : ℕ) (r : String × User)
      → (second_factor k a code now ≡ sent 200 r)
        ↔ (HasFactor a code now × (signed_in k a.user now ≡ sent 200 r))
  unfolding second_factor
  second_factor_iff a code now r =
      let c = is_valid_code_iff (secret_of k a.mfa_secret) code now in
      let b = eq_iff (trim_space code) "" in
      let (pass, take) =
        factor_guards a.mfa_enabled (eqb (length k.key) key_len) (trim_space code == "")
          (is_valid_code k (secret_of k a.mfa_secret) code now) (signed_in k a.user now) r in
      (
        λ h.
            let (g, t) = pass h in
            elim g [
              | inl off ↦ (inl off, t)
              | inr (key, blank, valid) ↦
                  (inr (ground (arith, key), ground (arith, blank, b), c.0 valid), t)
            ],
        λ (f, t). elim f [
          | inl off ↦ take (inl off, t)
          | inr (key, blank, valid) ↦
              take (inr (ground (arith, key), ground (arith, blank, b), c.1 valid), t)
        ],
      )

  pub login-second_factor :
      (now : ℕ) (req : LoginRequest) (accounts : Accounts) (a : Account)
      → get_by_email req.email accounts ≡ some a
      → k.check_password a.password_hash req.password ≡ true
      → login k now false (some req) accounts ≡ second_factor k a req.mfa_code now
  unfolding login
  login-second_factor now req accounts a e p = ground (arith, e, p)

  abbrev IsSignedIn : ℕ → LoginRequest → Accounts → String → User → Type 0
  IsSignedIn now req accounts t u =
      (a : Account) × (get_by_email req.email accounts ≡ some a)
      × (k.check_password a.password_hash req.password ≡ true)
      × HasFactor a req.mfa_code now
      × (k.issue a.user now ≡ some t)
      × (a.user ≡ u)

  login-account :
      (now : ℕ) (req : LoginRequest) (accounts : Accounts) (t : String) (u : User)
      → login k now false (some req) accounts ≡ sent 200 (t, u)
      → IsSignedIn now req accounts t u
  unfolding login
  login-account now req accounts t u h = elim (Option-cases (get_by_email req.email accounts)) [
    | inl e ↦ ground (arith, e, h)
    | inr (a, e) ↦ elim (Bool-cases (k.check_password a.password_hash req.password)) [
      | inr p ↦ ground (arith, e, p, h)
      | inl p ↦
          let both = second_factor_iff a req.mfa_code now (t, u) in
          let (f, g) = both.0 (sym (login-second_factor now req accounts a e p) ∙ h) in
          let (i, v) = (signed_in_iff a.user now t u).0 g in (a, e, p, f, i, v)
    ]
  ]

  -- A login that no failure meets signs in exactly the account of the email, by its password and,
  -- where its second factor is on, by a code that is current for its stored secret, and then with
  -- a 32-byte key; it answers with a token for that account.
  pub login_iff :
      (now : ℕ) (req : LoginRequest) (accounts : Accounts) (t : String) (u : User)
      → (login k now false (some req) accounts ≡ sent 200 (t, u)) ↔ (
          (a : Account) × (get_by_email req.email accounts ≡ some a)
          × (k.check_password a.password_hash req.password ≡ true)
          × HasFactor a req.mfa_code now
          × (k.issue a.user now ≡ some t)
          × (a.user ≡ u))
  unfolding login
  login_iff now req accounts t u = (
    login-account now req accounts t u,
    λ (a, f, p, x, i, v).
        login-second_factor now req accounts a f p
        ∙ (second_factor_iff a req.mfa_code now (t, u)).1
            (x, (signed_in_iff a.user now t u).1 (i, v)),
  )
