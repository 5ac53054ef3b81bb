-- ===== src/Handler/Mfa/Changes.antt =====
-- What the requests of a session do to the second factor of the accounts.
use beacon_backend.Prelude.{
  ℕ, String, Option, none, some, List, [], ◌∷◌, Bool, true, false, not, ◌&&◌, ◌||◌, ◌==◌, ◌≡◌, ◌⊎◌,
  inl, inr, refl, arith, eq_iff, map, is_some, if_both, and-true,
}
use beacon_backend.Std.Text.{trim_space}
use beacon_backend.Model.User.{User}
use beacon_backend.Auth.Secrets.{seal_string}
use beacon_backend.Store.Users.{
  Account, has_id, get_mfa_by_id, set_mfa_pending, enable_mfa, disable_mfa,
}
use beacon_backend.Handler.Reply.{Reply}
use beacon_backend.Handler.Mfa.{
  Keys, Trouble, Accounts, has_key, stored, is_valid_code, enroll_mfa, verify_mfa,
  disable_mfa_request,
}
use beacon_backend.Handler.Mfa.Laws.{IsProof, is_valid_code_iff}

-- A request to the routes of the second factor.
pub data Request : Type 0 where
  enroll : Trouble → Option String → List ℕ → Request
  verify : ℕ → Trouble → Option String → Request
  disable : ℕ → Trouble → Option String → Request

-- The rows of two tables stand in a relation, one by one.
abbrev pub Pointwise : (Account → Account → Type 0) → Accounts → Accounts → Type 0
Pointwise R [] [] = Unit
Pointwise R [] (b ∷ bs) = ⊥
Pointwise R (a ∷ as') [] = ⊥
Pointwise R (a ∷ as') (b ∷ bs) = R a b × Pointwise R as' bs

Pointwise-map :
    (R : Account → Account → Type 0) (f : Account → Account) (accounts : Accounts)
    → ((a : Account) → R a (f a))
    → Pointwise R accounts (map f accounts)
Pointwise-map R f [] h = tt
Pointwise-map R f (a ∷ accounts) h = (h a, Pointwise-map R f accounts h)

Pointwise-same :
    (R : Account → Account → Type 0) (accounts : Accounts)
    → ((a : Account) → R a a)
    → Pointwise R accounts accounts
Pointwise-same R [] h = tt
Pointwise-same R (a ∷ accounts) h = (h a, Pointwise-same R accounts h)

module _ (k : Keys) (u : User) where
  unfoldable pub perform : Request → Accounts → Accounts
  perform (enroll trouble fresh nonce) accounts =
      (enroll_mfa k trouble fresh nonce (some u) accounts).1
  perform (verify now trouble body) accounts = (verify_mfa k now trouble (some u) body accounts).1
  perform (disable now trouble body) accounts =
      (disable_mfa_request k now trouble (some u) body accounts).1

  -- The code of the request proves the secret stored for the user.
  abbrev pub IsProven : Accounts → String → ℕ → Type 0
  IsProven accounts code now = IsProof k (get_mfa_by_id u.id accounts).1 (trim_space code) now

  -- What a request may make of an account of its user: enrolling stores a pending secret and
  -- turns the factor off; verifying turns it on and disabling clears it, both by a proof.
  abbrev pub IsAllowed : Request → Accounts → Account → Account → Type 0
  IsAllowed (enroll trouble fresh nonce) accounts a b =
      (enc : String) × (b ≡ record a { mfa_secret = some enc; mfa_enabled = false })
  IsAllowed (verify now trouble none) accounts a b = ⊥
  IsAllowed (verify now trouble (some code)) accounts a b =
      IsProven accounts code now
      × (is_some a.mfa_secret ≡ true)
      × (b ≡ record a { mfa_enabled = true })
  IsAllowed (disable now trouble none) accounts a b = ⊥
  IsAllowed (disable now trouble (some code)) accounts a b =
      IsProven accounts code now × (b ≡ record a { mfa_secret = none; mfa_enabled = false })

  abbrev pub IsChange : Request → Accounts → Account → Account → Type 0
  IsChange r accounts a b = (b ≡ a) ⊎ ((a.user.id ≡ u.id) × IsAllowed r accounts a b)

  same : (r : Request) (accounts : Accounts) → Pointwise (IsChange r accounts) accounts accounts
  same r accounts = Pointwise-same (IsChange r accounts) accounts (λ a. inl refl)

  enrolled :
      (trouble : Trouble) (fresh : Option String) (nonce : List ℕ) (accounts : Accounts)
      (secret : String) (enc : Option String)
      → Pointwise
          (IsChange (enroll trouble fresh nonce) accounts)
          accounts
          (stored k trouble u secret enc accounts).1
  unfolding stored set_mfa_pending
  enrolled trouble fresh nonce accounts secret none = same (enroll trouble fresh nonce) accounts
  enrolled trouble fresh nonce accounts secret (some enc) =
      let r = enroll trouble fresh nonce in
      if_both
        (λ (x : Reply (String × String) × Accounts). Pointwise (IsChange r accounts) accounts x.1)
        trouble.update (λ e. same r accounts)
        (λ e. Pointwise-map (IsChange r accounts) _ accounts (λ a.
          if_both (IsChange r accounts a) (has_id u.id a)
            (λ i. inr ((eq_iff a.user.id u.id).0 i, (enc, refl))) (λ i. inl refl)))

  verified :
      (now : ℕ) (trouble : Trouble) (code : String) (accounts : Accounts)
      → Pointwise
          (IsChange (verify now trouble (some code)) accounts)
          accounts
          (verify_mfa k now trouble (some u) (some code) accounts).1
  unfolding verify_mfa enable_mfa
  verified now trouble code accounts =
      let r = verify now trouble (some code) in
      let enc = (get_mfa_by_id u.id accounts).1 in
      let P = λ (x : Reply Bool × Accounts). Pointwise (IsChange r accounts) accounts x.1 in
      let valid = is_valid_code_iff k enc (trim_space code) now in
      if_both P (not (has_key k)) (λ e. same r accounts)
        (λ _.
          if_both P trouble.lookup (λ e. same r accounts)
            (λ _.
              if_both P (enc == "") (λ e. same r accounts)
                (λ _.
                  if_both P (not (is_valid_code k enc (trim_space code) now)) (λ e. same r accounts)
                    (λ v.
                      if_both P trouble.update (λ e. same r accounts)
                        (λ _. Pointwise-map (IsChange r accounts) _ accounts (λ a.
                          if_both (IsChange r accounts a) (has_id u.id a && is_some a.mfa_secret)
                            (λ i.
                              let (h, o) = and-true (has_id u.id a) (is_some a.mfa_secret) i in
                              inr (
                                (eq_iff a.user.id u.id).0 h,
                                (valid.0 (ground (arith, v)), o, refl),
                              ))
                            (λ i. inl refl)))))))

  disabled :
      (now : ℕ) (trouble : Trouble) (code : String) (accounts : Accounts)
      → Pointwise
          (IsChange (disable now trouble (some code)) accounts)
          accounts
          (disable_mfa_request k now trouble (some u) (some code) accounts).1
  unfolding disable_mfa_request disable_mfa
  disabled now trouble code accounts =
      let r = disable now trouble (some code) in
      let (on, enc) = get_mfa_by_id u.id accounts in
      let P = λ (x : Reply Bool × Accounts). Pointwise (IsChange r accounts) accounts x.1 in
      let valid = is_valid_code_iff k enc (trim_space code) now in
      if_both P trouble.lookup (λ e. same r accounts)
        (λ _.
          if_both P (not on || enc == "") (λ e. same r accounts)
            (λ _.
              if_both P (not (has_key k)) (λ e. same r accounts)
                (λ _.
                  if_both P (not (is_valid_code k enc (trim_space code) now)) (λ e. same r accounts)
                    (λ v.
                      if_both P trouble.update (λ e. same r accounts)
                        (λ _. Pointwise-map (IsChange r accounts) _ accounts (λ a.
                          if_both (IsChange r accounts a) (has_id u.id a)
                            (λ h.
                              inr
                                ((eq_iff a.user.id u.id).0 h, (valid.0 (ground (arith, v)), refl)))
                            (λ i. inl refl)))))))

  -- Whatever a signed-in user asks, every account stays as it was unless it is the user's own; that
  -- one gets a second factor that is on only by a code which proves the stored secret, and loses
  -- it by such a code or by enrolling again.
  pub perform-IsChange :
      (r : Request) (accounts : Accounts)
      → Pointwise (IsChange r accounts) accounts (perform r accounts)
  unfolding perform enroll_mfa verify_mfa disable_mfa_request
  perform-IsChange (enroll trouble none nonce) accounts =
      let r = enroll trouble none nonce in
      if_both
        (λ (x : Reply (String × String) × Accounts). Pointwise (IsChange r accounts) accounts x.1)
        (not (has_key k)) (λ e. same r accounts) (λ e. same r accounts)
  perform-IsChange (enroll trouble (some secret) nonce) accounts =
      let r = enroll trouble (some secret) nonce in
      if_both
        (λ (x : Reply (String × String) × Accounts). Pointwise (IsChange r accounts) accounts x.1)
        (not (has_key k)) (λ e. same r accounts)
        (λ e.
          enrolled trouble (some secret) nonce accounts secret
            (seal_string k.gcm k.codec k.key nonce secret))
  perform-IsChange (verify now trouble none) accounts = same (verify now trouble none) accounts
  perform-IsChange (verify now trouble (some code)) accounts = verified now trouble code accounts
  perform-IsChange (disable now trouble none) accounts = same (disable now trouble none) accounts
  perform-IsChange (disable now trouble (some code)) accounts = disabled now trouble code accounts
