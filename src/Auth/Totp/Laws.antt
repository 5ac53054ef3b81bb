-- ===== src/Auth/Totp/Laws.antt =====
-- Which codes are accepted.
use Prim.Native.String.{len}
use beacon_backend.Prelude.{
  ℕ, ◌+◌, ◌-◌, ◌/◌, ◌%◌, ◌^◌, ◌≤◌, ◌<◌, String, none, some, List, [], ◌∷◌, true, false, ◌≡◌, ◌⊎◌,
  ◌↔◌, inl, inr, arith, refl, Option-cases, any, any,
}
use beacon_backend.Std.Text.{codes, trim_space}
use beacon_backend.Photo.Jpeg.{same_bytes}
use beacon_backend.Photo.Jpeg.Laws.{same_bytes_iff}
use beacon_backend.Auth.Totp.{Primitives, hotp, totp_code, try_codes, validate_totp, totp_period}

-- The entered text is the code of a step.
abbrev pub IsCode : Primitives → String → List ℕ → ℕ → Type 0
IsCode p code key step = codes (trim_space code) ≡ hotp p key step

module _ (p : Primitives) (secret code : String) (now : ℕ)
    (sane : (30 ≤ now) × (now < 2 ^ 63)) where
  before : (now + 2 ^ 64 - 30) % 2 ^ 64 / 30 ≡ now / 30 - 1
  before = omega arith

  after : (now + 30) / 30 ≡ now / 30 + 1
  after = omega arith

  one :
      (key : List ℕ) (t : ℕ)
      → p.base32 (p.to_upper (trim_space secret)) ≡ some key
      → totp_code p secret t ≡ some (hotp p key (t / 30))
  unfolding totp_code
  one key t k = rw (k, totp_code) refl

  no_code : (t : ℕ) → p.base32 (p.to_upper (trim_space secret)) ≡ none → totp_code p secret t ≡ none
  unfolding totp_code
  no_code t n = rw (n, totp_code) refl

  opened :
      (key : List ℕ) (c : List ℕ) (times : List ℕ)
      → p.base32 (p.to_upper (trim_space secret)) ≡ some key
      → try_codes p secret c times ≡ any (λ t. same_bytes (hotp p key (t / 30)) c) times
  unfolding try_codes
  opened key c [] k = refl
  opened key c (t ∷ times) k = ground (arith, one key t k, opened key c times k)

  shut :
      (c : List ℕ) (times : List ℕ)
      → p.base32 (p.to_upper (trim_space secret)) ≡ none
      → try_codes p secret c times ≡ false
  unfolding try_codes
  shut c [] n = refl
  shut c (t ∷ times) n = ground (arith, no_code t n)

  -- A code is accepted exactly if it has six bytes, the secret is base32, and the code is that of
  -- the current thirty seconds, of the thirty before them or of the thirty after them.
  pub validate_totp_iff : (validate_totp p secret code now ≡ true) ↔ (
      (len (trim_space code) ≡ 6)
      × ((key : List ℕ) × (p.base32 (p.to_upper (trim_space secret)) ≡ some key)
          × (IsCode p code key (now / 30)
              ⊎ IsCode p code key (now / 30 - 1)
              ⊎ IsCode p code key (now / 30 + 1))))
  unfolding validate_totp
  validate_totp_iff =
      let c = codes (trim_space code) in
      let earlier = (now + 2 ^ 64 - totp_period) % 2 ^ 64 in
      let times = now ∷ earlier ∷ (now + totp_period) ∷ [] in
      elim (Option-cases (p.base32 (p.to_upper (trim_space secret)))) [
        | inl n ↦ (λ h. ground (arith, shut c times n), λ (l, (key, k, o)). ground (arith, n, k))
        | inr (key, k) ↦
            let now_code = same_bytes_iff (hotp p key (now / 30)) c in
            let earlier_code = rw before at (same_bytes_iff (hotp p key (earlier / 30)) c) in
            let later_code = rw after at (same_bytes_iff (hotp p key ((now + 30) / 30)) c) in
            (
              λ h. (
                ground arith,
                (
                  key,
                  k,
                  ground (
                    arith,
                    h,
                    opened key c times k,
                    now_code,
                    earlier_code,
                    later_code,
                    before,
                    after,
                  ),
                ),
              ),
              λ (l, (j, q, o)). ground (
                arith,
                l,
                k,
                q,
                o,
                opened key c times k,
                now_code,
                earlier_code,
                later_code,
                before,
                after,
              ),
            )
      ]
