-- ===== src/Auth/Totp.antt =====
-- internal/auth/totp.go: the one-time codes of RFC 6238. HMAC-SHA-1, base32 and strings.ToUpper are
-- parameters; an instant is its Unix time in seconds, from 1970 on.
pub mod Laws
use Prim.Native.String.{len}
use beacon_backend.Prelude.{
  ℕ, zero, suc, ◌+◌, ◌-◌, ◌*◌, ◌/◌, ◌%◌, ◌^◌, String, Option, none, some, List, [], ◌∷◌, Bool, true,
  false, not, eqb, if◌then◌else◌, length,
}
use beacon_backend.Std.Text.{codes, trim_space}
use beacon_backend.Photo.Jpeg.{same_bytes}

-- `hmac key message` is its 20 bytes; `base32` decodes without padding, none for a malformed text.
pub record Primitives : Type 0 where
  pub hmac : List ℕ → List ℕ → List ℕ
  pub base32 : String → Option (List ℕ)
  pub to_upper : String → String

abbrev pub totp_digits : ℕ
totp_digits = 6

abbrev pub totp_period : ℕ
totp_period = 30

unfoldable pub byte_at : List ℕ → ℕ → ℕ
byte_at [] i = 0
byte_at (b ∷ bs) zero = b
byte_at (b ∷ bs) (suc i) = byte_at bs i

-- binary.BigEndian.PutUint64
abbrev be64 : ℕ → List ℕ
be64 n =
    (n / 2 ^ 56 % 256)
    ∷ (n / 2 ^ 48 % 256)
    ∷ (n / 2 ^ 40 % 256)
    ∷ (n / 2 ^ 32 % 256)
    ∷ (n / 2 ^ 24 % 256)
    ∷ (n / 2 ^ 16 % 256)
    ∷ (n / 2 ^ 8 % 256)
    ∷ (n % 256)
    ∷ []

abbrev digit : ℕ → ℕ
digit n = 48 + n % 10

-- fmt.Sprintf("%06d", n) for an n below a million, as bytes.
abbrev six_digits : ℕ → List ℕ
six_digits n =
    digit (n / 100000)
    ∷ digit (n / 10000)
    ∷ digit (n / 1000)
    ∷ digit (n / 100)
    ∷ digit (n / 10)
    ∷ digit n
    ∷ []

-- The four bytes at `off`, the top bit cleared; the shifted bytes do not overlap.
abbrev truncated : List ℕ → ℕ
truncated sum =
    let off = byte_at sum (length sum - 1) % 16 in
    byte_at sum off % 128 * 2 ^ 24
    + byte_at sum (off + 1) * 2 ^ 16
    + byte_at sum (off + 2) * 2 ^ 8
    + byte_at sum (off + 3)

-- The code of a counter.
unfoldable pub hotp : Primitives → List ℕ → ℕ → List ℕ
unfolding byte_at
hotp p key counter = six_digits (truncated (p.hmac key (be64 counter)) % 1000000)

-- `unix` is uint64(t.Unix()).
unfoldable pub totp_code : Primitives → String → ℕ → Option (List ℕ)
totp_code p secret unix = elim (p.base32 (p.to_upper (trim_space secret))) [
  | none ↦ none
  | some key ↦ some (hotp p key (unix / totp_period))
]

-- The loop over the skews: an undecodable secret ends it.
unfoldable pub try_codes : Primitives → String → List ℕ → List ℕ → Bool
try_codes p secret code [] = false
try_codes p secret code (unix ∷ rest) =
    let later = try_codes p secret code rest in
    elim (totp_code p secret unix) [
      | none ↦ false
      | some want ↦ if same_bytes want code then true else later
    ]

unfoldable pub validate_totp : Primitives → String → String → ℕ → Bool
validate_totp p secret code now =
    if not (eqb (len (trim_space code)) totp_digits)
    then false
    else try_codes p secret (codes (trim_space code))
        (now ∷ ((now + 2 ^ 64 - totp_period) % 2 ^ 64) ∷ (now + totp_period) ∷ [])
