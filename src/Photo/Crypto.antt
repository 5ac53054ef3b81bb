-- ===== src/Photo/Crypto.antt =====
-- internal/crypto/aesgcm.go: the container of a blob at rest. AES-GCM itself is a parameter.
pub mod Laws
use beacon_backend.Prelude.{
  ℕ, ◌+◌, List, [], ◌∷◌, ◌++◌, Bool, true, false, not, ◌&&◌, Option, none, some, eqb, ltb, leb,
  if◌then◌else◌, length, take, drop,
}
use beacon_backend.Photo.Jpeg.{same_bytes}

abbrev pub key_len : ℕ
key_len = 32

-- "BEC1"
abbrev pub magic : List ℕ
magic = 0x42 ∷ 0x45 ∷ 0x43 ∷ 0x31 ∷ []

-- cipher.AEAD over a key: `seal` and `open` with no additional data; none where the tag is wrong.
pub record Aead : Type 0 where
  pub nonce_size : ℕ
  pub seal_with : List ℕ → List ℕ → List ℕ → List ℕ
  pub open_with : List ℕ → List ℕ → List ℕ → Option (List ℕ)

pub data CryptoError : Type 0 where
  bad_key_length not_encrypted too_short authentication_failed : CryptoError

pub data Outcome : Type 0 where
  success : List ℕ → Outcome
  failure : CryptoError → Outcome

unfoldable pub is_encrypted : List ℕ → Bool
is_encrypted blob = leb 4 (length blob) && same_bytes (take 4 blob) magic

module _ (gcm : Aead) where
  -- `nonce` is what the random source gave.
  unfoldable pub seal : List ℕ → List ℕ → List ℕ → Outcome
  seal key nonce plaintext =
      if not (eqb (length key) key_len)
      then failure bad_key_length
      else success (magic ++ (nonce ++ gcm.seal_with key nonce plaintext))

  abbrev opened : Option (List ℕ) → Outcome
  opened none = failure authentication_failed
  opened (some p) = success p

  unfoldable pub open_blob : List ℕ → List ℕ → Outcome
  unfolding is_encrypted
  open_blob key blob =
      let body = drop 4 blob in
      if not (is_encrypted blob)
      then failure not_encrypted
      else if not (eqb (length key) key_len)
      then failure bad_key_length
      else if ltb (length body) gcm.nonce_size
      then failure too_short
      else opened (gcm.open_with key (take gcm.nonce_size body) (drop gcm.nonce_size body))
