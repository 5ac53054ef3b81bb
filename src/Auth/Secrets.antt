-- ===== src/Auth/Secrets.antt =====
-- internal/crypto/aesgcm.go: SealString and OpenString, a sealed text in a text column, and
-- ParseKey.
use beacon_backend.Prelude.{
  eqb, ◌==◌, if◌then◌else◌, if_both, ◌∷◌, ℕ, String, Option, none, some, List, [], ◌≡◌, ◌≢◌, refl,
  arith, length,
}
use beacon_backend.Photo.Crypto.{
  key_len, Aead, Outcome, success, failure, seal, open_blob, is_encrypted,
}
use beacon_backend.Photo.Crypto.Laws.{open_blob-seal}

-- The bytes of a text and encoding/base64.
pub record Codec : Type 0 where
  pub utf8 : String → List ℕ
  pub of_utf8 : List ℕ → String
  pub base64 : List ℕ → String
  pub of_base64 : String → Option (List ℕ)

-- Texts survive their bytes, bytes survive base64, and the cipher opens what it sealed.
pub record IsFaithful (gcm : Aead) (codec : Codec) : Type 0 where
  pub text : (s : String) → codec.of_utf8 (codec.utf8 s) ≡ s
  pub base64 : (b : List ℕ) → codec.of_base64 (codec.base64 b) ≡ some b
  pub empty : codec.of_base64 "" ≡ some []
  pub cipher : (k n b : List ℕ) → gcm.open_with k n (gcm.seal_with k n b) ≡ some b

module _ (gcm : Aead) (codec : Codec) (key : List ℕ) where
  unfoldable pub seal_string : List ℕ → String → Option String
  seal_string nonce plaintext = elim (seal gcm key nonce (codec.utf8 plaintext)) [
    | failure e ↦ none
    | success b ↦ some (codec.base64 b)
  ]

  abbrev text_of : Outcome → Option String
  text_of (failure e) = none
  text_of (success b) = some (codec.of_utf8 b)

  unfoldable pub open_string : String → Option String
  open_string enc = elim (codec.of_base64 enc) [
    | none ↦ none
    | some raw ↦ text_of (open_blob gcm key raw)
  ]

  unsealed :
      (nonce : List ℕ) (plaintext enc : String) (o : Outcome)
      → IsFaithful gcm codec
      → length nonce ≡ gcm.nonce_size
      → seal gcm key nonce (codec.utf8 plaintext) ≡ o
      → (elim o [ failure e ↦ none | success b ↦ some (codec.base64 b) ]) ≡ some enc
      → (open_string enc ≡ some plaintext) × (enc ≢ "")
  unfolding open_string is_encrypted
  unsealed nonce plaintext enc (failure e) f n h k = cc
  unsealed nonce plaintext enc (success b) f n h k =
      let (m, o) = open_blob-seal gcm key nonce (codec.utf8 plaintext) b f.cipher n h in
      (
        ground (arith, k, f.base64 b, o, f.text plaintext),
        λ e. let q : b ≡ [] = cc (f.base64 b, f.empty) in ground (arith, m, q),
      )

  -- What was sealed opens to the same text, and is no empty text.
  pub open_string-seal_string :
      (nonce : List ℕ) (plaintext enc : String)
      → IsFaithful gcm codec
      → length nonce ≡ gcm.nonce_size
      → seal_string nonce plaintext ≡ some enc
      → (open_string enc ≡ some plaintext) × (enc ≢ "")
  unfolding seal_string
  open_string-seal_string nonce plaintext enc f n h = unsealed nonce plaintext enc _ f n refl h

-- The decoders that ParseKey tries: base64 with padding, base64 without, and hex.
pub record Decoders : Type 0 where
  pub padded_base64 : String → Option (List ℕ)
  pub raw_base64 : String → Option (List ℕ)
  pub hex : String → Option (List ℕ)

-- No key, a key, or an error.
pub data ParsedKey : Type 0 where
  unset : ParsedKey
  parsed : List ℕ → ParsedKey
  malformed : ParsedKey

unfoldable pub first_key : List (Option (List ℕ)) → ParsedKey
first_key [] = malformed
first_key (none ∷ tries) = first_key tries
first_key (some b ∷ tries) =
    let rest = first_key tries in if eqb (length b) key_len then parsed b else rest

unfoldable pub parse_key : Decoders → String → ParsedKey
unfolding first_key
parse_key d s =
    if s == "" then unset else first_key (d.padded_base64 s ∷ d.raw_base64 s ∷ d.hex s ∷ [])

-- No key, or a key of 32 bytes.
abbrev pub IsKey : ParsedKey → Type 0
IsKey unset = Unit
IsKey (parsed b) = length b ≡ key_len
IsKey malformed = Unit

first_key-IsKey : (tries : List (Option (List ℕ))) → IsKey (first_key tries)
unfolding first_key
first_key-IsKey [] = tt
first_key-IsKey (none ∷ tries) = first_key-IsKey tries
first_key-IsKey (some b ∷ tries) =
    if_both IsKey (eqb (length b) key_len) (λ e. ground (arith, e)) (λ e. first_key-IsKey tries)

-- A key that ParseKey gives is one for AES-256.
pub parse_key-IsKey : (d : Decoders) (s : String) → IsKey (parse_key d s)
unfolding parse_key
parse_key-IsKey d s =
    if_both IsKey (s == "") (λ e. tt)
      (λ e. first_key-IsKey (d.padded_base64 s ∷ d.raw_base64 s ∷ d.hex s ∷ []))
