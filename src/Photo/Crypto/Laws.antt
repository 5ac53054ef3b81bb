-- ===== src/Photo/Crypto/Laws.antt =====
-- The round trip of the container.
use beacon_backend.Prelude.{
  ℕ, List, ◌++◌, true, sym, some, ◌≡◌, arith, length, take-append_exact, drop-append_exact,
  length-append,
}
use beacon_backend.Photo.Crypto.{Aead, key_len, magic, success, seal, open_blob, is_encrypted}

sealed :
    (gcm : Aead) (key nonce p blob : List ℕ)
    → seal gcm key nonce p ≡ success blob
    → (length key ≡ key_len) × (magic ++ (nonce ++ gcm.seal_with key nonce p) ≡ blob)
unfolding seal
sealed gcm key nonce p blob h = ground arith

-- With a cipher that opens what it sealed under the same key and nonce, a sealed blob has the
-- magic header and opens to the plaintext.
pub open_blob-seal :
    (gcm : Aead) (key nonce plaintext blob : List ℕ)
    → ((k n p : List ℕ) → gcm.open_with k n (gcm.seal_with k n p) ≡ some p)
    → length nonce ≡ gcm.nonce_size
    → seal gcm key nonce plaintext ≡ success blob
    → (is_encrypted blob ≡ true) × (open_blob gcm key blob ≡ success plaintext)
unfolding seal open_blob is_encrypted
open_blob-seal gcm key nonce p blob rt n h =
    let c = gcm.seal_with key nonce p in
    let (k, e) = sealed gcm key nonce p blob h in
    let t = take-append_exact nonce c in
    let d = drop-append_exact nonce c in
    rw (sym e) (
      ground (arith),
      ground (arith, k, rt key nonce p, rw n at t, rw n at d, n, length-append nonce c),
    )
