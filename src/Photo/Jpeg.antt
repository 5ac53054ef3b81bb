-- ===== src/Photo/Jpeg.antt =====
-- internal/handler/photo.go: sniffImage and stripJPEGMetadata, over bytes as numbers below 256.
pub mod Laws
pub mod Fuel
use beacon_backend.Prelude.{
  ℕ, zero, suc, ◌+◌, ◌*◌, ◌-◌, List, [], ◌∷◌, ◌++◌, Bool, true, false, not, ◌&&◌, ◌||◌, eqb, ltb,
  leb, if◌then◌else◌, length, take, drop, Option, none, some,
}

-- bytes.Equal
abbrev pub same_bytes : List ℕ → List ℕ → Bool
same_bytes [] [] = true
same_bytes [] (y ∷ ys) = false
same_bytes (x ∷ xs) [] = false
same_bytes (x ∷ xs) (y ∷ ys) = eqb x y && same_bytes xs ys

abbrev png : List ℕ
png = 0x89 ∷ 0x50 ∷ 0x4E ∷ 0x47 ∷ 0x0D ∷ 0x0A ∷ 0x1A ∷ 0x0A ∷ []

abbrev riff : List ℕ
riff = 0x52 ∷ 0x49 ∷ 0x46 ∷ 0x46 ∷ []

abbrev webp : List ℕ
webp = 0x57 ∷ 0x45 ∷ 0x42 ∷ 0x50 ∷ []

unfoldable pub sniff_image : List ℕ → Bool
sniff_image b =
    (leb 3 (length b) && same_bytes (take 3 b) (0xFF ∷ 0xD8 ∷ 0xFF ∷ []))
    || (leb 8 (length b) && same_bytes (take 8 b) png)
    || (leb 12 (length b) && same_bytes (take 4 b) riff && same_bytes (take 4 (drop 8 b)) webp)

-- SOS and EOI: neither has a length.
abbrev pub ends_segments : ℕ → Bool
ends_segments marker = eqb marker 0xDA || eqb marker 0xD9

-- APP1 and COM.
abbrev pub is_metadata : ℕ → Bool
is_metadata marker = eqb marker 0xE1 || eqb marker 0xFE

-- `append(out, seg...)` in front of what the rounds after it append.
abbrev pub appended : List ℕ → Option (List ℕ) → Option (List ℕ)
appended seg none = none
appended seg (some out) = some (seg ++ out)

-- The loop, on the bytes from `i` on: what it appends to `out`, and none where the fuel is spent
-- before the loop has ended.
unfoldable pub strip_from : ℕ → List ℕ → Option (List ℕ)
strip_from zero rest = none
strip_from (suc fuel) [] = some []
strip_from (suc fuel) (x ∷ []) = some []
strip_from (suc fuel) (x ∷ m ∷ []) = some (x ∷ m ∷ [])
strip_from (suc fuel) (x ∷ m ∷ h ∷ []) = some (x ∷ m ∷ h ∷ [])
strip_from (suc fuel) (x ∷ m ∷ h ∷ l ∷ rest) =
    let bytes = x ∷ m ∷ h ∷ l ∷ rest in
    let seg_len = h * 256 + l in
    let next = strip_from fuel (drop (2 + seg_len) bytes) in
    if not (eqb x 0xFF) || ends_segments m
    then some bytes
    else if ltb seg_len 2 || ltb (length bytes) (2 + seg_len)
    then some bytes
    else if is_metadata m
    then next
    else appended (take (2 + seg_len) bytes) next

-- What the loop has appended; a spent fuel, which Fuel excludes, would leave nothing.
abbrev pub written : Option (List ℕ) → List ℕ
written none = []
written (some out) = out

abbrev pub is_jpeg : List ℕ → Bool
is_jpeg b = leb 4 (length b) && same_bytes (take 2 b) (0xFF ∷ 0xD8 ∷ [])

unfoldable pub strip_jpeg_metadata : List ℕ → List ℕ
unfolding strip_from
strip_jpeg_metadata b =
    if is_jpeg b then 0xFF ∷ 0xD8 ∷ written (strip_from (length b) (drop 2 b)) else b
