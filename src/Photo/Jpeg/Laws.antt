-- ===== src/Photo/Jpeg/Laws.antt =====
-- The metadata filter against the layout of a JPEG file.
use beacon_backend.Prelude.{
  ℕ, ◌≢◌, ◌⊎◌, ◌↔◌, eqb, ◌||◌, zero, suc, ◌+◌, ◌*◌, ◌/◌, ◌%◌, ◌≤◌, ◌<◌, List, [], ◌∷◌, ◌++◌, Bool,
  true, false, not, ◌≡◌, refl, ◌∙◌, sym, ap, some, arith, select, All, length, length-append,
  take-append_exact, drop-append_exact, if◌then◌else◌,
}
use mathlib.Core.List.{append_assoc}
use beacon_backend.Photo.Jpeg.{appended, same_bytes, ends_segments, strip_from, strip_jpeg_metadata}

-- A marker segment with its payload.
pub record Segment : Type 0 where
  pub marker : ℕ
  pub payload : List ℕ

abbrev pub size : Segment → ℕ
size s = length s.payload + 2

-- 0xFF, the marker, the big-endian length of what follows the marker, the payload.
abbrev pub encode : Segment → List ℕ
encode s = 0xFF ∷ s.marker ∷ size s / 256 ∷ size s % 256 ∷ s.payload

abbrev pub encode_all : List Segment → List ℕ
encode_all [] = []
encode_all (s ∷ ss) = encode s ++ encode_all ss

-- A segment of a header: not SOS or EOI, and two bytes hold its length.
abbrev pub IsSegment : Segment → Type 0
IsSegment s = (s.marker ≢ 0xDA) × (s.marker ≢ 0xD9) × (size s < 65536)

-- The scan or the end of the image: SOS or EOI with whatever follows.
abbrev pub IsScan : List ℕ → Type 0
IsScan [] = ⊥
IsScan (x ∷ []) = ⊥
IsScan (x ∷ m ∷ rest) = (x ≡ 0xFF) × ((m ≡ 0xDA) ⊎ (m ≡ 0xD9))

-- Neither APP1 (EXIF, XMP) nor COM.
abbrev pub is_kept : Segment → Bool
is_kept s = not (eqb s.marker 0xE1 || eqb s.marker 0xFE)

strip_from-scan : (fuel : ℕ) (tail : List ℕ) → IsScan tail → strip_from (suc fuel) tail ≡ some tail
unfolding strip_from
strip_from-scan fuel [] e = absurd e
strip_from-scan fuel (x ∷ []) e = absurd e
strip_from-scan fuel (x ∷ m ∷ []) e = refl
strip_from-scan fuel (x ∷ m ∷ h ∷ []) e = refl
strip_from-scan fuel (x ∷ m ∷ h ∷ l ∷ rest) e = ground (arith, e.1)

strip_from-segment :
    (fuel : ℕ) (s : Segment) (rest : List ℕ)
    → IsSegment s
    → strip_from (suc fuel) (encode s ++ rest)
      ≡ (if is_kept s then appended (encode s) (strip_from fuel rest) else strip_from fuel rest)
unfolding strip_from
strip_from-segment fuel s rest (a, b, n) =
    let m : ends_segments s.marker ≡ false = ground (arith, a, b) in
    let e : 2 + (size s / 256 * 256 + size s % 256) ≡ suc (suc (suc (suc (length s.payload)))) =
      omega arith in
    rw (m, e, drop-append_exact s.payload rest, take-append_exact s.payload rest)
      (ground (arith, length-append s.payload rest))

strip_from-segments :
    (ss : List Segment) (fuel : ℕ) (tail : List ℕ)
    → All IsSegment ss
    → IsScan tail
    → length ss < fuel
    → strip_from fuel (encode_all ss ++ tail) ≡ some (encode_all (select is_kept ss) ++ tail)
strip_from-segments [] zero tail a t f = absurd (omega arith)
strip_from-segments [] (suc fuel) tail a t f = strip_from-scan fuel tail t
strip_from-segments (s ∷ ss) zero tail a t f = absurd (omega arith)
strip_from-segments (s ∷ ss) (suc fuel) tail (a, b) t f =
    let ih = strip_from-segments ss fuel tail b t (omega arith) in
    let step = strip_from-segment fuel s (encode_all ss ++ tail) a in
    rw (append_assoc (encode s) (encode_all ss) tail) (step ∙ rw ih (kept (is_kept s) refl))
  where
    kept :
        (k : Bool)
        → is_kept s ≡ k
        → (if k
            then some (encode s ++ (encode_all (select is_kept ss) ++ tail))
            else some (encode_all (select is_kept ss) ++ tail))
          ≡ some (encode_all (if k then s ∷ select is_kept ss else select is_kept ss) ++ tail)
    kept true h = ap some (sym (append_assoc (encode s) (encode_all (select is_kept ss)) tail))
    kept false h = refl

length-segments : (ss : List Segment) → length ss ≤ length (encode_all ss)
length-segments [] = omega arith
length-segments (s ∷ ss) =
    omega (arith, length-segments ss, length-append s.payload (encode_all ss))

-- Of a JPEG file made of segments and a scan, exactly the EXIF, XMP and comment segments are
-- removed; every other segment and the scan stay, in their order and unchanged.
pub strip_jpeg_metadata_lem :
    (ss : List Segment) (tail : List ℕ)
    → All IsSegment ss
    → IsScan tail
    → strip_jpeg_metadata (0xFF ∷ 0xD8 ∷ encode_all ss ++ tail)
      ≡ 0xFF ∷ 0xD8 ∷ encode_all (select is_kept ss) ++ tail
unfolding strip_jpeg_metadata
strip_jpeg_metadata_lem ss tail a t =
    let n = length-append (encode_all ss) tail in
    let body =
      strip_from-segments ss (2 + length (encode_all ss ++ tail)) tail a t
        (omega (arith, length-segments ss, n)) in
    ground (arith, body, n, nonempty tail t)
  where
    nonempty : (tail : List ℕ) → IsScan tail → 2 ≤ length tail
    nonempty [] t = absurd t
    nonempty (x ∷ []) t = absurd t
    nonempty (x ∷ y ∷ rest) t = omega arith

pub same_bytes_iff : (xs ys : List ℕ) → (same_bytes xs ys ≡ true) ↔ (xs ≡ ys)
same_bytes_iff [] [] = ground arith
same_bytes_iff [] (y ∷ ys) = ground arith
same_bytes_iff (x ∷ xs) [] = ground arith
same_bytes_iff (x ∷ xs) (y ∷ ys) = ground (arith, same_bytes_iff xs ys)
