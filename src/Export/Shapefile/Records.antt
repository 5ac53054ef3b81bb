-- ===== src/Export/Shapefile/Records.antt =====
-- The records of the .shp and the .shx, read one by one.
use mathlib.Core.List.{append_assoc}
use beacon_backend.Prelude.{
  ℕ, ◌+◌, ◌-◌, ◌*◌, ◌/◌, ◌^◌, ◌<◌, List, [], ◌∷◌, ◌++◌, ◌≡◌, refl, sym, ap, ◌∙◌, arith, length,
  length-append, take, drop, drop-append_exact,
}
use beacon_backend.Export.Bytes.{
  little, big, of_little, of_big, of_big_from, of_big-big, of_little-little,
}
use beacon_backend.Export.Shapefile.{Bits, Box, shp_header, point_record, index_record}
use beacon_backend.Export.Shapefile.Reader.{Shape, shape_in, words_of, read_entries, read_shapes}

module _ {F : Type 0} (fl : Bits F) where
  abbrev pub shp_body : ℕ → List (F × F) → List ℕ
  shp_body number [] = []
  shp_body number ((x, y) ∷ points) = point_record fl number x y ++ shp_body (number + 1) points

  abbrev pub shx_body : ℕ → List (F × F) → List ℕ
  shx_body offset [] = []
  shx_body offset (p ∷ points) = index_record fl offset ++ shx_body (offset + 14) points

  -- The points as numbered shapes of the kind "Point", ten words each.
  abbrev pub numbered : ℕ → List (F × F) → List Shape
  numbered number [] = []
  numbered number ((x, y) ∷ points) =
      record { number = number; words = 10; kind = 1; x = fl.bits x; y = fl.bits y }
      ∷ numbered (number + 1) points

  length-point_record : (number : ℕ) (x y : F) → length (point_record fl number x y) ≡ 28
  unfolding point_record little big
  length-point_record number x y = refl

  shape_in-point_record :
      (number : ℕ) (x y : F) (rest : List ℕ)
      → number < 2 ^ 32
      → fl.bits x < 2 ^ 64
      → fl.bits y < 2 ^ 64
      → shape_in (point_record fl number x y ++ rest)
        ≡ record { number = number; words = 10; kind = 1; x = fl.bits x; y = fl.bits y }
  unfolding shape_in point_record little big of_little of_big_from
  shape_in-point_record number x y rest n h k =
      let a = of_big-big 4 number n in
      let b = of_little-little 8 (fl.bits x) h in
      let c = of_little-little 8 (fl.bits y) k in
      λ i. record { number = a i; words = 10; kind = 1; x = b i; y = c i }

  take-index_record :
      (offset : ℕ) (rest : List ℕ)
      → offset < 2 ^ 32
      → of_big (take 4 (index_record fl offset ++ rest)) ≡ offset
  unfolding index_record big of_big_from
  take-index_record offset rest h = of_big-big 4 offset h

  drop-index_record : (offset : ℕ) (rest : List ℕ) → drop 8 (index_record fl offset ++ rest) ≡ rest
  unfolding index_record big
  drop-index_record offset rest = refl

  module _ (fits : (f : F) → fl.bits f < 2 ^ 64) where
    read_entries-shp_body :
        (points : List (F × F)) (before : List ℕ) (number offset : ℕ)
        → length before ≡ 2 * offset
        → offset + 14 * length points < 2 ^ 32
        → number + length points < 2 ^ 32
        → read_entries (length points) (before ++ shp_body number points) (shx_body offset points)
          ≡ numbered number points
    unfolding read_entries
    read_entries-shp_body [] before number offset l h k = refl
    read_entries-shp_body ((x, y) ∷ points) before number offset l h k =
        let here = point_record fl number x y in
        let more = shp_body (number + 1) points in
        let index = shx_body (offset + 14) points in
        let at = take-index_record offset index (omega (arith, h)) in
        let found : drop (2 * offset) (before ++ (here ++ more)) ≡ here ++ more =
          ap (λ n. drop n (before ++ (here ++ more))) (sym l)
          ∙ drop-append_exact before (here ++ more) in
        let shape = shape_in-point_record number x y more (omega (arith, k)) (fits x) (fits y) in
        let next =
          read_entries-shp_body points (before ++ here) (number + 1) (offset + 14)
            (let a = length-append before here in
              let b = length-point_record number x y in omega (arith, l, a, b))
            (omega (arith, h)) (omega (arith, k)) in
        let step =
          ap (λ file. read_entries (length points) file index) (append_assoc before here more) in
        rw (at, found, shape, drop-index_record offset index, ← step)
          (ap
            (λ s.
              record { number = number; words = 10; kind = 1; x = fl.bits x; y = fl.bits y } ∷ s)
            next)

  length-shp_body :
      (number : ℕ) (points : List (F × F)) → length (shp_body number points) ≡ 28 * length points
  length-shp_body number [] = omega arith
  length-shp_body number ((x, y) ∷ points) =
      let a = length-append (point_record fl number x y) (shp_body (number + 1) points) in
      let b = length-point_record number x y in
      let c = length-shp_body (number + 1) points in omega (arith, a, b, c)

  words_of-shp_header :
      (n : ℕ) (box : Box F) (rest : List ℕ)
      → n / 2 < 2 ^ 32
      → words_of (shp_header fl n box ++ rest) ≡ n / 2
  unfolding words_of shp_header little big of_big_from
  words_of-shp_header n box rest h = of_big-big 4 (n / 2) h

  drop-shp_header :
      (n : ℕ) (box : Box F) (rest : List ℕ) → drop 100 (shp_header fl n box ++ rest) ≡ rest
  unfolding shp_header little big
  drop-shp_header n box rest = refl

  length-shp_header : (n : ℕ) (box : Box F) → length (shp_header fl n box) ≡ 100
  unfolding shp_header little big
  length-shp_header n box = refl

  module _ (fits : (f : F) → fl.bits f < 2 ^ 64) (n : ℕ) (box : Box F) (points : List (F × F)) where
    pub read_shapes-members :
        n ≡ length points
        → 50 + 14 * length points < 2 ^ 32
        → read_shapes
            (shp_header fl (100 + n * 28) box ++ shp_body 1 points)
            (shp_header fl (100 + n * 8) box ++ shx_body 50 points)
          ≡ numbered 1 points
    unfolding read_shapes
    read_shapes-members e small =
        let shx = shx_body 50 points in
        let stated = words_of-shp_header (100 + n * 8) box shx (omega (arith, e, small)) in
        let entries : (2 * ((100 + n * 8) / 2) - 100) / 8 ≡ length points = omega (arith, e) in
        rw (stated, entries, drop-shp_header (100 + n * 8) box shx)
          (read_entries-shp_body fits points (shp_header fl (100 + n * 28) box) 1 50
            (length-shp_header (100 + n * 28) box) small (omega (arith, small)))

    pub stated_length :
        n ≡ length points
        → 50 + 14 * length points < 2 ^ 32
        → 2 * words_of (shp_header fl (100 + n * 28) box ++ shp_body 1 points)
          ≡ length (shp_header fl (100 + n * 28) box ++ shp_body 1 points)
    stated_length e small =
        let a =
          words_of-shp_header (100 + n * 28) box (shp_body 1 points) (omega (arith, e, small)) in
        let b = length-append (shp_header fl (100 + n * 28) box) (shp_body 1 points) in
        let c = length-shp_header (100 + n * 28) box in
        let d = length-shp_body 1 points in omega (arith, a, b, c, d, e)
