-- ===== src/Photo/Jpeg/Fuel.antt =====
-- stripJPEGMetadata ends: one round more than there are bytes is enough, whatever the bytes are.
use beacon_backend.Prelude.{
  ℕ, zero, suc, ◌+◌, ◌*◌, ◌≤◌, ◌<◌, Option, none, some, List, [], ◌∷◌, not, ◌||◌, ◌≡◌, refl, ◌∙◌,
  arith, eqb, ltb, if_both, length, length-append, length-take, length-drop, take, drop,
}
use beacon_backend.Photo.Jpeg.{appended, ends_segments, is_metadata, strip_from}

-- What a loop that has ended leaves: an output no longer than the `n` bytes of its input.
abbrev Ended : ℕ → Option (List ℕ) → Type 0
Ended n none = ⊥
Ended n (some out) = length out ≤ n

Ended-more : (m n : ℕ) (o : Option (List ℕ)) → m ≤ n → Ended m o → Ended n o
Ended-more m n none h e = e
Ended-more m n (some out) h e = omega arith

Ended-appended :
    (m n : ℕ) (seg : List ℕ) (o : Option (List ℕ))
    → length seg + m ≤ n
    → Ended m o
    → Ended n (appended seg o)
Ended-appended m n seg none h e = e
Ended-appended m n seg (some out) h e = omega (arith, length-append seg out)

strip_from-Ended :
    (f : ℕ) (bytes : List ℕ) → length bytes < f → Ended (length bytes) (strip_from f bytes)
unfolding strip_from
strip_from-Ended zero bytes a = absurd (omega arith)
strip_from-Ended (suc f) [] a = omega arith
strip_from-Ended (suc f) (x ∷ []) a = omega arith
strip_from-Ended (suc f) (x ∷ m ∷ []) a = omega arith
strip_from-Ended (suc f) (x ∷ m ∷ h ∷ []) a = omega arith
strip_from-Ended (suc f) (x ∷ m ∷ h ∷ l ∷ rest) a =
    let bytes = x ∷ m ∷ h ∷ l ∷ rest in
    let size = 2 + (h * 256 + l) in
    let P = Ended (length bytes) in
    let n = length-drop size bytes in
    let t = length-take size bytes in
    let next = strip_from f (drop size bytes) in
    let ih = strip_from-Ended f (drop size bytes) (omega (arith, n, a)) in
    if_both P (not (eqb x 0xFF) || ends_segments m) (λ e. omega arith)
      (λ e.
        if_both P (ltb (h * 256 + l) 2 || ltb (length bytes) size) (λ e. omega arith)
          (λ e.
            if_both P (is_metadata m)
              (λ e. Ended-more (length (drop size bytes)) (length bytes) next (omega (arith, n)) ih)
              (λ e.
                Ended-appended (length (drop size bytes)) (length bytes) (take size bytes) next
                  (ground (arith, n, t, e)) ih)))

strip_from-enough :
    (f g : ℕ) (bytes : List ℕ)
    → length bytes < f
    → length bytes < g
    → strip_from f bytes ≡ strip_from g bytes
unfolding strip_from
strip_from-enough zero g bytes a b = absurd (omega (arith, a))
strip_from-enough (suc f) zero bytes a b = absurd (omega (arith, b))
strip_from-enough (suc f) (suc g) [] a b = refl
strip_from-enough (suc f) (suc g) (x ∷ []) a b = refl
strip_from-enough (suc f) (suc g) (x ∷ m ∷ []) a b = refl
strip_from-enough (suc f) (suc g) (x ∷ m ∷ h ∷ []) a b = refl
strip_from-enough (suc f) (suc g) (x ∷ m ∷ h ∷ l ∷ rest) a b =
    let bytes = x ∷ m ∷ h ∷ l ∷ rest in
    let size = 2 + (h * 256 + l) in
    let n = length-drop size bytes in
    rw (strip_from-enough f g (drop size bytes) (omega (arith, n, a)) (omega (arith, n, b))) refl

ended :
    (n : ℕ) (o : Option (List ℕ)) → Ended n o → (out : List ℕ) × (o ≡ some out) × (length out ≤ n)
ended n none e = absurd e
ended n (some out) e = (out, refl, e)

-- Whatever the bytes are, the loop ends: where the fuel is more than their number it is not spent,
-- the output is the same whatever that fuel is, and it is no longer than the input.
pub strip_from_terminates :
    (fuel : ℕ) (bytes : List ℕ)
    → length bytes < fuel
    → (out : List ℕ) × (strip_from fuel bytes ≡ some out)
      × (strip_from (suc (length bytes)) bytes ≡ some out)
      × (length out ≤ length bytes)
strip_from_terminates fuel bytes h =
    let same = strip_from-enough (suc (length bytes)) fuel bytes (omega arith) h in
    let (out, e, l) = ended (length bytes) _ (strip_from-Ended fuel bytes h) in
    (out, e, same ∙ e, l)
