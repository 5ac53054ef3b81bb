-- ===== src/Std/Collation.antt =====
-- The order of texts by their characters' numbers (the "C" collation), a concrete order of text
-- columns.
use Prim.Native.Char.{code}
use Prim.Native.String.{String, [], ◌∷◌}
use text.Mathlib.TextEquality.{Char-path}
use mathlib.Core.Bool.{false≢true}
use beacon_backend.Prelude.{
  ℕ, Bool, true, false, ◌&&◌, ◌||◌, ◌≡◌, ◌⊎◌, inl, inr, refl, ltb, eqb, arith,
}

unfoldable pub text_less : String → String → Bool
text_less [] [] = false
text_less [] (d ∷ t) = true
text_less (c ∷ s) [] = false
text_less (c ∷ s) (d ∷ t) =
    let rest = text_less s t in ltb (code c) (code d) || (eqb (code c) (code d) && rest)

pub text_less_irrefl : (s : String) → text_less s s ≡ false
unfolding text_less
text_less_irrefl [] = refl
text_less_irrefl (c ∷ s) = ground (arith, text_less_irrefl s)

pub text_less_trans :
    (s t u : String) → text_less s t ≡ true → text_less t u ≡ true → text_less s u ≡ true
unfolding text_less
text_less_trans [] [] u h k = k
text_less_trans [] (d ∷ t) [] h k = k
text_less_trans [] (d ∷ t) (e ∷ u) h k = refl
text_less_trans (c ∷ s) [] u h k = absurd (false≢true h)
text_less_trans (c ∷ s) (d ∷ t) [] h k = k
text_less_trans (c ∷ s) (d ∷ t) (e ∷ u) h k = ground (arith, text_less_trans s t u)

apart : (m n : ℕ) → (ltb m n ≡ true) ⊎ (ltb n m ≡ true) ⊎ (m ≡ n)
apart m n = ground arith

pub text_less_total : (s t : String) → (text_less s t ≡ true) ⊎ (text_less t s ≡ true) ⊎ (s ≡ t)
unfolding text_less
text_less_total [] [] = inr (inr refl)
text_less_total [] (d ∷ t) = inl refl
text_less_total (c ∷ s) [] = inr (inl refl)
text_less_total (c ∷ s) (d ∷ t) = elim (apart (code c) (code d)) [
  | inl l ↦ inl (rw l refl)
  | inr (inl g) ↦ inr (inl (rw g refl))
  | inr (inr e) ↦ elim (text_less_total s t) [
    | inl l ↦ inl (ground (arith, e, l))
    | inr (inl g) ↦ inr (inl (ground (arith, e, g)))
    | inr (inr q) ↦ inr (inr (λ i. Char-path c d e i ∷ q i))
  ]
]
