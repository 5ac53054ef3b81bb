-- ===== src/Export/Columns/Order.antt =====
-- Sorting texts: what is sorted, and that sorting loses nothing.
use mathlib.Core.Bool.{false≢true}
use beacon_backend.Prelude.{
  List, [], ◌∷◌, Bool, true, false, not, ◌&&◌, ◌||◌, ◌≡◌, inl, inr, refl, ◌∙◌, arith, All,
  Bool-cases,
}
use beacon_backend.Photo.Jpeg.{same_bytes}
use beacon_backend.System.Rows.{All-imp}
use beacon_backend.Export.Text.{Text, text_before}
use beacon_backend.Export.Columns.{has_text, insert_text, sort_texts}

-- Each text stands before all that follow.
abbrev pub IsSorted : List Text → Type 0
IsSorted [] = Unit
IsSorted (t ∷ ts) = All (λ u. text_before t u ≡ true) ts × IsSorted ts

pub text_before_trans :
    (s t u : Text) → text_before s t ≡ true → text_before t u ≡ true → text_before s u ≡ true
text_before_trans [] [] u h k = k
text_before_trans [] (d ∷ t) [] h k = k
text_before_trans [] (d ∷ t) (e ∷ u) h k = refl
text_before_trans (c ∷ s) [] u h k = absurd (false≢true h)
text_before_trans (c ∷ s) (d ∷ t) [] h k = k
text_before_trans (c ∷ s) (d ∷ t) (e ∷ u) h k = ground (arith, text_before_trans s t u)

pub text_before_total :
    (s t : Text) → text_before s t ≡ false → same_bytes s t ≡ false → text_before t s ≡ true
text_before_total [] [] h k = ground (arith, k)
text_before_total [] (d ∷ t) h k = ground (arith, h)
text_before_total (c ∷ s) [] h k = refl
text_before_total (c ∷ s) (d ∷ t) h k = ground (arith, h, k, text_before_total s t)

pub text_before_irrefl : (s : Text) → text_before s s ≡ false
text_before_irrefl [] = refl
text_before_irrefl (c ∷ s) = ground (arith, text_before_irrefl s)

pub has_text-insert_text :
    (t u : Text) (ts : List Text)
    → has_text (insert_text t ts) u ≡ (same_bytes t u || has_text ts u)
unfolding insert_text
has_text-insert_text t u [] = refl
has_text-insert_text t u (v ∷ ts) = ground (arith, has_text-insert_text t u ts)

pub has_text-sort_texts : (ts : List Text) (u : Text) → has_text (sort_texts ts) u ≡ has_text ts u
unfolding sort_texts
has_text-sort_texts [] u = refl
has_text-sort_texts (t ∷ ts) u =
    has_text-insert_text t u (sort_texts ts) ∙ rw (has_text-sort_texts ts u) refl

pub All-insert_text :
    (P : Text → Type 0) (t : Text) (ts : List Text) → P t → All P ts → All P (insert_text t ts)
unfolding insert_text
All-insert_text P t [] p a = (p, tt)
All-insert_text P t (u ∷ ts) p (q, a) = elim (Bool-cases (text_before u t)) [
  | inl e ↦ rw e (q, All-insert_text P t ts p a)
  | inr e ↦ rw e (p, (q, a))
]

pub insert_text-IsSorted :
    (t : Text) (ts : List Text) → has_text ts t ≡ false → IsSorted ts → IsSorted (insert_text t ts)
unfolding insert_text
insert_text-IsSorted t [] n s = (tt, tt)
insert_text-IsSorted t (u ∷ ts) n (a, s) = elim (Bool-cases (text_before u t)) [
  | inl e ↦ rw e (
    All-insert_text (λ v. text_before u v ≡ true) t ts e a,
    insert_text-IsSorted t ts (ground (arith, n)) s,
  )
  | inr e ↦
      let h = text_before_total u t e (ground (arith, n)) in
      rw e (
        (
          h,
          All-imp (λ v. text_before u v ≡ true) (λ v. text_before t v ≡ true) ts
              (λ v q. text_before_trans t u v h q) a,
        ),
        (a, s),
      )
]

abbrev pub IsDistinct : List Text → Type 0
IsDistinct [] = Unit
IsDistinct (t ∷ ts) = (has_text ts t ≡ false) × IsDistinct ts

abbrev pub are_distinct : List Text → Bool
are_distinct [] = true
are_distinct (t ∷ ts) = not (has_text ts t) && are_distinct ts

pub are_distinct-IsDistinct : (ts : List Text) → are_distinct ts ≡ true → IsDistinct ts
are_distinct-IsDistinct [] h = tt
are_distinct-IsDistinct (t ∷ ts) h =
    (ground (arith, h), are_distinct-IsDistinct ts (ground (arith, h)))

pub sort_texts-IsSorted : (ts : List Text) → IsDistinct ts → IsSorted (sort_texts ts)
unfolding sort_texts
sort_texts-IsSorted [] d = tt
sort_texts-IsSorted (t ∷ ts) (n, d) =
    insert_text-IsSorted t (sort_texts ts) (has_text-sort_texts ts t ∙ n) (sort_texts-IsSorted ts d)

pub All-sort_texts : (P : Text → Type 0) (ts : List Text) → All P ts → All P (sort_texts ts)
unfolding sort_texts
All-sort_texts P [] a = tt
All-sort_texts P (t ∷ ts) (p, a) = All-insert_text P t (sort_texts ts) p (All-sort_texts P ts a)
