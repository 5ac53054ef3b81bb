-- ===== src/Export/Columns/Unique.antt =====
-- A sorted list is known by the texts that it has.
use mathlib.Core.Bool.{false≢true}
use beacon_backend.Prelude.{
  List, [], ◌∷◌, Bool, true, false, ◌||◌, ◌≡◌, inl, inr, refl, sym, ap, ◌∙◌, arith, any, All,
  Bool-cases,
}
use beacon_backend.Photo.Jpeg.{same_bytes}
use beacon_backend.Photo.Jpeg.Laws.{same_bytes_iff}
use beacon_backend.Export.Text.{Text, text_before}
use beacon_backend.Export.Columns.{has_text}
use beacon_backend.Export.Columns.Order.{IsSorted, text_before_trans, text_before_irrefl}

pub or_assoc : (a b c : Bool) → ((a || b) || c) ≡ (a || (b || c))
or_assoc true b c = refl
or_assoc false b c = refl

pub or_false : (a : Bool) → a ≡ (a || false)
or_false true = refl
or_false false = refl

pub or_again : (a b : Bool) → (a || b) ≡ ((a || b) || a)
or_again true b = refl
or_again false b = or_false b

-- The same texts, however often and in whatever order.
abbrev pub SameTexts : List Text → List Text → Type 0
SameTexts xs ys = (u : Text) → has_text xs u ≡ has_text ys u

pub same_bytes_refl : (t : Text) → same_bytes t t ≡ true
same_bytes_refl t = (same_bytes_iff t t).1 refl

pub before-has_text :
    (t u : Text) (ts : List Text)
    → All (λ v. text_before t v ≡ true) ts
    → has_text ts u ≡ true
    → text_before t u ≡ true
before-has_text t u [] a h = absurd (false≢true h)
before-has_text t u (v ∷ ts) (b, a) h = elim (Bool-cases (same_bytes v u)) [
  | inl q ↦ rw (← (same_bytes_iff v u).0 q) b
  | inr q ↦ before-has_text t u ts a (ground (arith, h, q))
]

pub not-has_text :
    (t : Text) (ts : List Text) → All (λ v. text_before t v ≡ true) ts → has_text ts t ≡ false
not-has_text t ts a = elim (Bool-cases (has_text ts t)) [
  | inr n ↦ n
  | inl y ↦ absurd (false≢true (sym (text_before_irrefl t) ∙ before-has_text t t ts a y))
]

pub first-same :
    (x y : Text) (xs ys : List Text)
    → IsSorted (x ∷ xs)
    → IsSorted (y ∷ ys)
    → SameTexts (x ∷ xs) (y ∷ ys)
    → x ≡ y
first-same x y xs ys (a, s) (b, t) h = elim (Bool-cases (same_bytes x y)) [
  | inl q ↦ (same_bytes_iff x y).0 q
  | inr q ↦
      let p : same_bytes y x ≡ false = ground (arith, q, same_bytes_iff x y, same_bytes_iff y x) in
      let y_in : has_text xs y ≡ true = ground (arith, h y, q, same_bytes_refl y) in
      let x_in : has_text ys x ≡ true = ground (arith, h x, p, same_bytes_refl x) in
      let loop =
        text_before_trans x y x (before-has_text x y xs a y_in) (before-has_text y x ys b x_in) in
      absurd (false≢true (sym (text_before_irrefl x) ∙ loop))
]

pub rest-same :
    (x : Text) (xs ys : List Text)
    → IsSorted (x ∷ xs)
    → IsSorted (x ∷ ys)
    → SameTexts (x ∷ xs) (x ∷ ys)
    → SameTexts xs ys
rest-same x xs ys (a, s) (b, t) h u = elim (Bool-cases (same_bytes x u)) [
  | inl q ↦
      let e = (same_bytes_iff x u).0 q in rw (← e) (not-has_text x xs a ∙ sym (not-has_text x ys b))
  | inr q ↦ ground (arith, h u, q)
]

-- A sorted list is determined by its texts.
pub sorted_unique : (xs ys : List Text) → IsSorted xs → IsSorted ys → SameTexts xs ys → xs ≡ ys
sorted_unique [] [] s t h = refl
sorted_unique [] (y ∷ ys) s t h = ground (arith, h y, same_bytes_refl y)
sorted_unique (x ∷ xs) [] s t h = ground (arith, h x, same_bytes_refl x)
sorted_unique (x ∷ xs) (y ∷ ys) s t h =
    let e = first-same x y xs ys s t h in
    let t' = rw (← e) at t in
    let h' = rw (← e) at h in
    rw (← e) (ap (λ l. x ∷ l) (sorted_unique xs ys s.1 t'.1 (rest-same x xs ys s t' h')))

pub any-member :
    (p : Text → Bool) (t : Text) (ts : List Text)
    → has_text ts t ≡ true
    → p t ≡ true
    → any p ts ≡ true
any-member p t [] h k = absurd (false≢true h)
any-member p t (u ∷ ts) h k = elim (Bool-cases (same_bytes u t)) [
  | inl q ↦ let e : p u ≡ true = ap p ((same_bytes_iff u t).0 q) ∙ k in rw e refl
  | inr q ↦ ground (arith, any-member p t ts (ground (arith, h, q)) k)
]

pub any-true :
    (p : Text → Bool) (ts : List Text)
    → any p ts ≡ true
    → (t : Text) × (has_text ts t ≡ true) × (p t ≡ true)
any-true p [] h = absurd (false≢true h)
any-true p (u ∷ ts) h = elim (Bool-cases (p u)) [
  | inl k ↦ (u, rw (same_bytes_refl u) refl, k)
  | inr n ↦
      let (t, there, k) = any-true p ts (ground (arith, h, n)) in (t, ground (arith, there), k)
]

pub any-SameTexts : (p : Text → Bool) (xs ys : List Text) → SameTexts xs ys → any p xs ≡ any p ys
any-SameTexts p xs ys same = elim (Bool-cases (any p xs)) [
  | inl h ↦
      let (t, there, k) = any-true p xs h in h ∙ sym (any-member p t ys (sym (same t) ∙ there) k)
  | inr h ↦ elim (Bool-cases (any p ys)) [
    | inr n ↦ h ∙ sym n
    | inl y ↦
        let (t, there, k) = any-true p ys y in
        absurd (false≢true (sym h ∙ any-member p t xs (same t ∙ there) k))
  ]
]
