-- ===== src/System/Rows.antt =====
-- Lists of rows: keys that do not repeat, and properties of every row.
use beacon_backend.Prelude.{
  String, some, List, [], ◌∷◌, ◌++◌, Bool, true, false, ◌==◌, ◌≡◌, ◌⊎◌, inl, inr, refl, arith, All,
  any, select, find_first, map, eq_iff, eq-of-str, Bool-cases,
}

abbrev pub NoRepeat : List String → Type 0
NoRepeat [] = Unit
NoRepeat (x ∷ xs) = (any (λ y. y == x) xs ≡ false) × NoRepeat xs

module _ {A : Type 0} where
  pub map-same :
      {B : Type 0} (f : A → A) (g : A → B) (xs : List A)
      → ((x : A) → g (f x) ≡ g x)
      → map g (map f xs) ≡ map g xs
  map-same f g [] h = refl
  map-same f g (x ∷ xs) h = λ i. h x i ∷ map-same f g xs h i

  pub All-map :
      (P Q : A → Type 0) (f : A → A) (xs : List A)
      → ((x : A) → P x → Q (f x))
      → All P xs
      → All Q (map f xs)
  All-map P Q f [] h a = tt
  All-map P Q f (x ∷ xs) h (a, b) = (h x a, All-map P Q f xs h b)

  pub All-imp : (P Q : A → Type 0) (xs : List A) → ((x : A) → P x → Q x) → All P xs → All Q xs
  All-imp P Q [] h a = tt
  All-imp P Q (x ∷ xs) h (a, b) = (h x a, All-imp P Q xs h b)

  pub All-both : (P Q : A → Type 0) (xs : List A) → All P xs → All Q xs → All (λ x. P x × Q x) xs
  All-both P Q [] a b = tt
  All-both P Q (x ∷ xs) (a, rest) (b, bs) = ((a, b), All-both P Q xs rest bs)

  pub All-append : (P : A → Type 0) (xs : List A) (y : A) → All P xs → P y → All P (xs ++ y ∷ [])
  All-append P [] y a p = (p, tt)
  All-append P (x ∷ xs) y (a, rest) p = (a, All-append P xs y rest p)

  -- A property of every row, from the rows that a change of two columns leaves alike.
  pub All-alike :
      (P : A → Type 0) (f : A → A) (xs ys : List A)
      → ((x : A) → P x → P (f x))
      → ((x : A) → P (f x) → P x)
      → map f ys ≡ map f xs
      → All P xs
      → All P ys
  All-alike P f xs ys there back e a = unmap ys (rewrite_all (All-map P P f xs there a))
    where
      unmap : (zs : List A) → All P (map f zs) → All P zs
      unmap [] h = tt
      unmap (z ∷ zs) (h, t) = (back z h, unmap zs t)

      rewrite_all : All P (map f xs) → All P (map f ys)
      rewrite_all h = rw e h

  pub All-select :
      (P : A → Type 0) (p : A → Bool) (xs : List A)
      → All P xs
      → All (λ x. (p x ≡ true) × P x) (select p xs)
  All-select P p [] a = tt
  All-select P p (x ∷ xs) (a, rest) = elim (Bool-cases (p x)) [
    | inl e ↦ rw e ((e, a), All-select P p xs rest)
    | inr e ↦ rw e (All-select P p xs rest)
  ]

  any-select-false :
      (f : A → String) (k : String) (p : A → Bool) (xs : List A)
      → any (λ y. y == k) (map f xs) ≡ false
      → any (λ y. y == k) (map f (select p xs)) ≡ false
  any-select-false f k p [] h = refl
  any-select-false f k p (x ∷ xs) h = ground (arith, any-select-false f k p xs)

  pub NoRepeat-select :
      (f : A → String) (p : A → Bool) (xs : List A)
      → NoRepeat (map f xs)
      → NoRepeat (map f (select p xs))
  NoRepeat-select f p [] h = tt
  NoRepeat-select f p (x ∷ xs) (h, t) = elim (Bool-cases (p x)) [
    | inl e ↦ rw e (any-select-false f (f x) p xs h, NoRepeat-select f p xs t)
    | inr e ↦ rw e (NoRepeat-select f p xs t)
  ]

  any-append_key :
      (f : A → String) (k : String) (xs : List A) (y : A)
      → any (λ z. z == k) (map f xs) ≡ false
      → (f y == k) ≡ false
      → any (λ z. z == k) (map f (xs ++ y ∷ [])) ≡ false
  any-append_key f k [] y h e = ground arith
  any-append_key f k (x ∷ xs) y h e = ground (arith, any-append_key f k xs y)

  -- A row under a new key.
  pub NoRepeat-append :
      (f : A → String) (xs : List A) (y : A)
      → any (λ x. f x == f y) xs ≡ false
      → NoRepeat (map f xs)
      → NoRepeat (map f (xs ++ y ∷ []))
  NoRepeat-append f [] y e h = (refl, tt)
  NoRepeat-append f (x ∷ xs) y e (h, t) = (
    any-append_key f (f x) xs y h (ground (arith, eq_iff (f x) (f y), eq_iff (f y) (f x))),
    NoRepeat-append f xs y (ground arith) t,
  )

  pub none_has :
      (f : A → String) (k : String) (xs : List A)
      → any (λ y. y == k) (map f xs) ≡ false
      → All (λ x. (f x == k) ≡ false) xs
  none_has f k [] h = tt
  none_has f k (x ∷ xs) h = (ground arith, none_has f k xs (ground arith))

  -- Under keys that do not repeat, the row of a key is the one that a search finds.
  pub found_alone :
      (f : A → String) (k : String) (xs : List A) (r : A)
      → NoRepeat (map f xs)
      → find_first (λ x. f x == k) xs ≡ some r
      → All (λ x. ((f x == k) ≡ false) ⊎ (x ≡ r)) xs
  found_alone f k [] r n h = tt
  found_alone f k (x ∷ xs) r (n, t) h = elim (Bool-cases (f x == k)) [
    | inl e ↦ (
      inr (ground arith),
      All-imp (λ x. (f x == k) ≡ false) (λ y. ((f y == k) ≡ false) ⊎ (y ≡ r)) xs (λ y q. inl q)
          (none_has f k xs (rw (eq-of-str (f x) k e) at n)),
    )
    | inr e ↦ (inl e, found_alone f k xs r t (ground arith))
  ]
