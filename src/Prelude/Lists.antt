-- ===== src/Prelude/Lists.antt =====
-- Lists measured by native numbers, and searches through lists by a Boolean test.
use Prim.Native.Nat.{ℕ, zero, suc, ◌+◌, ◌-◌, ◌≤◌, min}
use mathlib.Core.Path.{◌≡◌, refl, ap}
use mathlib.Core.Bool.{Bool, true, false, ◌&&◌, ◌||◌}
use mathlib.Core.Option.{Option, none, some}
use mathlib.Core.List.{List, [], ◌∷◌, ◌++◌, map}
use native.Mathlib.Omega.{arith}
use beacon_backend.Prelude.Tests.{if◌then◌else◌}

module _ {ℓ} {A : Type ℓ} where
  abbrev pub length : List A → ℕ
  length [] = 0
  length (x ∷ xs) = suc (length xs)

  abbrev pub take : ℕ → List A → List A
  take zero xs = []
  take (suc n) [] = []
  take (suc n) (x ∷ xs) = x ∷ take n xs

  abbrev pub drop : ℕ → List A → List A
  drop zero xs = xs
  drop (suc n) [] = []
  drop (suc n) (x ∷ xs) = drop n xs

  abbrev pub all : (A → Bool) → List A → Bool
  all p [] = true
  all p (x ∷ xs) = p x && all p xs

  abbrev pub any : (A → Bool) → List A → Bool
  any p [] = false
  any p (x ∷ xs) = p x || any p xs

  -- The rows of a table that satisfy a WHERE clause, in their order.
  abbrev pub select : (A → Bool) → List A → List A
  select p [] = []
  select p (x ∷ xs) = let rest = select p xs in if p x then x ∷ rest else rest

  abbrev pub find_first : (A → Bool) → List A → Option A
  find_first p [] = none
  find_first p (x ∷ xs) = let rest = find_first p xs in if p x then some x else rest

  abbrev pub All {κ} : (A → Type κ) → List A → Type κ
  All P [] = Unit
  All P (x ∷ xs) = P x × All P xs

  pub length-append : (xs ys : List A) → length (xs ++ ys) ≡ length xs + length ys
  length-append [] ys = omega arith
  length-append (x ∷ xs) ys = omega (arith, length-append xs ys)

  pub length-select_le : (p : A → Bool) (xs : List A) → length (select p xs) ≤ length xs
  length-select_le p [] = omega arith
  length-select_le p (x ∷ xs) = ground (arith, length-select_le p xs)

  pub length-take : (n : ℕ) (xs : List A) → length (take n xs) ≡ min n (length xs)
  length-take zero xs = omega arith
  length-take (suc n) [] = omega arith
  length-take (suc n) (x ∷ xs) = omega (arith, length-take n xs)

  pub take-drop : (n : ℕ) (xs : List A) → take n xs ++ drop n xs ≡ xs
  take-drop zero xs = refl
  take-drop (suc n) [] = refl
  take-drop (suc n) (x ∷ xs) = ap (λ t. x ∷ t) (take-drop n xs)

  pub length-drop : (n : ℕ) (xs : List A) → length (drop n xs) ≡ length xs - n
  length-drop zero xs = omega arith
  length-drop (suc n) [] = omega arith
  length-drop (suc n) (x ∷ xs) = omega (arith, length-drop n xs)

  pub take-append_exact : (xs ys : List A) → take (length xs) (xs ++ ys) ≡ xs
  take-append_exact [] ys = refl
  take-append_exact (x ∷ xs) ys = ap (λ t. x ∷ t) (take-append_exact xs ys)

  pub drop-append_exact : (xs ys : List A) → drop (length xs) (xs ++ ys) ≡ ys
  drop-append_exact [] ys = refl
  drop-append_exact (x ∷ xs) ys = drop-append_exact xs ys

  pub find_first-append_none :
      (p : A → Bool) (xs : List A) (y : A)
      → find_first p xs ≡ none
      → find_first p (xs ++ y ∷ []) ≡ (if p y then some y else none)
  find_first-append_none p [] y h = refl
  find_first-append_none p (x ∷ xs) y h = ground (arith, find_first-append_none p xs y)

  pub find_first-append_some :
      (p : A → Bool) (xs ys : List A) (r : A)
      → find_first p xs ≡ some r
      → find_first p (xs ++ ys) ≡ some r
  find_first-append_some p [] ys r h = ground arith
  find_first-append_some p (x ∷ xs) ys r h = ground (arith, find_first-append_some p xs ys r)

  pub find_first-holds :
      (p : A → Bool) (xs : List A) (r : A) → find_first p xs ≡ some r → p r ≡ true
  find_first-holds p [] r h = ground arith
  find_first-holds p (x ∷ xs) r h = ground (arith, find_first-holds p xs r)

  pub any-of-find_first :
      (p : A → Bool) (xs : List A) (r : A) → find_first p xs ≡ some r → any p xs ≡ true
  any-of-find_first p [] r h = ground arith
  any-of-find_first p (x ∷ xs) r h = ground (arith, any-of-find_first p xs r)

  pub find_first-of-any-none :
      (p : A → Bool) (xs : List A) → find_first p xs ≡ none → any p xs ≡ false
  find_first-of-any-none p [] h = refl
  find_first-of-any-none p (x ∷ xs) h = ground (arith, find_first-of-any-none p xs)

  pub any-append : (p : A → Bool) (xs ys : List A) → any p (xs ++ ys) ≡ (any p xs || any p ys)
  any-append p [] ys = refl
  any-append p (x ∷ xs) ys = ground (arith, any-append p xs ys)

  pub select-append :
      (p : A → Bool) (xs : List A) (y : A)
      → select p (xs ++ y ∷ []) ≡ (if p y then select p xs ++ y ∷ [] else select p xs)
  select-append p [] y = ground arith
  select-append p (x ∷ xs) y = ground (arith, select-append p xs y)

pub length-map {ℓ κ} :
    {A : Type ℓ} {B : Type κ} (f : A → B) (xs : List A) → length (map f xs) ≡ length xs
length-map f [] = refl
length-map f (x ∷ xs) = ap suc (length-map f xs)
