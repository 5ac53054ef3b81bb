-- ===== src/Export/Bytes.antt =====
-- Package encoding/binary: numbers as bytes in the two orders, and how they are read.
use beacon_backend.Prelude.{
  ℕ, zero, suc, ◌+◌, ◌*◌, ◌/◌, ◌%◌, ◌<◌, List, [], ◌∷◌, ◌++◌, ◌≡◌, refl, arith, length,
  length-append,
}

-- The k low bytes of n, the least first.
unfoldable pub little : ℕ → ℕ → List ℕ
little zero n = []
little (suc k) n = (n % 256) ∷ little k (n / 256)

-- The k low bytes of n, the greatest first.
unfoldable pub big : ℕ → ℕ → List ℕ
big zero n = []
big (suc k) n = big k (n / 256) ++ (n % 256) ∷ []

unfoldable pub of_little : List ℕ → ℕ
of_little [] = 0
of_little (b ∷ bs) = b + 256 * of_little bs

unfoldable pub of_big_from : ℕ → List ℕ → ℕ
of_big_from n [] = n
of_big_from n (b ∷ bs) = of_big_from (n * 256 + b) bs

abbrev pub of_big : List ℕ → ℕ
of_big bs = of_big_from 0 bs

-- 256 to the power k.
abbrev pub values : ℕ → ℕ
values zero = 1
values (suc k) = 256 * values k

pub length-little : (k n : ℕ) → length (little k n) ≡ k
unfolding little
length-little zero n = refl
length-little (suc k) n = rw (length-little k (n / 256)) refl

pub length-big : (k n : ℕ) → length (big k n) ≡ k
unfolding big
length-big zero n = refl
length-big (suc k) n =
    let e = length-big k (n / 256) in
    let l = length-append (big k (n / 256)) ((n % 256) ∷ []) in omega (arith, e, l)

pub of_little-little : (k n : ℕ) → n < values k → of_little (little k n) ≡ n
unfolding little of_little
of_little-little zero n h = omega arith
of_little-little (suc k) n h =
    let ih = of_little-little k (n / 256) (omega (arith, h)) in omega (arith, ih)

of_big_from-append :
    (n : ℕ) (xs ys : List ℕ) → of_big_from n (xs ++ ys) ≡ of_big_from (of_big_from n xs) ys
unfolding of_big_from
of_big_from-append n [] ys = refl
of_big_from-append n (b ∷ xs) ys = of_big_from-append (n * 256 + b) xs ys

pub of_big-big : (k n : ℕ) → n < values k → of_big (big k n) ≡ n
unfolding big of_big_from
of_big-big zero n h = omega arith
of_big-big (suc k) n h =
    let ih = of_big-big k (n / 256) (omega (arith, h)) in
    let e = of_big_from-append 0 (big k (n / 256)) ((n % 256) ∷ []) in omega (arith, ih, e)
