-- ===== src/Examples/Texts.antt =====
-- A concrete encoding of texts and bytes that loses nothing.
use Prim.Native.Char.{Char, char, code, nul}
use Prim.Native.Nat.{compare, Ordering}
use Prim.Native.String.{String}
use beacon_backend.Prelude.{
  ℕ, zero, suc, ◌+◌, Option, none, some, List, [], ◌∷◌, ◌≡◌, refl, ◌∙◌, arith, eqb, if◌then◌else◌,
}
use beacon_backend.Std.Text.{codes}
use beacon_backend.Photo.Crypto.{Aead}
use beacon_backend.Auth.Secrets.{Codec, IsFaithful}

abbrev IsBelow : Ordering → Type 0
IsBelow Ordering.lt = Unit
IsBelow Ordering.eq = ⊥
IsBelow Ordering.gt = ⊥

abbrev Both : Ordering → Ordering → Type 0
Both Ordering.lt o = IsBelow o
Both Ordering.eq o = ⊥
Both Ordering.gt o = ⊥

-- A code point outside the surrogates, by its three comparisons.
abbrev Scalar : Ordering → Ordering → Ordering → Type 0
Scalar Ordering.lt p q = Unit
Scalar Ordering.eq p q = Both p q
Scalar Ordering.gt p q = Both p q

abbrev picked : (o p q : Ordering) → (Scalar o p q → Char) → Char
picked Ordering.lt p q f = f tt
picked Ordering.eq Ordering.lt Ordering.lt f = f tt
picked Ordering.gt Ordering.lt Ordering.lt f = f tt
picked _ _ _ f = nul

abbrev to_char : ℕ → Char
to_char n = picked (compare n 55296) (compare 57343 n) (compare n 1114112) (char n)

picked_lem : (o p q : Ordering) (f : Scalar o p q → Char) (h : Scalar o p q) → picked o p q f ≡ f h
picked_lem Ordering.lt p q f h = refl
picked_lem Ordering.eq Ordering.lt Ordering.lt f h = refl
picked_lem Ordering.eq Ordering.lt Ordering.eq f h = absurd h
picked_lem Ordering.eq Ordering.lt Ordering.gt f h = absurd h
picked_lem Ordering.eq Ordering.eq q f h = absurd h
picked_lem Ordering.eq Ordering.gt q f h = absurd h
picked_lem Ordering.gt Ordering.lt Ordering.lt f h = refl
picked_lem Ordering.gt Ordering.lt Ordering.eq f h = absurd h
picked_lem Ordering.gt Ordering.lt Ordering.gt f h = absurd h
picked_lem Ordering.gt Ordering.eq q f h = absurd h
picked_lem Ordering.gt Ordering.gt q f h = absurd h

to_char-code : (c : Char) → to_char (code c) ≡ c
to_char-code (char n h) =
    picked_lem (compare n 55296) (compare 57343 n) (compare n 1114112) (char n) h

abbrev of_codes : List ℕ → String
of_codes [] = ""
of_codes (n ∷ ns) = String.◌∷◌ (to_char n) (of_codes ns)

of_codes-codes : (s : String) → of_codes (codes s) ≡ s
of_codes-codes String.[] = refl
of_codes-codes (String.◌∷◌ c s) = λ i. String.◌∷◌ (to_char-code c i) (of_codes-codes s i)

-- A number n as n times "a" and a "b".
abbrev spelled : ℕ → String → String
spelled zero rest = String.◌∷◌ "b" rest
spelled (suc n) rest = String.◌∷◌ "a" (spelled n rest)

abbrev spelled_all : List ℕ → String
spelled_all [] = ""
spelled_all (n ∷ ns) = spelled n (spelled_all ns)

abbrev prepended : ℕ → Option (List ℕ) → Option (List ℕ)
prepended n none = none
prepended n (some ns) = some (n ∷ ns)

abbrev read_numbers : String → ℕ → Option (List ℕ)
read_numbers String.[] n = if eqb n 0 then some [] else none
read_numbers (String.◌∷◌ c s) n =
    let more = read_numbers s (n + 1) in
    let next = read_numbers s 0 in if eqb (code c) b'a' then more else prepended n next

read_numbers-spelled :
    (n k : ℕ) (s : String) → read_numbers (spelled n s) k ≡ prepended (k + n) (read_numbers s 0)
read_numbers-spelled zero k s = let e : k + 0 ≡ k = omega arith in rw e refl
read_numbers-spelled (suc n) k s =
    let e : k + 1 + n ≡ k + suc n = omega arith in read_numbers-spelled n (k + 1) s ∙ rw e refl

read_numbers-spelled_all : (ns : List ℕ) → read_numbers (spelled_all ns) 0 ≡ some ns
read_numbers-spelled_all [] = refl
read_numbers-spelled_all (n ∷ ns) =
    let e : 0 + n ≡ n = omega arith in
    read_numbers-spelled n 0 (spelled_all ns) ∙ rw (e, read_numbers-spelled_all ns) refl

abbrev pub toy_cipher : Aead
toy_cipher = record { nonce_size = 2; seal_with = λ k n p. p; open_with = λ k n c. some c }

abbrev pub toy_codec : Codec
toy_codec = record {
  utf8 = codes;
  of_utf8 = of_codes;
  base64 = spelled_all;
  of_base64 = λ s. read_numbers s 0;
}

pub toy_codec-IsFaithful : IsFaithful toy_cipher toy_codec
toy_codec-IsFaithful = record {
  text = of_codes-codes;
  base64 = read_numbers-spelled_all;
  empty = refl;
  cipher = λ k n b. refl;
}
