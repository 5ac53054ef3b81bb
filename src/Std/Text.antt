-- ===== src/Std/Text.antt =====
-- Functions of Go's package strings, over texts as lists of characters.
use Prim.Native.Char.{code}
use Prim.Native.String
use Prim.Native.String.{[], ◌∷◌}
use mathlib.Core.List.{List}
use beacon_backend.Prelude.{
  ℕ, ◌+◌, String, ◌≡◌, refl, Bool, true, false, ◌&&◌, ◌||◌, ◌==◌, leb, eqb, if◌then◌else◌,
}

-- unicode.IsSpace
unfoldable pub is_space : ℕ → Bool
is_space c =
    (leb 9 c && leb c 13)
    || eqb c 0x20
    || eqb c 0x85
    || eqb c 0xA0
    || eqb c 0x1680
    || (leb 0x2000 c && leb c 0x200A)
    || eqb c 0x2028
    || eqb c 0x2029
    || eqb c 0x202F
    || eqb c 0x205F
    || eqb c 0x3000

trim_left : String → String
trim_left [] = []
trim_left (c ∷ s) = let rest = trim_left s in if is_space (code c) then rest else c ∷ s

trim_right : String → String
trim_right [] = []
trim_right (c ∷ s) =
    let rest = trim_right s in if rest == "" && is_space (code c) then "" else c ∷ rest

-- strings.TrimSpace
unfoldable pub trim_space : String → String
unfolding is_space trim_left trim_right
trim_space s = trim_right (trim_left s)

-- A code point with the ASCII capitals in lower case.
abbrev pub lower_code : ℕ → ℕ
lower_code c = if leb b'A' c && leb c b'Z' then c + 32 else c

-- strings.EqualFold, for a second text whose letters fold within ASCII (all but k and s do).
unfoldable pub equal_fold : String → String → Bool
equal_fold [] [] = true
equal_fold [] (d ∷ t) = false
equal_fold (c ∷ s) [] = false
equal_fold (c ∷ s) (d ∷ t) = eqb (lower_code (code c)) (lower_code (code d)) && equal_fold s t

-- The code points of a text, and its bytes where it is ASCII.
abbrev pub codes : String → List ℕ
codes [] = List.[]
codes (c ∷ s) = List.◌∷◌ (code c) (codes s)

-- strings.HasPrefix
unfoldable pub has_prefix : String → String → Bool
has_prefix s [] = true
has_prefix [] (d ∷ t) = false
has_prefix (c ∷ s) (d ∷ t) = eqb (code c) (code d) && has_prefix s t

-- strings.Join
unfoldable pub join : List String → String → String
join List.[] sep = ""
join (List.◌∷◌ s List.[]) sep = s
join (List.◌∷◌ s (List.◌∷◌ t ts)) sep = String.◌++◌ s (String.◌++◌ sep (join (List.◌∷◌ t ts) sep))

text_tests :
    (trim_space "  Your location\n" ≡ "Your location")
    × (equal_fold "YOUR Location" "your location" ≡ true)
    × (equal_fold "your locations" "your location" ≡ false)
    × (has_prefix "fp-12" "fp-" ≡ true)
    × (has_prefix "b-12" "fp-" ≡ false)
unfolding trim_space equal_fold has_prefix
text_tests = (refl, refl, refl, refl, refl)
