-- ===== src/Std.antt =====
-- What the program uses of Go's language and standard library: slices and pointers, float64 as an
-- interface, and the functions of package strings.
pub mod Collation
pub mod Text
pub mod Float
use beacon_backend.Prelude.{
  Option, none, some, List, [], String, ◌==◌, Bool, true, false, ◌≡◌, refl,
}

-- A slice that may be nil. Only JSON output and a test `== nil` tell nil from an empty slice.
abbrev pub Slice {ℓ} : Type ℓ → Type ℓ
Slice A = Option (List A)

module _ {ℓ} {A : Type ℓ} where
  -- What `range` sees of a slice.
  abbrev pub items : Slice A → List A
  items none = []
  items (some xs) = xs

  -- `if s == nil { s = []T{} }`
  abbrev pub or_empty : Slice A → Slice A
  or_empty none = some []
  or_empty (some xs) = some xs

  -- `len(s) == 0`
  abbrev pub is_empty : Slice A → Bool
  is_empty none = true
  is_empty (some []) = true
  is_empty (some _) = false

-- `p != nil && *p == s`
abbrev pub points_to : Option String → String → Bool
points_to none s = false
points_to (some t) s = t == s

-- `p == nil || *p == ""`
abbrev pub is_blank : Option String → Bool
is_blank none = true
is_blank (some t) = t == ""
