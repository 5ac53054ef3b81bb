-- ===== src/Handler/Listing/Granted.antt =====
-- What crises the list's scope lets through.
use mathlib.Core.Bool.{false≢true}
use beacon_backend.Prelude.{
  String, Option, none, some, List, [], ◌∷◌, true, false, ◌≡◌, ◌⊎◌, inl, inr, refl, sym, ◌∙◌, arith,
  eq_iff, Bool-cases, ◌==◌,
}
use beacon_backend.Std.{items, points_to}
use beacon_backend.Std.Text.{trim_space}
use beacon_backend.Model.Vocabulary.{contains}
use beacon_backend.Model.User.{User, has_crisis, scope_all, scope_allows}
use beacon_backend.Store.Db.{Row}
use beacon_backend.Store.Scan.{or_text}
use beacon_backend.Store.Listing.{ListFilter, in_crises, any_of}
use beacon_backend.Handler.Scope.{default_crisis_id, list_scope}

-- A crisis of the user's scope; with no scope at all, the default one.
abbrev pub IsGranted : User → String → Type 0
IsGranted u crisis_id =
    (scope_allows u crisis_id ≡ true) ⊎ ((u.crisis_scope ≡ []) × (crisis_id ≡ default_crisis_id))

contains-has_crisis : (scope : List String) (c : String) → contains scope c ≡ has_crisis scope c
unfolding contains has_crisis
contains-has_crisis [] c = refl
contains-has_crisis (x ∷ scope) c = rw (contains-has_crisis scope c) refl

-- One crisis, or every crisis, or those of the user's scope.
abbrev pub IsScope : User → String × Option (List String) → Type 0
IsScope u scope =
    ((scope.1 ≡ none) × ((scope.0 == "") ≡ false) × IsGranted u scope.0)
    ⊎ (scope_all u ≡ true)
    ⊎ ((c : String) × (cs : List String) × (u.crisis_scope ≡ c ∷ cs)
        × (scope ≡ ("", some (c ∷ cs))))

abbrev pub IsScoped : User → Option (String × Option (List String)) → Type 0
IsScoped u none = Unit
IsScoped u (some scope) = IsScope u scope

by_grants :
    (u : User) (grants : List String)
    → u.crisis_scope ≡ grants
    → IsScoped u
        (elim grants [ [] ↦ some (default_crisis_id, none) | c ∷ cs ↦ some ("", some (c ∷ cs)) ])
by_grants u [] e = inl (refl, refl, inr (e, refl))
by_grants u (c ∷ cs) e = inr (inr (c, cs, e, refl))

pub list_scope-IsScoped : (u : User) (q : String) → IsScoped u (list_scope (some u) q)
unfolding list_scope
list_scope-IsScoped u q = elim (Bool-cases (trim_space q == "")) [
  | inr n ↦ elim (Bool-cases (scope_allows u (trim_space q))) [
    | inl a ↦ rw (n, a) (inl (refl, n, inl a))
    | inr a ↦ rw (n, a) tt
  ]
  | inl n ↦ elim (Bool-cases (scope_all u)) [
    | inl a ↦ rw (n, a) (inr (inl a))
    | inr a ↦ rw (n, a) (by_grants u u.crisis_scope refl)
  ]
]

allows : (u : User) (c : String) → has_crisis u.crisis_scope c ≡ true → scope_allows u c ≡ true
unfolding scope_allows
allows u c h = ground (arith, h)

granted_one :
    (u : User) (column : Option String) (c : String)
    → points_to column c ≡ true
    → IsGranted u c
    → IsGranted u (or_text column "")
granted_one u none c h g = absurd (false≢true h)
granted_one u (some t) c h g = rw ((eq_iff t c).0 h) g

granted_any :
    (scope : List String) (column : Option String)
    → any_of scope column ≡ true
    → has_crisis scope (or_text column "") ≡ true
granted_any scope none h = absurd (false≢true h)
granted_any scope (some t) h = sym (contains-has_crisis scope t) ∙ h

module _ {F : Type 0} where
  pub granted :
      (u : User) (scope : String × Option (List String)) (f : ListFilter F) (row : Row F)
      → IsScope u scope
      → f.crisis_id ≡ scope.0
      → f.crisis_ids ≡ items scope.1
      → in_crises f row ≡ true
      → IsGranted u (or_text row.crisis_id "")
  unfolding in_crises scope_allows
  granted u scope f row (inr (inl a)) i j h = inl (rw a refl)
  granted u scope f row (inl (o, n, g)) i j h =
      granted_one u row.crisis_id scope.0 (rw (i, n) at h) g
  granted u scope f row (inr (inr (c, cs, g, e))) i j h =
      let k : any_of (c ∷ cs) row.crisis_id ≡ true = rw (i, j, e) at h in
      inl (allows u (or_text row.crisis_id "") (rw g (granted_any (c ∷ cs) row.crisis_id k)))
