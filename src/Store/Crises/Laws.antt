-- ===== src/Store/Crises/Laws.antt =====
-- Which crisis a report is assigned to.
use beacon_backend.Prelude.{
  ℕ, none, some, List, [], ◌∷◌, Bool, true, false, ◌≡◌, ◌⊎◌, inl, inr, refl, arith, All, select,
  Bool-cases,
}
use beacon_backend.Std.Float.{Float}
use beacon_backend.Store.Db.{CrisisRow, Db, Postgis}
use beacon_backend.Store.Crises.{covers, nearest, crisis_distance, assign_crisis}

abbrev pub Among : {A : Type 0} → A → List A → Type 0
Among x [] = ⊥
Among x (y ∷ ys) = (x ≡ y) ⊎ Among x ys

module _ {F : Type 0} ⦃fl : Float F⦄ (gis : Postgis F) (lat lng : F) where
  -- No crisis of the list is nearer.
  abbrev pub IsNearest : CrisisRow F → List (CrisisRow F) → Type 0
  IsNearest c cs =
      All (λ d. fl.lt (crisis_distance gis lat lng d) (crisis_distance gis lat lng c) ≡ false) cs

  farther :
      (c d : CrisisRow F) (cs : List (CrisisRow F))
      → fl.lt (crisis_distance gis lat lng d) (crisis_distance gis lat lng c) ≡ false
      → ((a b c : F) → fl.lt b a ≡ false → fl.lt c b ≡ false → fl.lt c a ≡ false)
      → IsNearest d cs
      → IsNearest c cs
  farther c d [] l t n = tt
  farther c d (e ∷ cs) l t (h, n) = (t _ _ _ l h, farther c d cs l t n)

  -- Where nothing is below itself and a value that is not below another is at most as far as what
  -- that is at most as far as.
  nearest-cases :
      (cs : List (CrisisRow F))
      → ((a : F) → fl.lt a a ≡ false)
      → ((a b c : F) → fl.lt b a ≡ false → fl.lt c b ≡ false → fl.lt c a ≡ false)
      → ((a b : F) → fl.lt a b ≡ true → fl.lt b a ≡ false)
      → ((cs ≡ []) × (nearest gis lat lng cs ≡ none))
        ⊎ ((c : CrisisRow F) × (nearest gis lat lng cs ≡ some c) × Among c cs × IsNearest c cs)
  unfolding nearest
  nearest-cases [] i t a = inl (refl, refl)
  nearest-cases (c ∷ cs) i t a = elim (nearest-cases cs i t a) [
    | inl (e, n) ↦ inr (c, rw n refl, inl refl, (i (crisis_distance gis lat lng c), rw e tt))
    | inr (d, n, m, near) ↦
        elim (Bool-cases (fl.lt (crisis_distance gis lat lng d) (crisis_distance gis lat lng c))) [
          | inl l ↦ inr (d, rw (n, l) refl, inr m, (a _ _ l, near))
          | inr l ↦ inr (
            c,
            rw (n, l) refl,
            inl refl,
            (i (crisis_distance gis lat lng c), farther c d cs l t near),
          )
        ]
  ]

  select-holds :
      (c : CrisisRow F) (p : CrisisRow F → Bool) (cs : List (CrisisRow F))
      → Among c (select p cs)
      → (p c ≡ true) × Among c cs
  select-holds c p [] m = absurd m
  select-holds c p (d ∷ cs) m = elim (Bool-cases (p d)) [
    | inl e ↦ elim (rw e at m) [
      | inl same ↦ (rw same e, inl same)
      | inr rest ↦ let (h, r) = select-holds c p cs rest in (h, inr r)
    ]
    | inr e ↦ let (h, r) = select-holds c p cs (rw e at m) in (h, inr r)
  ]

  -- Under a linear order of distances, a report is left pending where no open crisis covers its
  -- place and time, and otherwise assigned to one that does and that none that does is nearer than.
  pub assign_crisis_lem :
      (db : Db F) (at : ℕ)
      → ((a : F) → fl.lt a a ≡ false)
      → ((a b c : F) → fl.lt b a ≡ false → fl.lt c b ≡ false → fl.lt c a ≡ false)
      → ((a b : F) → fl.lt a b ≡ true → fl.lt b a ≡ false)
      → let covering = select (covers gis lat lng at) db.crises in
        ((covering ≡ []) × (assign_crisis gis db lat lng at ≡ ""))
        ⊎ ((c : CrisisRow F) × (assign_crisis gis db lat lng at ≡ c.id)
            × (covers gis lat lng at c ≡ true)
            × Among c db.crises
            × IsNearest c covering)
  unfolding assign_crisis
  assign_crisis_lem db at i t a =
      elim (nearest-cases (select (covers gis lat lng at) db.crises) i t a) [
        | inl (e, n) ↦ inl (e, ground (arith, n))
        | inr (c, n, m, near) ↦
            let (p, among) = select-holds c (covers gis lat lng at) db.crises m in
            inr (c, ground (arith, n), p, among, near)
      ]
