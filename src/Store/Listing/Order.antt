-- ===== src/Store/Listing/Order.antt =====
-- The order of the report list, and what a cursor leaves of it.
use beacon_backend.Prelude.{
  String, some, List, [], ◌∷◌, ◌++◌, Bool, true, false, ◌≡◌, ◌⊎◌, inl, inr, refl, ap, ◌∙◌, arith,
  ◌==◌, eq_iff, All, map, select, Bool-cases,
}
use mathlib.Core.List.Perm
use mathlib.Core.List.{Perm}
use beacon_backend.Store.Db.{Row, Postgis}
use beacon_backend.Store.Insert.{before}
use beacon_backend.Store.Cursors.{encode_cursor}
use beacon_backend.Store.Listing.{put, ordered, is_past, cursor_at, last_cursor}
use beacon_backend.System.Rows.{NoRepeat, none_has, All-imp}

-- The collation of the text columns is a strict linear order.
pub record IsOrder {F : Type 0} (gis : Postgis F) : Type 0 where
  pub irrefl : (a : String) → gis.text_lt a a ≡ false
  pub trans :
      (a b c : String) → gis.text_lt a b ≡ true → gis.text_lt b c ≡ true → gis.text_lt a c ≡ true
  pub total : (a b : String) → (gis.text_lt a b ≡ true) ⊎ (gis.text_lt b a ≡ true) ⊎ (a ≡ b)

module _ {F : Type 0} (gis : Postgis F) where
  -- Each row stands before all that follow.
  abbrev pub IsNewestFirst : List (Row F) → Type 0
  IsNewestFirst [] = Unit
  IsNewestFirst (r ∷ rows) = All (λ s. before gis r s ≡ true) rows × IsNewestFirst rows

  before_trans :
      IsOrder gis
      → (a b c : Row F) → before gis a b ≡ true
      → before gis b c ≡ true
      → before gis a c ≡ true
  unfolding before
  before_trans o a b c h k = ground (arith, h, k, o.trans c.id b.id a.id)

  before_total :
      IsOrder gis
      → (a b : Row F) → (b.id == a.id) ≡ false
      → before gis a b ≡ false
      → before gis b a ≡ true
  unfolding before
  before_total o a b d h = ground (arith, h, o.total a.id b.id, eq_iff b.id a.id)

  before_asym : IsOrder gis → (a b : Row F) → before gis a b ≡ true → before gis b a ≡ false
  unfolding before
  before_asym o a b h = ground (arith, h, o.trans a.id b.id a.id, o.irrefl a.id)

  is_past-before : (c r : Row F) → is_past gis (cursor_at gis c) r ≡ before gis c r
  unfolding is_past before
  is_past-before c r = ground arith

  All-put :
      (P : Row F → Type 0) (r : Row F) (rows : List (Row F))
      → P r
      → All P rows
      → All P (put gis r rows)
  unfolding put
  All-put P r [] p a = (p, tt)
  All-put P r (s ∷ rows) p (q, a) = elim (Bool-cases (before gis r s)) [
    | inl e ↦ rw e (p, (q, a))
    | inr e ↦ rw e (q, All-put P r rows p a)
  ]

  put-IsNewestFirst :
      IsOrder gis
      → (r : Row F) (rows : List (Row F)) → All (λ s. (s.id == r.id) ≡ false) rows
      → IsNewestFirst rows
      → IsNewestFirst (put gis r rows)
  unfolding put
  put-IsNewestFirst o r [] d n = (tt, tt)
  put-IsNewestFirst o r (s ∷ rows) (d, ds) (a, n) = elim (Bool-cases (before gis r s)) [
    | inl e ↦ rw e (
      (
        e,
        All-imp (λ t. before gis s t ≡ true) (λ t. before gis r t ≡ true) rows
            (λ t h. before_trans o r s t e h) a,
      ),
      (a, n),
    )
    | inr e ↦ rw e (
      All-put (λ t. before gis s t ≡ true) r rows (before_total o r s d e) a,
      put-IsNewestFirst o r rows ds n,
    )
  ]

  put-Perm : (r : Row F) (rows : List (Row F)) → Perm (put gis r rows) (r ∷ rows)
  unfolding put
  put-Perm r [] = Perm.refl (r ∷ [])
  put-Perm r (s ∷ rows) = elim (Bool-cases (before gis r s)) [
    | inl e ↦ rw e (Perm.refl (r ∷ s ∷ rows))
    | inr e ↦ rw e (Perm.trans (Perm.cons s (put-Perm r rows)) (Perm.swap r s rows))
  ]

  -- Nothing is lost and nothing is added.
  pub ordered-Perm : (rows : List (Row F)) → Perm (ordered gis rows) rows
  unfolding ordered
  ordered-Perm [] = Perm.refl []
  ordered-Perm (r ∷ rows) =
      Perm.trans (put-Perm r (ordered gis rows)) (Perm.cons r (ordered-Perm rows))

  pub All-ordered :
      (P : Row F → Type 0) (rows : List (Row F)) → All P rows → All P (ordered gis rows)
  unfolding ordered
  All-ordered P [] a = tt
  All-ordered P (r ∷ rows) (p, a) = All-put P r (ordered gis rows) p (All-ordered P rows a)

  pub ordered-IsNewestFirst :
      IsOrder gis
      → (rows : List (Row F)) → NoRepeat (map (λ r. r.id) rows)
      → IsNewestFirst (ordered gis rows)
  unfolding ordered
  ordered-IsNewestFirst o [] n = tt
  ordered-IsNewestFirst o (r ∷ rows) (d, n) =
      put-IsNewestFirst o r (ordered gis rows)
        (All-ordered (λ s. (s.id == r.id) ≡ false) rows (none_has (λ s. s.id) r.id rows d))
        (ordered-IsNewestFirst o rows n)

  pub last_row : Row F → List (Row F) → Row F
  last_row r [] = r
  last_row r (s ∷ rows) = last_row s rows

  pub last_cursor-last_row :
      (r : Row F) (rows : List (Row F))
      → last_cursor gis (r ∷ rows) ≡ some (encode_cursor (cursor_at gis (last_row r rows)))
  unfolding last_cursor last_row
  last_cursor-last_row r [] = refl
  last_cursor-last_row r (s ∷ rows) = last_cursor-last_row s rows

  pub All-last_row :
      (P : Row F → Type 0) (r : Row F) (rows : List (Row F))
      → P r
      → All P rows
      → P (last_row r rows)
  unfolding last_row
  All-last_row P r [] p a = p
  All-last_row P r (s ∷ rows) p (q, a) = All-last_row P s rows q a

  select-all :
      (p : Row F → Bool) (rows : List (Row F)) → All (λ s. p s ≡ true) rows → select p rows ≡ rows
  select-all p [] a = refl
  select-all p (r ∷ rows) (h, a) = rw h (ap (λ t. r ∷ t) (select-all p rows a))

  pub All-suffix : (P : Row F → Type 0) (xs ys : List (Row F)) → All P (xs ++ ys) → All P ys
  All-suffix P [] ys a = a
  All-suffix P (x ∷ xs) ys (p, a) = All-suffix P xs ys a

  pub All-prefix : (P : Row F → Type 0) (xs ys : List (Row F)) → All P (xs ++ ys) → All P xs
  All-prefix P [] ys a = tt
  All-prefix P (x ∷ xs) ys (p, a) = (p, All-prefix P xs ys a)

  before_irrefl : IsOrder gis → (a : Row F) → before gis a a ≡ false
  unfolding before
  before_irrefl o a = ground (arith, o.irrefl a.id)

  -- The cursor of the last row of what was seen leaves exactly what was not.
  select-past :
      IsOrder gis
      → (r : Row F) (rows rest : List (Row F)) → IsNewestFirst (r ∷ rows ++ rest)
      → select (is_past gis (cursor_at gis (last_row r rows))) (r ∷ rows ++ rest) ≡ rest
  unfolding last_row
  select-past o r [] rest (a, n) =
      rw (is_past-before r r, before_irrefl o r)
        (select-all (is_past gis (cursor_at gis r)) rest (
          All-imp (λ s. before gis r s ≡ true) (λ s. is_past gis (cursor_at gis r) s ≡ true) rest
            (λ s h. is_past-before r s ∙ h) a))
  select-past o r (s ∷ rows) rest (a, n) =
      let w = last_row s rows in
      let (p, q) = All-prefix (λ t. before gis r t ≡ true) (s ∷ rows) rest a in
      let h = All-last_row (λ t. before gis r t ≡ true) s rows p q in
      rw (is_past-before w r, before_asym o r w h) (select-past o s rows rest n)

  pub select-past_after :
      IsOrder gis
      → (seen : List (Row F)) (r : Row F) (rows rest : List (Row F))
      → IsNewestFirst (seen ++ (r ∷ rows ++ rest))
      → select (is_past gis (cursor_at gis (last_row r rows))) (seen ++ (r ∷ rows ++ rest)) ≡ rest
  select-past_after o [] r rows rest n = select-past o r rows rest n
  select-past_after o (x ∷ seen) r rows rest (a, n) =
      let w = last_row r rows in
      let all = All-suffix (λ t. before gis x t ≡ true) seen (r ∷ rows ++ rest) a in
      let (p, q) = All-prefix (λ t. before gis x t ≡ true) (r ∷ rows) rest all in
      let h = All-last_row (λ t. before gis x t ≡ true) r rows p q in
      rw (is_past-before w x, before_asym o x w h) (select-past_after o seen r rows rest n)
