-- ===== src/Export/Columns/Laws.antt =====
-- The dynamic columns: sorted, new, safe, and exactly those of the keys.
use mathlib.Core.Bool.{false≢true}
use beacon_backend.Prelude.{
  some, List, [], ◌∷◌, ◌++◌, Bool, true, false, not, ◌&&◌, ◌||◌, ◌≡◌, ◌↔◌, inl, inr, refl, ap, ◌∙◌,
  arith, All, Bool-cases, Option-cases, if_both, any-append,
}
use beacon_backend.Std.Text.{codes}
use beacon_backend.Photo.Jpeg.{same_bytes}
use beacon_backend.Photo.Jpeg.Laws.{same_bytes_iff}
use beacon_backend.Export.Text.{Text, Formats}
use beacon_backend.Export.Columns.{
  is_safe_column, is_reserved, column_of, camel_to_snake, has_text, is_taken, gather, sort_texts,
  columns_of, extra_columns_from_keys,
}
use beacon_backend.Export.Columns.Order.{
  IsSorted, has_text-sort_texts, IsDistinct, sort_texts-IsSorted, All-sort_texts,
}

IsDistinct-append :
    (ts : List Text) (t : Text) → has_text ts t ≡ false → IsDistinct ts → IsDistinct (ts ++ t ∷ [])
IsDistinct-append [] t n d = (refl, tt)
IsDistinct-append (u ∷ ts) t n (m, d) = (
  ground (
    arith,
    n,
    m,
    any-append (λ v. same_bytes v u) ts (t ∷ []),
    same_bytes_iff u t,
    same_bytes_iff t u,
  ),
  IsDistinct-append ts t (ground (arith, n)) d,
)

gather-IsDistinct :
    (fixed seen cols : List Text) → IsDistinct seen → IsDistinct (gather fixed seen cols)
unfolding gather
gather-IsDistinct fixed seen [] d = d
gather-IsDistinct fixed seen (col ∷ cols) d =
    if_both (λ s. IsDistinct (gather fixed s cols)) (is_taken fixed col || has_text seen col)
      (λ e. gather-IsDistinct fixed seen cols d)
      (λ e.
        gather-IsDistinct fixed (seen ++ col ∷ []) cols
          (IsDistinct-append seen col (ground (arith, e)) d))

-- A text that is the same column has the same tests.
same-tests :
    (fixed seen : List Text) (col u : Text)
    → same_bytes col u ≡ true
    → (is_taken fixed col ≡ is_taken fixed u) × (has_text seen col ≡ has_text seen u)
same-tests fixed seen col u q =
    let p = (same_bytes_iff col u).0 q in (ap (is_taken fixed) p, ap (has_text seen) p)

regroup : (a b c : Bool) → ((a || (false || false)) || (b && c)) ≡ (a || ((false || b) && c))
regroup true b c = refl
regroup false b c = refl

module _ (fixed seen : List Text) (col : Text) (cols : List Text) (u : Text) where
  abbrev Gathered : List Text → Type 0
  Gathered s =
      has_text (gather fixed s cols) u
      ≡ (has_text s u || (has_text cols u && not (is_taken fixed u)))

  abbrev Wanted : List Text → Type 0
  Wanted s =
      has_text (gather fixed s cols) u
      ≡ (has_text seen u || (has_text (col ∷ cols) u && not (is_taken fixed u)))

  old_column : (is_taken fixed col || has_text seen col) ≡ true → Gathered seen → Wanted seen
  old_column e ih = elim (Bool-cases (same_bytes col u)) [
    | inl q ↦ let (a, b) = same-tests fixed seen col u q in ground (arith, ih, e, q, a, b)
    | inr q ↦ rw q ih
  ]

  new_column :
      (is_taken fixed col || has_text seen col) ≡ false
      → Gathered (seen ++ col ∷ [])
      → Wanted (seen ++ col ∷ [])
  new_column e ih =
      let more = any-append (λ v. same_bytes v u) seen (col ∷ []) in
      elim (Bool-cases (same_bytes col u)) [
        | inl q ↦ let (a, b) = same-tests fixed seen col u q in ground (arith, ih, e, q, a, b, more)
        | inr q ↦
            ih ∙ rw (more, q) (regroup (has_text seen u) (has_text cols u) (not (is_taken fixed u)))
      ]

has_text-gather :
    (fixed seen cols : List Text) (u : Text)
    → has_text (gather fixed seen cols) u
      ≡ (has_text seen u || (has_text cols u && not (is_taken fixed u)))
unfolding gather
has_text-gather fixed seen [] u = ground arith
has_text-gather fixed seen (col ∷ cols) u =
    elim (Bool-cases (is_taken fixed col || has_text seen col)) [
      | inl e ↦ rw e (old_column fixed seen col cols u e (has_text-gather fixed seen cols u))
      | inr e ↦
          rw e
            (new_column fixed seen col cols u e (has_text-gather fixed (seen ++ col ∷ []) cols u))
    ]

prefixed-safe :
    (c : Text)
    → is_safe_column c ≡ true
    → (is_safe_column (codes "x_" ++ c) ≡ true) × (is_reserved (codes "x_" ++ c) ≡ false)
unfolding is_safe_column is_reserved
prefixed-safe [] h = absurd (false≢true h)
prefixed-safe (x ∷ s) h = (ground (arith, h), refl)

column_of-safe :
    {F : Type 0} (fmt : Formats F) (key col : Text)
    → column_of fmt key ≡ some col
    → (is_safe_column col ≡ true) × (is_reserved col ≡ false)
unfolding column_of
column_of-safe fmt key col h =
    let c = camel_to_snake fmt key in
    elim (Bool-cases (is_safe_column c)) [
      | inr n ↦ ground (arith, h, n)
      | inl y ↦ elim (Bool-cases (is_reserved c)) [
        | inr n ↦ let e : c ≡ col = ground (arith, h, y, n) in rw (← e) (y, n)
        | inl r ↦
            let e : codes "x_" ++ c ≡ col = ground (arith, h, y, r) in rw (← e) (prefixed-safe c y)
      ]
    ]

columns_of-safe :
    {F : Type 0} (fmt : Formats F) (keys : List Text)
    → All (λ col. (is_safe_column col ≡ true) × (is_reserved col ≡ false)) (columns_of fmt keys)
unfolding columns_of
columns_of-safe fmt [] = tt
columns_of-safe fmt (key ∷ keys) = elim (Option-cases (column_of fmt key)) [
  | inl e ↦ rw (e, columns_of) (columns_of-safe fmt keys)
  | inr (col, e) ↦ rw (e, columns_of) (column_of-safe fmt key col e, columns_of-safe fmt keys)
]

All-concat : (P : Text → Type 0) (xs ys : List Text) → All P xs → All P ys → All P (xs ++ ys)
All-concat P [] ys a b = b
All-concat P (x ∷ xs) ys (p, a) b = (p, All-concat P xs ys a b)

All-gather :
    (P : Text → Type 0) (fixed seen cols : List Text)
    → All P seen
    → All P cols
    → All P (gather fixed seen cols)
unfolding gather
All-gather P fixed seen [] a b = a
All-gather P fixed seen (col ∷ cols) a (p, b) =
    if_both (λ s. All P (gather fixed s cols)) (is_taken fixed col || has_text seen col)
      (λ e. All-gather P fixed seen cols a b)
      (λ e. All-gather P fixed (seen ++ col ∷ []) cols (All-concat P seen (col ∷ []) a (p, tt)) b)

pub extras-IsSorted : (fixed cols : List Text) → IsSorted (sort_texts (gather fixed [] cols))
extras-IsSorted fixed cols =
    sort_texts-IsSorted (gather fixed [] cols) (gather-IsDistinct fixed [] cols tt)

pub has_text-extras :
    (fixed cols : List Text) (u : Text)
    → has_text (sort_texts (gather fixed [] cols)) u ≡ (has_text cols u && not (is_taken fixed u))
has_text-extras fixed cols u =
    has_text-sort_texts (gather fixed [] cols) u ∙ has_text-gather fixed [] cols u

-- The dynamic columns of an export are sorted with no repeat, are safe identifiers other than "fid"
-- and "geom", and are exactly the columns of the keys that are not fixed or stable ones.
pub extra_columns_from_keys_lem :
    {F : Type 0} (fmt : Formats F) (keys fixed : List Text) (u : Text)
    → IsSorted (extra_columns_from_keys fmt keys fixed)
      × All
          (λ col. (is_safe_column col ≡ true) × (is_reserved col ≡ false))
          (extra_columns_from_keys fmt keys fixed)
      × ((has_text (extra_columns_from_keys fmt keys fixed) u ≡ true)
          ↔ ((has_text (columns_of fmt keys) u ≡ true) × (is_taken fixed u ≡ false)))
unfolding extra_columns_from_keys
extra_columns_from_keys_lem fmt keys fixed u =
    let cols = columns_of fmt keys in
    let P = λ (col : Text). (is_safe_column col ≡ true) × (is_reserved col ≡ false) in
    let there = has_text-extras fixed cols u in
    (
      extras-IsSorted fixed cols,
      All-sort_texts P (gather fixed [] cols)
          (All-gather P fixed [] cols tt (columns_of-safe fmt keys)),
      ground (arith, there),
    )
