-- ===== src/Labels/Rows.antt =====
-- The rows of the table labels (internal/infrastructure/database/repository/label_repository.go): their
-- ids and names after a row is written or deleted.
use go_clean_arch_poc.Base.{
  GoString, Bool, true, false, not, ◌&&◌, ◌≡◌, refl, ap, arith, none, some, [], ◌∷◌, any, ◌==◌,
  str_eq, Bool-cases, inl, inr,
}
use go_clean_arch_poc.Domain.Task.{Uuid}
use go_clean_arch_poc.Domain.Label.{Label}
use go_clean_arch_poc.Labels.{is_own}
use go_clean_arch_poc.Labels.Table.{
  LabelTable, has_id, row_by_id, delete_row, update_row, is_named, row_by_name,
}

module _ (lower : GoString → GoString) where
  abbrev pub has_name : GoString → LabelTable → Bool
  has_name name = any (is_named lower name)

  -- No id stands twice, and no two names that differ in case at most.
  abbrev pub IsUnique : LabelTable → Type 0
  IsUnique [] = Unit
  IsUnique (r ∷ d) = (has_id r.id d ≡ false) × (has_name r.name d ≡ false) × IsUnique d

  -- A row with the name under another id.
  abbrev pub clashes : Uuid → GoString → LabelTable → Bool
  clashes id name = any (λ r. is_named lower name r && not (r.id == id))

  pub has_name-lower :
      (m n : GoString) (d : LabelTable) → lower m ≡ lower n → has_name m d ≡ has_name n d
  has_name-lower m n d e = ap (λ x. any (λ r. str_eq (lower r.name) x) d) e

  pub str_eq-eq : (a b : GoString) → str_eq a b ≡ true → a ≡ b
  str_eq-eq a b h = ground arith

  pub str_eq_sym : (a b : GoString) → str_eq a b ≡ str_eq b a
  str_eq_sym a b = ground arith

  pub clashes-has_name :
      (id : Uuid) (n : GoString) (d : LabelTable) → has_name n d ≡ false → clashes id n d ≡ false
  clashes-has_name id n [] h = refl
  clashes-has_name id n (r ∷ d) h = ground (arith, clashes-has_name id n d)

  pub no_row_has_name :
      (n : GoString) (d : LabelTable) → row_by_name lower n d ≡ none → has_name n d ≡ false
  unfolding row_by_name
  no_row_has_name n [] h = refl
  no_row_has_name n (r ∷ d) h = ground (arith, no_row_has_name n d)

  pub clashes-is_own :
      (id : Uuid) (n : GoString) (d : LabelTable)
      → IsUnique d
      → is_own id (row_by_name lower n d) ≡ true
      → clashes id n d ≡ false
  unfolding row_by_name
  clashes-is_own id n [] u h = refl
  clashes-is_own id n (r ∷ d) u h =
      ground
        (arith, clashes-is_own id n d u.2, clashes-has_name id n d, has_name-lower r.name n d, u.1)

  pub has_id-delete_row :
      (id j : Uuid) (d : LabelTable) → has_id j d ≡ false → has_id j (delete_row id d) ≡ false
  unfolding delete_row
  has_id-delete_row id j [] h = refl
  has_id-delete_row id j (r ∷ d) h = ground (arith, has_id-delete_row id j d)

  pub has_name-delete_row :
      (id : Uuid) (n : GoString) (d : LabelTable)
      → has_name n d ≡ false
      → has_name n (delete_row id d) ≡ false
  unfolding delete_row
  has_name-delete_row id n [] h = refl
  has_name-delete_row id n (r ∷ d) h = ground (arith, has_name-delete_row id n d)

  pub delete_row-IsUnique : (id : Uuid) (d : LabelTable) → IsUnique d → IsUnique (delete_row id d)
  unfolding delete_row
  delete_row-IsUnique id [] u = tt
  delete_row-IsUnique id (r ∷ d) u = ground (
    arith,
    delete_row-IsUnique id d u.2,
    has_id-delete_row id r.id d,
    has_name-delete_row id r.name d,
  )

  pub has_id-update_row :
      (l : Label) (j : Uuid) (d : LabelTable) → has_id j (update_row l d) ≡ has_id j d
  unfolding update_row
  has_id-update_row l j [] = refl
  has_id-update_row l j (r ∷ d) = ground (arith, has_id-update_row l j d)

  pub has_name-update_row :
      (l : Label) (n : GoString) (d : LabelTable)
      → has_name n d ≡ false
      → str_eq (lower l.name) (lower n) ≡ false
      → has_name n (update_row l d) ≡ false
  unfolding update_row
  has_name-update_row l n [] h e = refl
  has_name-update_row l n (r ∷ d) h e = ground (arith, has_name-update_row l n d)

  pub update_row-none : (l : Label) (d : LabelTable) → has_id l.id d ≡ false → update_row l d ≡ d
  unfolding update_row
  update_row-none l [] h = refl
  update_row-none l (r ∷ d) h = ground (arith, update_row-none l d)

  pub clashes-none :
      (id : Uuid) (n : GoString) (d : LabelTable)
      → clashes id n d ≡ false
      → has_id id d ≡ false
      → has_name n d ≡ false
  clashes-none id n [] c h = refl
  clashes-none id n (r ∷ d) c h = ground (arith, clashes-none id n d)

  pub has_id_same : (i j : Uuid) (d : LabelTable) → i == j ≡ true → has_id i d ≡ has_id j d
  has_id_same i j d h = ap (λ x. has_id x d) (ground arith)

  pub update_row-IsUnique :
      (l : Label) (d : LabelTable)
      → IsUnique d
      → clashes l.id l.name d ≡ false
      → IsUnique (update_row l d)
  unfolding update_row
  update_row-IsUnique l [] u c = tt
  update_row-IsUnique l (r ∷ d) u c = elim (Bool-cases (r.id == l.id)) [
    | inl own ↦
        ground (
          arith,
          u.0,
          u.2,
          has_id_same r.id l.id d,
          update_row-none l d,
          clashes-none l.id l.name d,
        )
    | inr other ↦ ground (
      arith,
      update_row-IsUnique l d u.2,
      has_id-update_row l r.id d,
      has_name-update_row l r.name d u.1,
      str_eq_sym (lower l.name) (lower r.name),
    )
  ]

module _ (lower : GoString → GoString) where
  pub row_by_id-is_named :
      (id : Uuid) (n : GoString) (d : LabelTable) (l : Label)
      → row_by_id id d ≡ some l
      → has_name lower n d ≡ false
      → is_named lower n l ≡ false
  unfolding row_by_id
  row_by_id-is_named id n [] l e h = ground arith
  row_by_id-is_named id n (r ∷ d) l e h = ground (arith, row_by_id-is_named id n d l)

  -- The row of an id has the id, and its name clashes with no other row.
  pub row_by_id-clashes :
      (id : Uuid) (d : LabelTable) (l : Label)
      → IsUnique lower d
      → row_by_id id d ≡ some l
      → clashes lower l.id l.name d ≡ false
  unfolding row_by_id
  row_by_id-clashes id [] l u e = ground arith
  row_by_id-clashes id (r ∷ d) l u e = ground (
    arith,
    u.1,
    row_by_id-clashes id d l u.2,
    row_by_id-is_named id r.name d l,
    clashes-has_name lower r.id r.name d,
    str_eq_sym lower (lower l.name) (lower r.name),
  )
