-- ===== src/Labels/Unique.antt =====
-- The names of the labels in the table (internal/application/usecase/label/label_usecase.go), with the
-- unique index on LOWER(name) of the table and as if it had none: the use case looks for the name
-- before it writes.
use go_clean_arch_poc.Base.{
  GoString, false, ◌≡◌, refl, ap, arith, if◌then◌else◌, Option, none, some, List, [], ◌∷◌,
}
use go_clean_arch_poc.Domain.Error.{Error, Result, ok, err, ◌>>=◌}
use go_clean_arch_poc.Domain.Task.{Uuid, Time}
use go_clean_arch_poc.Domain.Label
use go_clean_arch_poc.Domain.Label.{Label, new_label}
use go_clean_arch_poc.Labels.{
  CreateLabelInput, UpdateLabelInput, Validator, create_label, update_label, delete_label, rename,
  recolor, LabelRepository,
}
use go_clean_arch_poc.Labels.Table.{LabelTable, has_id, row_by_id, update_row, table_repository}
use go_clean_arch_poc.Labels.Rows.{
  IsUnique, clashes, no_row_has_name, clashes-is_own, delete_row-IsUnique, update_row-IsUnique,
  row_by_id-clashes,
}

-- A call of the use case that writes, with its time and the id that is drawn.
pub data LabelOp : Type 0 where
  create : Time → Uuid → CreateLabelInput → LabelOp
  update : Time → Uuid → UpdateLabelInput → LabelOp
  delete : Uuid → LabelOp

module _ (lower : GoString → GoString) where
  -- The table without the unique index on names.
  unfoldable pub unindexed : LabelRepository LabelTable
  unfolding table_repository
  unindexed = record (table_repository lower) {
    save = λ l d. if has_id l.id d then err (Error.external 23505) else ok (l ∷ d);
    update = λ l d. if has_id l.id d then ok (update_row l d) else err (Error.external 0);
  }

module _ (lower : GoString → GoString) (valid : Validator) where
  -- What a call writes and answers; DeleteLabel answers no label.
  abbrev pub Answered : Type 0
  Answered = Result (LabelTable × Option Label)

  abbrev answered : Result (LabelTable × Label) → Answered
  answered r = r >>= λ x. ok (x.0, some x.1)

  unfoldable pub call : LabelRepository LabelTable → LabelOp → LabelTable → Answered
  call repo (create now id input) d = answered (create_label repo valid now id input d)
  call repo (update now id input) d = answered (update_label repo valid now id input d)
  call repo (delete id) d = delete_label repo valid id d >>= λ d'. ok (d', none)

  -- The table after a call, which an error leaves as it is.
  abbrev pub table_of : LabelTable → Answered → LabelTable
  table_of d (ok r) = r.0
  table_of d (err _) = d

  unfoldable pub run : List LabelOp → LabelTable → LabelTable
  run [] d = d
  run (op ∷ ops) d = run ops (table_of d (call (table_repository lower) op d))

  create_label-IsUnique :
      (now : Time) (id : Uuid) (input : CreateLabelInput) (d : LabelTable)
      → IsUnique lower d
      → IsUnique lower (table_of d (call (unindexed lower) (create now id input) d))
  unfolding call create_label unindexed table_repository new_label
  create_label-IsUnique now id input d u = ground (arith, no_row_has_name lower input.name d)

  delete_label-IsUnique :
      (id : Uuid) (d : LabelTable)
      → IsUnique lower d
      → IsUnique lower (table_of d (call (unindexed lower) (delete id) d))
  unfolding call delete_label unindexed table_repository
  delete_label-IsUnique id d u = ground (arith, delete_row-IsUnique lower id d u)

  -- What UpdateLabel writes has a name that is free or the label's own.
  update_label-ok :
      (now : Time) (id : Uuid) (input : UpdateLabelInput) (d d' : LabelTable) (l' : Label)
      → IsUnique lower d
      → update_label (unindexed lower) valid now id input d ≡ ok (d', l')
      → (d' ≡ update_row l' d) × (clashes lower l'.id l'.name d ≡ false)
  unfolding update_label unindexed table_repository rename recolor Label.update_name
      Label.update_color
  update_label-ok now id input d d' l' u h = elim-row (row_by_id id d) input.name refl refl
    where
      elim-row :
          (o : Option Label) (n : Option GoString)
          → row_by_id id d ≡ o
          → input.name ≡ n
          → (d' ≡ update_row l' d) × (clashes lower l'.id l'.name d ≡ false)
      elim-row none n eo en = (ground arith, ground arith)
      elim-row (some l) none eo en =
          (ground arith, ground (arith, row_by_id-clashes lower id d l u eo))
      elim-row (some l) (some name) eo en =
          (ground arith, ground (arith, clashes-is_own lower l.id name d u))

  update_label-IsUnique :
      (now : Time) (id : Uuid) (input : UpdateLabelInput) (d : LabelTable)
      → IsUnique lower d
      → IsUnique lower (table_of d (call (unindexed lower) (update now id input) d))
  unfolding call
  update_label-IsUnique now id input d u =
      elim-result (update_label (unindexed lower) valid now id input d) refl
    where
      elim-result :
          (r : Result (LabelTable × Label))
          → update_label (unindexed lower) valid now id input d ≡ r
          → IsUnique lower (table_of d (answered r))
      elim-result (err e) h = u
      elim-result (ok (d', l')) h =
          let facts = update_label-ok now id input d d' l' u h in
          rw (facts.0) (update_row-IsUnique lower l' d u facts.1)

  call-IsUnique :
      (op : LabelOp) (d : LabelTable)
      → IsUnique lower d
      → IsUnique lower (table_of d (call (unindexed lower) op d))
  call-IsUnique (create now id input) d u = create_label-IsUnique now id input d u
  call-IsUnique (update now id input) d u = update_label-IsUnique now id input d u
  call-IsUnique (delete id) d u = delete_label-IsUnique id d u

  create_label-unindexed :
      (now : Time) (id : Uuid) (input : CreateLabelInput) (d : LabelTable)
      → create_label (table_repository lower) valid now id input d
        ≡ create_label (unindexed lower) valid now id input d
  unfolding create_label unindexed table_repository new_label
  create_label-unindexed now id input d = ground (arith, no_row_has_name lower input.name d)

  update_label-unindexed :
      (now : Time) (id : Uuid) (input : UpdateLabelInput) (d : LabelTable)
      → IsUnique lower d
      → update_label (table_repository lower) valid now id input d
        ≡ update_label (unindexed lower) valid now id input d
  unfolding update_label unindexed table_repository rename recolor Label.update_name
      Label.update_color
  update_label-unindexed now id input d u = elim-row (row_by_id id d) input.name refl refl
    where
      elim-row :
          (o : Option Label) (n : Option GoString)
          → row_by_id id d ≡ o
          → input.name ≡ n
          → update_label (table_repository lower) valid now id input d
            ≡ update_label (unindexed lower) valid now id input d
      elim-row none n eo en = ground arith
      elim-row (some l) none eo en = ground (arith, row_by_id-clashes lower id d l u eo)
      elim-row (some l) (some name) eo en = ground (arith, clashes-is_own lower l.id name d u)

  call-unindexed :
      (op : LabelOp) (d : LabelTable)
      → IsUnique lower d
      → call (table_repository lower) op d ≡ call (unindexed lower) op d
  unfolding call delete_label table_repository unindexed
  call-unindexed (create now id input) d u = ap answered (create_label-unindexed now id input d)
  call-unindexed (update now id input) d u = ap answered (update_label-unindexed now id input d u)
  call-unindexed (delete id) d u = refl

  run-IsUnique :
      (ops : List LabelOp) (d : LabelTable) → IsUnique lower d → IsUnique lower (run ops d)
  unfolding run
  run-IsUnique [] d u = u
  run-IsUnique (op ∷ ops) d u =
      run-IsUnique ops _ (rw (call-unindexed op d u) (call-IsUnique op d u))

  -- A table of labels in which no id stands twice, and no two names that differ in case at most,
  -- stays so over any calls of CreateLabel, UpdateLabel and DeleteLabel, one after another; and
  -- each further call writes and answers what it would over the same table without the unique
  -- index on LOWER(name): every clash of names the use case has answered itself.
  pub call-run :
      (ops : List LabelOp) (op : LabelOp) (d : LabelTable)
      → IsUnique lower d
      → IsUnique lower (run ops d)
        × (call (table_repository lower) op (run ops d) ≡ call (unindexed lower) op (run ops d))
  call-run ops op d u =
      let unique = run-IsUnique ops d u in (unique, call-unindexed op (run ops d) unique)
