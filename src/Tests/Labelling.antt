-- ===== src/Tests/Labelling.antt =====
-- Labels at a concrete input (internal/application/usecase/label/label_usecase.go).
use go_clean_arch_poc.Base.{
  GoString, ◌≡◌, bytes, refl, none, some, List, [], ◌∷◌, map, ◌==◌, if◌then◌else◌, str_discrete,
}
use go_clean_arch_poc.Domain.Error.{ok}
use go_clean_arch_poc.Labels.{Validator}
use go_clean_arch_poc.Labels.Table.{LabelTable, table_repository}
use go_clean_arch_poc.Labels.Rows.{IsUnique}
use go_clean_arch_poc.Labels.Unique.{LabelOp, call, call-run, run, unindexed}

-- A folding of case that knows one pair of letters.
abbrev lower : GoString → GoString
lower = map (λ c. if c == b'B' then b'b' else c)

abbrev pub accept_all : Validator
accept_all = record { create_label = λ i. ok tt; update_label = λ i. ok tt }

abbrev two_rows : LabelTable
two_rows =
    record { id = 1; name = bytes "bug"; color = bytes "#ff0000"; created_at = 0; updated_at = 0 }
    ∷ record {
      id = 2;
      name = bytes "docs";
      color = bytes "#00ff00";
      created_at = 0;
      updated_at = 0;
    }
    ∷ []

abbrev label_calls : List LabelOp
label_calls =
    LabelOp.create 5 3 (record { name = bytes "Bug"; color = bytes "#0000ff" })
    ∷ LabelOp.update 6 2 (record { name = some (bytes "Bug"); color = none })
    ∷ LabelOp.update 7 1 (record { name = some (bytes "BUG"); color = none })
    ∷ LabelOp.delete 2
    ∷ []

two_rows-IsUnique : IsUnique lower two_rows
unfolding str_discrete
two_rows-IsUnique = (refl, refl, (refl, refl, tt))

abbrev taken_name : LabelOp
taken_name = LabelOp.update 9 3 (record { name = some (bytes "BUG"); color = none })

call-run_example :
    IsUnique lower (run lower accept_all label_calls two_rows)
    × (call lower accept_all
          (table_repository lower)
          taken_name
          (run lower accept_all label_calls two_rows)
        ≡ call lower accept_all
            (unindexed lower)
            taken_name
            (run lower accept_all label_calls two_rows))
call-run_example = call-run lower accept_all label_calls taken_name two_rows two_rows-IsUnique
