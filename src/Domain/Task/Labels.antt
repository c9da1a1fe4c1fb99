-- ===== src/Domain/Task/Labels.antt =====
-- The labels of a task: AddLabel and RemoveLabel (internal/domain/entity/task.go).
use go_clean_arch_poc.Base.{false, not, ◌||◌, ◌&&◌, ◌≡◌, refl, arith, List, [], ◌∷◌, ◌++◌, ◌==◌}
use go_clean_arch_poc.Domain.Task.{
  Uuid, Time, Task, has_label, add_label, remove_first, remove_label,
}

-- No label stands in the list twice.
abbrev pub Distinct : List Uuid → Type 0
Distinct [] = Unit
Distinct (x ∷ xs) = (has_label x xs ≡ false) × Distinct xs

pub has_label-append :
    (j : Uuid) (xs ys : List Uuid) → has_label j (xs ++ ys) ≡ (has_label j xs || has_label j ys)
has_label-append j [] ys = refl
has_label-append j (x ∷ xs) ys = ground (arith, has_label-append j xs ys)

pub Distinct-append :
    (xs : List Uuid) (l : Uuid) → Distinct xs → has_label l xs ≡ false → Distinct (xs ++ l ∷ [])
Distinct-append [] l d h = (refl, tt)
Distinct-append (x ∷ xs) l d h =
    (ground (arith, has_label-append x xs (l ∷ [])), Distinct-append xs l d.1 (ground arith))

has_label-remove_first_le :
    (l j : Uuid) (xs : List Uuid) → has_label j xs ≡ false → has_label j (remove_first l xs) ≡ false
unfolding remove_first
has_label-remove_first_le l j [] h = refl
has_label-remove_first_le l j (x ∷ xs) h = ground (arith, has_label-remove_first_le l j xs)

pub Distinct-remove_first : (l : Uuid) (xs : List Uuid) → Distinct xs → Distinct (remove_first l xs)
unfolding remove_first
Distinct-remove_first l [] d = tt
Distinct-remove_first l (x ∷ xs) d =
    ground (arith, Distinct-remove_first l xs d.1, has_label-remove_first_le l x xs)

pub has_label-remove_first :
    (l j : Uuid) (xs : List Uuid)
    → Distinct xs
    → has_label j (remove_first l xs) ≡ (not (j == l) && has_label j xs)
unfolding remove_first
has_label-remove_first l j [] d = ground arith
has_label-remove_first l j (x ∷ xs) d = ground (arith, has_label-remove_first l j xs d.1)

-- After AddLabel the task has that label and those that it had, and adding it once more changes
-- nothing, not even the time of the update.
pub add_label_lem :
    (now later : Time) (l : Uuid) (t : Task)
    → ((j : Uuid) → has_label j (add_label now l t).labels ≡ (l == j || has_label j t.labels))
      × (add_label later l (add_label now l t) ≡ add_label now l t)
unfolding add_label
add_label_lem now later l t = (
  λ j. ground (arith, has_label-append j t.labels (l ∷ [])),
  ground (arith, has_label-append l t.labels (l ∷ [])),
)

-- If no label stands twice in the task, RemoveLabel removes exactly that label.
pub remove_label_lem :
    (now : Time) (l : Uuid) (t : Task) (j : Uuid)
    → Distinct t.labels
    → has_label j (remove_label now l t).labels ≡ (not (j == l) && has_label j t.labels)
unfolding remove_label
remove_label_lem now l t j d = ground (arith, has_label-remove_first l j t.labels d)

remove_first-append :
    (l : Uuid) (xs : List Uuid) → has_label l xs ≡ false → remove_first l (xs ++ l ∷ []) ≡ xs
unfolding remove_first
remove_first-append l [] h = ground arith
remove_first-append l (x ∷ xs) h = ground (arith, remove_first-append l xs)

-- Removing a label that the task did not have and that AddLabel has just added gives back its
-- labels.
pub remove_label-add_label :
    (now later : Time) (l : Uuid) (t : Task)
    → has_label l t.labels ≡ false
    → (remove_label later l (add_label now l t)).labels ≡ t.labels
unfolding remove_label add_label
remove_label-add_label now later l t h =
    ground (arith, remove_first-append l t.labels, has_label-append l t.labels (l ∷ []))
