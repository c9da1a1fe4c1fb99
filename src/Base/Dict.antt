-- ===== src/Base/Dict.antt =====
-- Go maps as association lists, over keys with decidable equality. The program's loops over maps do
-- not depend on the order of the entries, and neither do the laws.
use Prim.Native.Nat.{◌≤◌}
use mathlib.Core.Path.{◌≡◌, refl}
use mathlib.Core.Bool.{Bool, true, false}
use mathlib.Core.Option.{Option, none, some}
use mathlib.Core.List.{List, [], ◌∷◌}
use native.Mathlib.Omega.{arith}
use go_clean_arch_poc.Base.Tests.{if◌then◌else◌, is_some}
use go_clean_arch_poc.Base.Lists.{length}

abbrev pub Dict {ℓ κ} : Type ℓ → Type κ → Type (ℓ ⊔ κ)
Dict K V = List (K × V)

-- `==` on keys.
abbrev pub same {ℓ} : {K : Type ℓ} → Discrete K → K → K → Bool
same dec a b = elim (dec a b) [ yes _ ↦ true | no _ ↦ false ]

module _ {ℓ κ} {K : Type ℓ} {V : Type κ} (dec : Discrete K) where
  -- v, ok := m[k]
  unfoldable pub get : K → Dict K V → Option V
  get k [] = none
  get k ((j, v) ∷ m) = if same dec j k then some v else get k m

  -- delete(m, k)
  unfoldable pub remove : K → Dict K V → Dict K V
  remove k [] = []
  remove k ((j, v) ∷ m) = let rest = remove k m in if same dec j k then rest else (j, v) ∷ rest

  -- m[k] = v
  unfoldable pub put : K → V → Dict K V → Dict K V
  put k v m = (k, v) ∷ remove k m

  -- for k, v := range m { if p(k, v) { delete(m, k) } }
  unfoldable pub remove_if : (K → V → Bool) → Dict K V → Dict K V
  remove_if p [] = []
  remove_if p ((j, v) ∷ m) = let rest = remove_if p m in if p j v then rest else (j, v) ∷ rest

  pub get-remove :
      (k j : K) (m : Dict K V) → get j (remove k m) ≡ (if same dec k j then none else get j m)
  unfolding get remove
  get-remove k j [] = ground arith
  get-remove k j ((i, v) ∷ m) = ground (arith, get-remove k j m)

  pub get-put :
      (k j : K) (v : V) (m : Dict K V)
      → get j (put k v m) ≡ (if same dec k j then some v else get j m)
  unfolding get put
  get-put k j v m = ground (arith, get-remove k j m)

  -- Where the test reads the key alone, what is left is known with no condition on the list.
  pub get-remove_if_key :
      (p : K → Bool) (j : K) (m : Dict K V)
      → get j (remove_if (λ k _. p k) m) ≡ (if p j then none else get j m)
  unfolding get remove_if
  get-remove_if_key p j [] = ground arith
  get-remove_if_key p j ((i, v) ∷ m) = ground (arith, get-remove_if_key p j m)

  -- No key stands twice.
  abbrev pub IsDict : Dict K V → Type 0
  IsDict [] = Unit
  IsDict ((k, v) ∷ m) = (is_some (get k m) ≡ false) × IsDict m

  pub get-remove_if :
      (p : K → V → Bool) (j : K) (m : Dict K V)
      → IsDict m
      → get j (remove_if p m)
        ≡ (elim (get j m) [ none ↦ none | some v ↦ (if p j v then none else some v) ])
  unfolding get remove_if
  get-remove_if p j [] d = refl
  get-remove_if p j ((i, v) ∷ m) d = ground (arith, get-remove_if p j m d.1)

  pub remove-IsDict : (k : K) (m : Dict K V) → IsDict m → IsDict (remove k m)
  unfolding get remove
  remove-IsDict k [] d = tt
  remove-IsDict k ((i, v) ∷ m) d = ground (arith, remove-IsDict k m d.1, get-remove k i m)

  pub put-IsDict : (k : K) (v : V) (m : Dict K V) → IsDict m → IsDict (put k v m)
  unfolding put
  put-IsDict k v m d = (ground (arith, get-remove k k m), remove-IsDict k m d)

  pub remove_if-IsDict : (p : K → V → Bool) (m : Dict K V) → IsDict m → IsDict (remove_if p m)
  unfolding get remove_if
  remove_if-IsDict p [] d = tt
  remove_if-IsDict p ((i, v) ∷ m) d =
      ground (arith, remove_if-IsDict p m d.1, get-remove_if p i m d.1)

  pub length-remove-le : (k : K) (m : Dict K V) → length (remove k m) ≤ length m
  unfolding remove
  length-remove-le k [] = omega arith
  length-remove-le k ((i, v) ∷ m) = ground (arith, length-remove-le k m)
