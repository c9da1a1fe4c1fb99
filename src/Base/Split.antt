-- ===== src/Base/Split.antt =====
-- strings.Split with a separator of one byte.
use Prim.Native.Nat.{ℕ}
use mathlib.Core.Path.{◌≡◌, refl}
use mathlib.Core.Bool.{Bool, false}
use mathlib.Core.List.{List, [], ◌∷◌, ◌++◌}
use native.Mathlib.Omega.{arith}
use go_clean_arch_poc.Base.Tests.{◌==◌, if◌then◌else◌}
use go_clean_arch_poc.Base.Lists.{any}
use go_clean_arch_poc.Base.Text.{GoString, bytes, has_prefix, str_eq}

abbrev cons_head : ℕ → List GoString → List GoString
cons_head c [] = (c ∷ []) ∷ []
cons_head c (w ∷ ws) = (c ∷ w) ∷ ws

unfoldable pub split : ℕ → GoString → List GoString
split sep [] = [] ∷ []
split sep (c ∷ s) = let rest = split sep s in if c == sep then [] ∷ rest else cons_head c rest

-- Does the byte stand in the text?
abbrev pub has_byte : ℕ → GoString → Bool
has_byte b = any (λ c. c == b)

pub split_none : (sep : ℕ) (s : GoString) → has_byte sep s ≡ false → split sep s ≡ s ∷ []
unfolding split
split_none sep [] h = refl
split_none sep (c ∷ s) h = ground (arith, split_none sep s)

pub split-append :
    (sep : ℕ) (s r : GoString) → has_byte sep s ≡ false → split sep (s ++ sep ∷ r) ≡ s ∷ split sep r
unfolding split
split-append sep [] r h = ground arith
split-append sep (c ∷ s) r h = ground (arith, split-append sep s r)

-- Of two texts without `:`, the first with `:` begins the second with `:` only if they are the same.
pub has_prefix-colon :
    (u v t : GoString)
    → has_byte b':' u ≡ false
    → has_byte b':' v ≡ false
    → has_prefix (u ++ bytes ":") (v ++ (bytes ":" ++ t)) ≡ str_eq u v
unfolding has_prefix
has_prefix-colon [] [] t hu hv = ground arith
has_prefix-colon [] (y ∷ v) t hu hv = ground arith
has_prefix-colon (x ∷ u) [] t hu hv = ground arith
has_prefix-colon (x ∷ u) (y ∷ v) t hu hv = ground (arith, has_prefix-colon u v t)
