-- ===== src/Base/Text.antt =====
-- Go strings as lists of bytes: literals, `==`, prefixes.
use Prim.Native.Nat.{ℕ, compare, Ordering}
use Prim.Native.Char.{code}
use Prim.Native.String.{String}
use mathlib.Core.Path.{◌≡◌, refl, sym, ap}
use mathlib.Core.Bool.{Bool, true, false, ◌&&◌}
use mathlib.Core.List.{List, [], ◌∷◌, ◌++◌}
use native.Mathlib.Decide.{ℕ_discrete}
use native.Mathlib.Omega.{arith}

-- A Go string is a sequence of bytes.
abbrev pub GoString : Type 0
GoString = List ℕ

-- The bytes of an ASCII literal.
abbrev pub bytes : String → GoString
bytes String.[] = []
bytes (String.◌∷◌ c s) = code c ∷ bytes s

pub nil-ne-cons : (x : ℕ) (xs : GoString) → ¬ ([] ≡ x ∷ xs)
nil-ne-cons x xs e = cc

pub cons-ne_head : (x y : ℕ) (xs ys : GoString) → ¬ (x ≡ y) → ¬ (x ∷ xs ≡ y ∷ ys)
cons-ne_head x y xs ys n e = n (cc)

pub cons-ne_tail : (x y : ℕ) (xs ys : GoString) → ¬ (xs ≡ ys) → ¬ (x ∷ xs ≡ y ∷ ys)
cons-ne_tail x y xs ys n e = n (cc)

pub cons-eq : (x y : ℕ) (xs ys : GoString) → x ≡ y → xs ≡ ys → x ∷ xs ≡ y ∷ ys
cons-eq x y xs ys p q = cc

abbrev dec_tails : (x y : ℕ) (xs ys : GoString) → x ≡ y → Dec (xs ≡ ys) → Dec (x ∷ xs ≡ y ∷ ys)
dec_tails x y xs ys p (yes q) = yes (cons-eq x y xs ys p q)
dec_tails x y xs ys p (no n) = no (cons-ne_tail x y xs ys n)

abbrev dec_cons : (x y : ℕ) (xs ys : GoString) → Dec (x ≡ y) → Dec (xs ≡ ys) → Dec (x ∷ xs ≡ y ∷ ys)
dec_cons x y xs ys (yes p) d = dec_tails x y xs ys p d
dec_cons x y xs ys (no n) d = no (cons-ne_head x y xs ys n)

-- Two strings are equal, or they differ.
unfoldable pub str_discrete : Discrete GoString
unfolding ℕ_discrete
str_discrete [] [] = yes refl
str_discrete [] (y ∷ ys) = no (nil-ne-cons y ys)
str_discrete (x ∷ xs) [] = no (λ e. nil-ne-cons x xs (sym e))
str_discrete (x ∷ xs) (y ∷ ys) = dec_cons x y xs ys (ℕ_discrete x y) (str_discrete xs ys)

-- `==` on strings.
abbrev pub str_eq : GoString → GoString → Bool
str_eq a b = elim (str_discrete a b) [ yes _ ↦ true | no _ ↦ false ]

pub str_eq_refl : (s : GoString) → str_eq s s ≡ true
str_eq_refl s = ground arith

-- `len(s) >= len(prefix) && s[:len(prefix)] == prefix`
unfoldable pub has_prefix : GoString → GoString → Bool
has_prefix [] s = true
has_prefix (p ∷ ps) [] = false
has_prefix (p ∷ ps) (c ∷ s) =
    elim (compare p c) [ Ordering.eq ↦ true | _ ↦ false ] && has_prefix ps s

pub has_prefix-append : (p s : GoString) → has_prefix p (p ++ s) ≡ true
unfolding has_prefix
has_prefix-append [] s = refl
has_prefix-append (c ∷ p) s = ground (arith, has_prefix-append p s)

-- A prefix is what the text begins with: the rest can be named.
pub has_prefix-split : (p s : GoString) → has_prefix p s ≡ true → (r : GoString) × (s ≡ p ++ r)
unfolding has_prefix
has_prefix-split [] s h = (s, refl)
has_prefix-split (c ∷ p) [] h = cc
has_prefix-split (c ∷ p) (d ∷ s) h =
    let (r, e) = has_prefix-split p s (ground arith) in (r, ground arith)

pub has_prefix-append_both : (p a b : GoString) → has_prefix (p ++ a) (p ++ b) ≡ has_prefix a b
unfolding has_prefix
has_prefix-append_both [] a b = refl
has_prefix-append_both (c ∷ p) a b = ground (arith, has_prefix-append_both p a b)

pub append_assoc : (a b c : GoString) → (a ++ b) ++ c ≡ a ++ (b ++ c)
append_assoc [] b c = refl
append_assoc (x ∷ a) b c = ap (λ s. x ∷ s) (append_assoc a b c)

pub str_eq-append_both : (p a b : GoString) → str_eq (p ++ a) (p ++ b) ≡ str_eq a b
str_eq-append_both [] a b = refl
str_eq-append_both (c ∷ p) a b = ground (arith, str_eq-append_both p a b)
