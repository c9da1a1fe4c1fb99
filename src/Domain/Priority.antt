-- ===== src/Domain/Priority.antt =====
-- Priority (internal/domain/valueobject/priority.go).
use go_clean_arch_poc.Base.{
  ℕ, GoString, bytes, str_eq, Bool, not, List, [], ◌∷◌, any, ltb, if◌then◌else◌,
}
use go_clean_arch_poc.Base.Int.{ℤ, pos, negsuc}
use go_clean_arch_poc.Domain.Error.{Error, ValueError, Result, ok, err}

abbrev pub Priority : Type 0
Priority = GoString

abbrev pub low : Priority
low = bytes "LOW"

abbrev pub medium : Priority
medium = bytes "MEDIUM"

abbrev pub high : Priority
high = bytes "HIGH"

abbrev pub urgent : Priority
urgent = bytes "URGENT"

abbrev pub all_priorities : List Priority
all_priorities = low ∷ medium ∷ high ∷ urgent ∷ []

-- The map `validPriorities` holds the four constants, each with `true`.
unfoldable pub is_valid : Priority → Bool
is_valid p = any (str_eq p) all_priorities

unfoldable pub parse_priority : GoString → Result Priority
unfolding is_valid
parse_priority s = if not (is_valid s) then err (Error.value ValueError.invalid_priority) else ok s

-- The map `priorityOrder`; a missing key reads as 0.
unfoldable pub order : Priority → ℕ
order p =
    if str_eq p low
    then 1
    else if str_eq p medium
    then 2
    else if str_eq p high
    then 3
    else if str_eq p urgent
    then 4
    else 0

pub is_higher_than : Priority → Priority → Bool
is_higher_than p other = ltb (order other) (order p)

pub is_lower_than : Priority → Priority → Bool
is_lower_than p other = ltb (order p) (order other)

pub compare : Priority → Priority → ℤ
compare p other =
    if ltb (order p) (order other)
    then negsuc 0
    else if ltb (order other) (order p)
    then pos 1
    else pos 0
