-- ===== src/Tasks/Filename.antt =====
-- sanitizeAttachmentFilename (internal/application/usecase/task/task_usecase.go), with what it calls of
-- the packages strings and path.
pub mod Safe
use go_clean_arch_poc.Base.{
  ℕ, zero, suc, ◌≡◌, refl, ◌∙◌, ap, arith, GoString, bytes, Bool, true, false, not, ◌&&◌, List, [],
  ◌∷◌, ◌++◌, map, length, ◌==◌, str_eq, has_prefix, has_byte, if◌then◌else◌, str_discrete,
}

-- The characters for which unicode.IsSpace holds, in UTF-8.
abbrev pub spaces : List GoString
spaces =
    (9 ∷ [])
    ∷ (10 ∷ [])
    ∷ (11 ∷ [])
    ∷ (12 ∷ [])
    ∷ (13 ∷ [])
    ∷ (32 ∷ [])
    ∷ (194 ∷ 133 ∷ [])
    ∷ (194 ∷ 160 ∷ [])
    ∷ (225 ∷ 154 ∷ 128 ∷ [])
    ∷ (226 ∷ 128 ∷ 128 ∷ [])
    ∷ (226 ∷ 128 ∷ 129 ∷ [])
    ∷ (226 ∷ 128 ∷ 130 ∷ [])
    ∷ (226 ∷ 128 ∷ 131 ∷ [])
    ∷ (226 ∷ 128 ∷ 132 ∷ [])
    ∷ (226 ∷ 128 ∷ 133 ∷ [])
    ∷ (226 ∷ 128 ∷ 134 ∷ [])
    ∷ (226 ∷ 128 ∷ 135 ∷ [])
    ∷ (226 ∷ 128 ∷ 136 ∷ [])
    ∷ (226 ∷ 128 ∷ 137 ∷ [])
    ∷ (226 ∷ 128 ∷ 138 ∷ [])
    ∷ (226 ∷ 128 ∷ 168 ∷ [])
    ∷ (226 ∷ 128 ∷ 169 ∷ [])
    ∷ (226 ∷ 128 ∷ 175 ∷ [])
    ∷ (226 ∷ 129 ∷ 159 ∷ [])
    ∷ (227 ∷ 128 ∷ 128 ∷ [])
    ∷ []

abbrev pub backwards : GoString → GoString
backwards [] = []
backwards (c ∷ s) = backwards s ++ c ∷ []

-- The length of the first of some texts that `s` begins with, or 0.
unfoldable pub width : List GoString → GoString → ℕ
width [] s = 0
width (e ∷ es) s = let rest = width es s in if has_prefix e s then length e else rest

-- The text without the white space that it begins with, where `k` more bytes of one are to go.
unfoldable pub trim_with : List GoString → ℕ → GoString → GoString
unfolding width
trim_with es k [] = []
trim_with es (suc k) (c ∷ s) = trim_with es k s
trim_with es zero (c ∷ s) = elim (width es (c ∷ s)) [ zero ↦ c ∷ s | suc k ↦ trim_with es k s ]

unfoldable pub trim_space : GoString → GoString
unfolding trim_with
trim_space s = backwards (trim_with (map backwards spaces) 0 (backwards (trim_with spaces 0 s)))

-- The loop of path.Base that drops the slashes at the end.
unfoldable pub trim_slashes : GoString → GoString
trim_slashes [] = []
trim_slashes (c ∷ s) =
    let rest = trim_slashes s in if c == b'/' && str_eq rest [] then [] else c ∷ rest

-- What follows the last slash.
unfoldable pub after_slash : GoString → GoString
after_slash [] = []
after_slash (c ∷ s) =
    let rest = after_slash s in if has_byte b'/' s then rest else if c == b'/' then s else c ∷ s

unfoldable pub base : GoString → GoString
unfolding trim_slashes after_slash
base path =
    if str_eq path []
    then bytes "."
    else (let last = after_slash (trim_slashes path) in if str_eq last [] then bytes "/" else last)

unfoldable pub sanitize_attachment_filename : GoString → GoString
unfolding trim_space base
sanitize_attachment_filename filename =
    base (map (λ c. if c == b'\\' then b'/' else c) (trim_space filename))
