-- ===== src/Tasks/Filename/Safe.antt =====
-- Which bytes a sanitized file name (internal/application/usecase/task/task_usecase.go) can hold.
use go_clean_arch_poc.Base.{
  ℕ, GoString, bytes, false, ◌≡◌, refl, arith, [], ◌∷◌, map, ◌==◌, str_eq, has_byte, if◌then◌else◌,
}
use go_clean_arch_poc.Tasks.Filename.{
  trim_space, trim_slashes, after_slash, base, sanitize_attachment_filename,
}

after_slash-no_slash : (s : GoString) → has_byte b'/' (after_slash s) ≡ false
unfolding after_slash
after_slash-no_slash [] = refl
after_slash-no_slash (c ∷ s) = ground (arith, after_slash-no_slash s)

has_byte-after_slash :
    (b : ℕ) (s : GoString) → has_byte b s ≡ false → has_byte b (after_slash s) ≡ false
unfolding after_slash
has_byte-after_slash b [] h = refl
has_byte-after_slash b (c ∷ s) h = ground (arith, has_byte-after_slash b s)

has_byte-trim_slashes :
    (b : ℕ) (s : GoString) → has_byte b s ≡ false → has_byte b (trim_slashes s) ≡ false
unfolding trim_slashes
has_byte-trim_slashes b [] h = refl
has_byte-trim_slashes b (c ∷ s) h = ground (arith, has_byte-trim_slashes b s)

no_backslash : (s : GoString) → has_byte b'\\' (map (λ c. if c == b'\\' then b'/' else c) s) ≡ false
no_backslash [] = refl
no_backslash (c ∷ s) = ground (arith, no_backslash s)

-- A sanitized file name holds no backslash, and a slash only if it is the name `/`, which an
-- upload refuses.
pub sanitize_attachment_filename-no_slash :
    (filename : GoString)
    → (has_byte b'\\' (sanitize_attachment_filename filename) ≡ false)
      × (has_byte b'/' (sanitize_attachment_filename filename)
          ≡ str_eq (sanitize_attachment_filename filename) (bytes "/"))
unfolding sanitize_attachment_filename base
sanitize_attachment_filename-no_slash filename =
    let path = map (λ c. if c == b'\\' then b'/' else c) (trim_space filename) in
    let trimmed = has_byte-trim_slashes b'\\' path (no_backslash (trim_space filename)) in
    (
      ground (arith, has_byte-after_slash b'\\' (trim_slashes path) trimmed),
      ground (arith, after_slash-no_slash (trim_slashes path)),
    )
