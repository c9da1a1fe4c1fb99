-- ===== src/Base/Json.antt =====
-- encoding/json on the values of a type, as the caches use it.
use go_clean_arch_poc.Base.{GoString, ◌≡◌, Option, some}

-- Marshal may fail. What Unmarshal reads of a text that Marshal wrote is `as_read` of the value: Marshal
-- replaces the bytes that are no UTF-8 and drops the fields that it is told to omit.
pub record Json (A : Type 0) : Type 0 where
  pub marshal : A → Option GoString
  pub unmarshal : GoString → Option A
  pub as_read : A → A
  pub unmarshal-marshal :
      (x : A) (text : GoString) → marshal x ≡ some text → unmarshal text ≡ some (as_read x)
