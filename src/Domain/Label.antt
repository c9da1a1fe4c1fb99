-- ===== src/Domain/Label.antt =====
-- Labels (internal/domain/entity/label.go).
use go_clean_arch_poc.Base.{GoString, [], str_eq, if◌then◌else◌}
use go_clean_arch_poc.Domain.Error.{Error, EntityError, Result, ok, err}
use go_clean_arch_poc.Domain.Task.{Uuid, Time}

pub record Label : Type 0 where
  pub id : Uuid
  pub name : GoString
  pub color : GoString
  pub created_at : Time
  pub updated_at : Time

unfoldable pub new_label : Time → Uuid → GoString → GoString → Result Label
new_label now id name color =
    if str_eq name []
    then err (Error.entity EntityError.empty_label_name)
    else if str_eq color []
    then err (Error.entity EntityError.empty_label_color)
    else ok (record { id = id; name = name; color = color; created_at = now; updated_at = now })

unfoldable pub update_name : Time → GoString → Label → Result Label
update_name now name l =
    if str_eq name []
    then err (Error.entity EntityError.empty_label_name)
    else ok (record l { name = name; updated_at = now })

unfoldable pub update_color : Time → GoString → Label → Result Label
update_color now color l =
    if str_eq color []
    then err (Error.entity EntityError.empty_label_color)
    else ok (record l { color = color; updated_at = now })
