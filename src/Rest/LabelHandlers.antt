-- ===== src/Rest/LabelHandlers.antt =====
-- LabelHandler (internal/transport/rest/handler/label_handler.go).
use go_clean_arch_poc.Base.{bytes, ◌<|◌}
use go_clean_arch_poc.Domain.Error.{ok, ◌>>=◌}
use go_clean_arch_poc.Labels.{create_label, update_label, delete_label, get_label, list_labels}
use go_clean_arch_poc.Service.{Service, on_labels, done}
use go_clean_arch_poc.Rest.Response.{HttpLib, Payload}
use go_clean_arch_poc.Rest.Guards.{Handler}
use go_clean_arch_poc.Rest.Replies.{given, answer, answer_empty}
use go_clean_arch_poc.Rest.TaskHandlers.{id_in}

module _ {C D F P : Type 0} (svc : Service C D F P) (lib : HttpLib) where
  unfoldable pub create : Handler svc lib
  create at ctx req s = given (lib.create_label req.body) "Invalid request body" s <| λ input.
      answer lib 201 Payload.label
        (on_labels (create_label svc.label_repo svc.label_validator at.now at.first_id input) s)

  unfoldable pub list : Handler svc lib
  list at ctx req s =
      answer lib 200 Payload.labels (s, list_labels svc.label_repo svc.label_validator s.db)

  unfoldable pub get : Handler svc lib
  get at ctx req s = given (id_in svc lib req (bytes "id")) "Invalid label ID" s <| λ id.
      answer lib 200 Payload.label (s, get_label svc.label_repo svc.label_validator id s.db)

  unfoldable pub update : Handler svc lib
  update at ctx req s = given (id_in svc lib req (bytes "id")) "Invalid label ID" s <| λ id.
      given (lib.update_label req.body) "Invalid request body" s <| λ input.
      answer lib 200 Payload.label
        (on_labels (update_label svc.label_repo svc.label_validator at.now id input) s)

  unfoldable pub delete : Handler svc lib
  delete at ctx req s = given (id_in svc lib req (bytes "id")) "Invalid label ID" s <| λ id.
      answer_empty lib 204 (
        on_labels (λ d. delete_label svc.label_repo svc.label_validator id d >>= λ d'. ok (done d'))
          s)
