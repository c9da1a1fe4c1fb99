-- ===== src/Tasks/Files.antt =====
-- What happens to the objects in the file storage when TaskUseCase
-- (internal/application/usecase/task/task_usecase.go) deletes tasks and attachments.
use go_clean_arch_poc.Base.{
  GoString, ◌≡◌, ◌∙◌, ap, true, refl, arith, Option, none, some, List, [], ◌∷◌,
}
use go_clean_arch_poc.Domain.Error.{Result, ok, err, err_task_not_found}
use go_clean_arch_poc.Domain.Task.{Uuid}
use go_clean_arch_poc.Domain.TaskAttachment.{TaskAttachment}
use go_clean_arch_poc.Domain.Event.{new_task_attachment_cleanup_requested}
use go_clean_arch_poc.Auth.Jwt.{TokenClaims}
use go_clean_arch_poc.Auth.Sessions.Attempts.{attempt-ok, attempt_some-ok}
use go_clean_arch_poc.Tasks.Ports.{
  FileStorage, EventPublisher, TaskAttachmentOutput, TaskState, TaskUseCase,
}
use go_clean_arch_poc.Tasks.Shared.{topic_task_events, invalidate_task_caches}
use go_clean_arch_poc.Tasks.Writing.{
  present, publish_attachment_cleanup_requested, delete_attachment_object,
  delete_attachment_objects, delete_task,
}
use go_clean_arch_poc.Tasks.Attachments.{
  ensure_file_storage_available, of_task, attachment_output, download_task_attachment,
}

module _ {C D F P : Type 0} (uc : TaskUseCase C D F P) where
  -- The object of a key is off the hands of the use case: the storage has deleted it, or the publisher
  -- has taken the request to delete it later.
  pub data Settled (task_id attachment_id : Uuid) (key : GoString) (s s' : TaskState C D F P)
      : Type 0 where
    deleted :
        (storage : FileStorage F)
        → uc.file_storage ≡ some storage
        → storage.delete key s.files ≡ (s'.files, ok tt)
        → s'.published ≡ s.published
        → Settled task_id attachment_id key s s'
    requested :
        (publisher : EventPublisher P)
        → uc.event_publisher ≡ some publisher
        → publisher.publish topic_task_events
            (new_task_attachment_cleanup_requested task_id attachment_id key)
            s.published
          ≡ (s'.published, ok tt)
        → Settled task_id attachment_id key s s'

  -- The objects of a list of attachments, one after another.
  abbrev pub AllSettled :
      Uuid → List TaskAttachment → TaskState C D F P → TaskState C D F P → Type 0
  AllSettled task_id [] s s' = s' ≡ s
  AllSettled task_id (a ∷ more) s s' =
      (s1 : TaskState C D F P) × Settled task_id a.id a.s3_key s s1 × AllSettled task_id more s1 s'

  requested-ok :
      (task_id attachment_id : Uuid) (key : GoString) (s s' : TaskState C D F P)
      → publish_attachment_cleanup_requested uc task_id attachment_id key s ≡ (s', ok tt)
      → (publisher : EventPublisher P) × (uc.event_publisher ≡ some publisher)
        × (publisher.publish topic_task_events
              (new_task_attachment_cleanup_requested task_id attachment_id key)
              s.published
            ≡ (s'.published, ok tt))
        × (s'.db ≡ s.db)
        × (s'.cache ≡ s.cache)
  unfolding publish_attachment_cleanup_requested
  requested-ok task_id attachment_id key s s' h = elim-publisher uc.event_publisher refl
    where
      elim-publisher :
          (o : Option (EventPublisher P))
          → uc.event_publisher ≡ o
          → (publisher : EventPublisher P) × (uc.event_publisher ≡ some publisher)
            × (publisher.publish topic_task_events
                  (new_task_attachment_cleanup_requested task_id attachment_id key)
                  s.published
                ≡ (s'.published, ok tt))
            × (s'.db ≡ s.db)
            × (s'.cache ≡ s.cache)
      elim-publisher none e = ground arith
      elim-publisher (some publisher) e = (publisher, e, ground arith, ground arith, ground arith)

  abbrev SettledOnly : Uuid → Uuid → GoString → TaskState C D F P → TaskState C D F P → Type 0
  SettledOnly task_id attachment_id key s s' =
      Settled task_id attachment_id key s s' × (s'.db ≡ s.db) × (s'.cache ≡ s.cache)

  -- A call that deletes an object and returns no error has settled it, and touched neither the database
  -- nor the cache.
  settled :
      (task_id attachment_id : Uuid) (key : GoString) (s s' : TaskState C D F P)
      → delete_attachment_object uc task_id attachment_id key s ≡ (s', ok tt)
      → SettledOnly task_id attachment_id key s s'
  unfolding delete_attachment_object
  settled task_id attachment_id key s s' h = elim-storage uc.file_storage refl
    where
      by_request :
          (s1 : TaskState C D F P)
          → s1.published ≡ s.published
          → s1.db ≡ s.db
          → s1.cache ≡ s.cache
          → publish_attachment_cleanup_requested uc task_id attachment_id key s1 ≡ (s', ok tt)
          → SettledOnly task_id attachment_id key s s'
      by_request s1 ep ed ec k =
          let (publisher, e, q, d, c) = requested-ok task_id attachment_id key s1 s' k in
          (Settled.requested publisher e (ground arith), ground arith, ground arith)

      elim-deleted :
          (storage : FileStorage F) (o : F × Result (Unit {0}))
          → uc.file_storage ≡ some storage
          → storage.delete key s.files ≡ o
          → SettledOnly task_id attachment_id key s s'
      elim-deleted storage (f, ok u) e d =
          (Settled.deleted storage e (ground arith) (ground arith), ground arith, ground arith)
      elim-deleted storage (f, err x) e d =
          by_request (record s { files = f }) refl refl refl (ground arith)

      elim-storage :
          (o : Option (FileStorage F))
          → uc.file_storage ≡ o
          → SettledOnly task_id attachment_id key s s'
      elim-storage none e = by_request s refl refl refl (ground arith)
      elim-storage (some storage) e = elim-deleted storage (storage.delete key s.files) e refl

  all_settled :
      (task_id : Uuid) (more : List TaskAttachment) (s s' : TaskState C D F P)
      → delete_attachment_objects uc task_id more s ≡ (s', ok tt)
      → AllSettled task_id more s s' × (s'.db ≡ s.db) × (s'.cache ≡ s.cache)
  unfolding delete_attachment_objects
  all_settled task_id [] s s' h = (ground arith, ground arith, ground arith)
  all_settled task_id (a ∷ more) s s' h =
      let one = delete_attachment_object uc task_id a.id a.s3_key s in
      let (u, r, k) = attempt-ok one.1 one.0 s' _ tt h in
      let (first, d, c) = settled task_id a.id a.s3_key s one.0 (ap (λ x. (one.0, x)) r) in
      let (rest, d', c') = all_settled task_id more one.0 s' k in
      ((one.0, first, rest), d' ∙ d, c' ∙ c)

  -- A DeleteTask that returns no error has first settled every object of the attachments that the
  -- database lists for the task, in order: the storage has deleted it, or the publisher has taken
  -- the request to delete it; then it has deleted the task and invalidated its caches.
  pub delete_task-ok :
      (ctx : Option TokenClaims) (id : Uuid) (s s' : TaskState C D F P)
      → delete_task uc ctx id s ≡ (s', ok tt)
      → (attachments : List TaskAttachment) × (s1 : TaskState C D F P) × (uc.task_repo.exists_by_id
            id s.db
          ≡ ok true)
        × (uc.attachment_repo.find_attachments_by_task_id id s.db ≡ ok attachments)
        × AllSettled id attachments s s1
        × (uc.task_repo.delete id s.db ≡ ok s'.db)
        × (s'.files ≡ s1.files)
        × (s'.cache ≡ invalidate_task_caches uc id s.cache)
  unfolding delete_task
  delete_task-ok ctx id s s' h =
      let (u0, e, h1) =
        attempt-ok (present uc (uc.task_repo.exists_by_id id s.db) err_task_not_found) s s' _ tt
          h in
      let (attachments, f, h2) =
        attempt-ok (uc.attachment_repo.find_attachments_by_task_id id s.db) s s' _ tt h1 in
      let o = delete_attachment_objects uc id attachments s in
      let (u1, r, h3) = attempt-ok o.1 o.0 s' _ tt h2 in
      let (all, d, c) = all_settled id attachments s o.0 (ap (λ x. (o.0, x)) r) in
      let (db, w, h4) = attempt-ok (uc.task_repo.delete id o.0.db) o.0 s' _ tt h3 in
      (attachments, o.0, ground arith, f, all, ground arith, ground arith, ground arith)

  own_task :
      (task_id : Uuid) (a : TaskAttachment) (u : Unit {0})
      → of_task task_id a ≡ ok u
      → a.task_id ≡ task_id
  own_task task_id a u h = ground arith

  -- A download that returns no error gives the content of the object of an attachment that the database
  -- has for that id and that task, and changes nothing.
  pub download_task_attachment-ok :
      (task_id attachment_id : Uuid) (s s' : TaskState C D F P) (content : GoString)
      (out : TaskAttachmentOutput)
      → download_task_attachment uc task_id attachment_id s ≡ (s', ok (content, out))
      → (a : TaskAttachment) × (storage : FileStorage F) × (uc.attachment_repo.find_attachment_by_id
            attachment_id s.db
          ≡ ok (some a))
        × (a.task_id ≡ task_id)
        × (storage.download a.s3_key s.files ≡ ok content)
        × (out ≡ attachment_output a)
        × (s' ≡ s)
  unfolding download_task_attachment
  download_task_attachment-ok task_id attachment_id s s' content out h =
      let (storage, e, h1) = attempt-ok (ensure_file_storage_available uc) s s' _ _ h in
      let (a, f, h2) =
        attempt_some-ok (uc.attachment_repo.find_attachment_by_id attachment_id s.db) _ s s' _ _
          h1 in
      let (u, o, h3) = attempt-ok (of_task task_id a) s s' _ _ h2 in
      (a, storage, f, own_task task_id a u o, ground arith, ground arith, ground arith)
