-- ===== src/Rest/Replies.antt =====
-- The steps that the handlers (internal/transport/rest/handler) share, each of which may answer at once.
use go_clean_arch_poc.Base.{ℕ, String, Option, none, some, ◌⊎◌, inl, inr}
use go_clean_arch_poc.Domain.Error.{Result, ok, err}
use go_clean_arch_poc.Rest.Response.{HttpLib, Payload, Response, handle_error}
use go_clean_arch_poc.Rest.Guards.{refuse}

module _ {S : Type 0} where
  -- A value that was read, or 400.
  abbrev pub given {ℓ} : {A : Type ℓ} → Option A → String → S → (A → S × Response) → S × Response
  given none message s next = (s, refuse 400 message)
  given (some a) message s next = next a

  -- A value that was read, or 400 with the text of the error.
  abbrev pub parsed {ℓ} : {A : Type ℓ} → String ⊎ A → S → (A → S × Response) → S × Response
  parsed (inl message) s next = (s, refuse 400 message)
  parsed (inr a) s next = next a

  -- `if !h.checkACL(...) { return }`
  abbrev pub allowed : Option Response → S → S × Response → S × Response
  allowed (some r) s next = (s, r)
  allowed none s next = next

  -- `if err != nil { handleError(w, err); return }`, and the status and body after it.
  abbrev pub answer {ℓ} : {A : Type ℓ} → HttpLib → ℕ → (A → Payload) → S × Result A → S × Response
  answer lib n payload (s, ok a) = (s, Response.json n (payload a))
  answer lib n payload (s, err e) = (s, handle_error lib e)

  abbrev pub answer_empty {ℓ} : {A : Type ℓ} → HttpLib → ℕ → S × Result A → S × Response
  answer_empty lib n (s, ok _) = (s, Response.empty n)
  answer_empty lib n (s, err e) = (s, handle_error lib e)
