-- ===== src/Auth/Sessions/Attempts.antt =====
-- What it means that a chain of calls that pass their errors on returns no error.
use go_clean_arch_poc.Base.{◌≡◌, refl, arith, Option, none, some}
use go_clean_arch_poc.Domain.Error.{Error, Result, ok, err}
use go_clean_arch_poc.Auth.Sessions.Ports.{attempt, attempt_some}

pub attempt-ok {ℓ κ μ} :
    {S : Type ℓ} {A : Type κ} {B : Type μ} (r : Result A) (s s' : S) (k : A → S × Result B) (b : B)
    → attempt r s k ≡ (s', ok b)
    → (a : A) × (r ≡ ok a) × (k a ≡ (s', ok b))
attempt-ok (ok a) s s' k b h = (a, refl, h)
attempt-ok (err e) s s' k b h = ground arith

pub attempt_some-ok {ℓ κ μ} :
    {S : Type ℓ} {A : Type κ} {B : Type μ} (r : Result (Option A)) (absent : Error) (s s' : S)
    (k : A → S × Result B) (b : B)
    → attempt_some r absent s k ≡ (s', ok b)
    → (a : A) × (r ≡ ok (some a)) × (k a ≡ (s', ok b))
attempt_some-ok (ok (some a)) absent s s' k b h = (a, refl, h)
attempt_some-ok (ok none) absent s s' k b h = ground arith
attempt_some-ok (err e) absent s s' k b h = ground arith
