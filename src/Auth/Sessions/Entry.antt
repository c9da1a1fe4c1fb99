-- ===== src/Auth/Sessions/Entry.antt =====
-- Who gets tokens: Login, Register and ChangePassword of AuthUseCase
-- (internal/application/usecase/auth/auth_usecase.go) against the passwords.
use go_clean_arch_poc.Base.{true, false, ◌≡◌, Option, none, some, List, [], ◌∷◌, ◌++◌, arith}
use go_clean_arch_poc.Base.Int.{Time}
use go_clean_arch_poc.Domain.Error.{ok, err, err_invalid_credentials}
use go_clean_arch_poc.Domain.Task.{Uuid}
use go_clean_arch_poc.Domain.Role.{Role}
use go_clean_arch_poc.Domain.User.{User, verify_password}
use go_clean_arch_poc.Auth.Sessions.{
  AuthUseCase, AuthState, AuthOutput, UserEvent, LoginInput, generate_auth_output, login,
}

-- The only role of a user.
abbrev pub only_role : List Role → Option Role
only_role (r ∷ []) = some r
only_role _ = none

module _ {C D : Type 0} (uc : AuthUseCase C D) where
  -- A Login that gives tokens gives them to the user that the database has under the email, whose
  -- password is the one given; it leaves the database as it is and publishes one event of that
  -- user.
  pub login-password :
      (now : Time) (access_id refresh_id : Uuid) (input : LoginInput) (s s' : AuthState C D)
      (out : AuthOutput)
      → login uc now access_id refresh_id input s ≡ (s', ok out)
      → (uc.user_repo.find_by_email input.email s.db ≡ ok (some out.user))
        × (verify_password uc.bcrypt input.password out.user ≡ true)
        × (s'.db ≡ s.db)
        × (s'.events ≡ s.events ++ UserEvent.user_logged_in out.user.id ∷ [])
  unfolding login generate_auth_output
  login-password now access_id refresh_id input s s' out h =
      (ground arith, ground arith, ground arith, ground arith)

  -- Of inputs that the validator accepts, Login answers an unknown email as it answers a wrong
  -- password, and changes nothing.
  pub login-unknown :
      (now : Time) (access_id refresh_id : Uuid) (input other : LoginInput) (s : AuthState C D)
      (u : User)
      → uc.validator.login input ≡ ok tt
      → uc.validator.login other ≡ ok tt
      → uc.user_repo.find_by_email input.email s.db ≡ ok none
      → uc.user_repo.find_by_email other.email s.db ≡ ok (some u)
      → verify_password uc.bcrypt other.password u ≡ false
      → (login uc now access_id refresh_id input s ≡ login uc now access_id refresh_id other s)
        × (login uc now access_id refresh_id input s ≡ (s, err err_invalid_credentials))
  unfolding login
  login-unknown now access_id refresh_id input other s u hi ho fi fo hv =
      (ground arith, ground arith)
