-- ===== src/Auth/Dependencies.antt =====
-- app/core/dependencies.py: the user of a request.
use buddy_bet_v.Prelude.{Option, none, some, String, String-eq, ◌==◌, ◌!=◌, if◌then◌else◌}
use buddy_bet_v.Exec.{
  Result, ok, err, Exec, gets, pure, raise_if, some_or_raise, forbidden, unauthorized, ◌>>=◌, ◌>>◌,
}
use buddy_bet_v.Models.{Uuid, DateTime, User, Database}
use buddy_bet_v.Auth.{
  SecurityLibraries, role_value, claim_or_raise, decode_access_token, extract_user_id, user_of_id,
}

-- The header of the request: a scheme, already in lower case, and what follows it.
pub record Credentials : Type 0 where
  pub scheme : String
  pub credentials : String

unfoldable pub extract_token : Option Credentials → Option String
extract_token none = none
extract_token (some header) = if header.scheme != "bearer" then none else some header.credentials

unfoldable pub load_user : Uuid → Exec Database User
load_user user_id = do user ← gets (user_of_id user_id); some_or_raise unauthorized user

module _ (lib : SecurityLibraries) where
  abbrev pub user_of_token : String → DateTime → Exec Database User
  user_of_token token now = do
    payload ← decode_access_token lib token now
    user_id ← extract_user_id lib payload
    load_user user_id

  unfoldable pub get_current_user : Option Credentials → DateTime → Exec Database User
  get_current_user header now = do
    token ← claim_or_raise (extract_token header)
    user_of_token token now

  -- `except UnauthorizedError: return None`
  abbrev pub or_none : {S : Type 0} → Result User × S → Result (Option User) × S
  or_none (ok user, s) = (ok (some user), s)
  or_none (err unauthorized, s) = (ok none, s)
  or_none (err e, s) = (err e, s)

  abbrev pub user_if_token : Option String → DateTime → Exec Database (Option User)
  user_if_token none now db = (ok none, db)
  user_if_token (some token) now db =
      if token == "" then (ok none, db) else or_none (user_of_token token now db)

  unfoldable pub optional_current_user : Option Credentials → DateTime → Exec Database (Option User)
  optional_current_user header now = user_if_token (extract_token header) now

  unfoldable pub get_current_admin : Option Credentials → DateTime → Exec Database User
  get_current_admin header now = do
    user ← get_current_user header now
    raise_if (role_value user.role != "admin") forbidden
    pure user
