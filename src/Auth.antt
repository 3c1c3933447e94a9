-- ===== src/Auth.antt =====
-- app/core/security.py: the tokens, with the libraries that hash passwords and sign tokens as
-- parameters; and app/repositories/user_repository.py.
pub mod Tracker
pub mod Service
pub mod Dependencies
pub mod Tokens
pub mod Lockout
pub mod Registration
use buddy_bet_v.Prelude.{
  ℕ, ℕ-eq, ◌+◌, ◌*◌, ◌^◌, Option, none, some, List, [], ◌∷◌, String, String-eq, Bool, false, not,
  ◌==◌, if◌then◌else◌,
}
use buddy_bet_v.Exec.{
  Exec, gets, pure, raise, modify, raise_if, some_or_raise, not_found, unauthorized, ◌>>=◌, ◌>>◌,
}
use buddy_bet_v.Table.{find, update}
use buddy_bet_v.Models.{Uuid, DateTime, User, Database}
use buddy_bet_v.Models.Enums.{UserRole, UserStatus}
use buddy_bet_v.Config.{AuthSettings}

-- The payload of a token.
pub record Claims : Type 0 where
  pub sub : Option String
  pub role : Option String
  pub type : Option String
  pub iat : DateTime
  pub exp : DateTime

-- What the code calls of passlib, jose, uuid and of the methods of texts. `encode` and `decode` have the
-- key and the algorithm of the settings; `decode` looks at the time.
pub record SecurityLibraries : Type 0 where
  pub hash_password : String → String
  pub verify_password : String → String → Bool
  pub encode : Claims → String
  pub decode : DateTime → String → Option Claims
  pub show_uuid : Uuid → String
  pub parse_uuid : String → Option Uuid
  -- `text.strip()`
  pub strip : String → String
  -- `text.lower().strip()`
  pub normalise : String → String

abbrev pub minutes : ℕ → DateTime
minutes n = n * (60 * 10 ^ 6)

abbrev pub role_value : UserRole → String
role_value UserRole.user = "user"
role_value UserRole.admin = "admin"

-- `value = payload.get(claim); if not value: raise`
abbrev pub claim_or_raise : {S : Type 0} → Option String → Exec S String
claim_or_raise none = raise unauthorized
claim_or_raise (some text) = if text == "" then raise unauthorized else pure text

module _ (lib : SecurityLibraries) (settings : AuthSettings) where
  abbrev pub access_claims : Uuid → String → DateTime → Claims
  access_claims user_id role now = record {
    sub = some (lib.show_uuid user_id);
    role = some role;
    type = none;
    iat = now;
    exp = now + minutes settings.access_token_expire_minutes;
  }

  unfoldable pub create_access_token : Uuid → String → DateTime → String
  create_access_token user_id role now = lib.encode (access_claims user_id role now)

  abbrev pub reset_claims : Uuid → DateTime → Claims
  reset_claims user_id now = record {
    sub = some (lib.show_uuid user_id);
    role = none;
    type = some "password_reset";
    iat = now;
    exp = now + minutes settings.password_reset_token_expire_minutes;
  }

  unfoldable pub create_password_reset_token : Uuid → DateTime → String
  create_password_reset_token user_id now = lib.encode (reset_claims user_id now)

-- `payload.get("type") == "password_reset"`
abbrev pub is_reset : Option String → Bool
is_reset none = false
is_reset (some type) = type == "password_reset"

module _ (lib : SecurityLibraries) {S : Type 0} where
  unfoldable pub decode_access_token : String → DateTime → Exec S Claims
  decode_access_token token now = some_or_raise unauthorized (lib.decode now token)

  unfoldable pub extract_user_id : Claims → Exec S Uuid
  extract_user_id payload = do
    sub ← claim_or_raise payload.sub
    some_or_raise unauthorized (lib.parse_uuid sub)

  unfoldable pub extract_role : Claims → Exec S String
  extract_role payload = claim_or_raise payload.role

  unfoldable pub verify_password_reset_token : String → DateTime → Exec S Uuid
  verify_password_reset_token token now = do
    payload ← some_or_raise unauthorized (lib.decode now token)
    raise_if (not (is_reset payload.type)) unauthorized
    sub ← claim_or_raise payload.sub
    some_or_raise unauthorized (lib.parse_uuid sub)

abbrev pub user_id_of : User → Uuid
user_id_of row = row.id

abbrev pub email_of : User → String
email_of row = row.email

abbrev pub user_of_id : Uuid → Database → Option User
user_of_id user_id db = find user_id_of user_id db.users

-- `get_by_email`, which normalises what it is given
abbrev pub get_by_email : SecurityLibraries → String → Database → Option User
get_by_email lib email db = find email_of (lib.normalise email) db.users

unfoldable pub get_user_or_404 : Uuid → Exec Database User
get_user_or_404 user_id = do row ← gets (user_of_id user_id); some_or_raise not_found row

-- `create`, with the defaults of the columns
unfoldable pub create_user :
    SecurityLibraries → String → String → String → Option String → Uuid → Exec Database User
create_user lib email display_name password_hash phone_number new_id = do
  let user : User = record {
    id = new_id;
    email = lib.normalise email;
    phone_number = phone_number;
    display_name = lib.strip display_name;
    password_hash = password_hash;
    role = UserRole.user;
    status = UserStatus.active;
  }
  modify (λ db. record db { users = user ∷ db.users })
  pure user

-- The flush of changes to a user's row.
abbrev pub set_user : User → Database → Database
set_user user db = record db { users = update user_id_of user.id (λ _. user) db.users }
