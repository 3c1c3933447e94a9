-- ===== src/Auth/Tokens.antt =====
-- Which tokens the dependencies of the endpoints accept (app/core/security.py,
-- app/core/dependencies.py).
use buddy_bet_v.Prelude.{◌≡◌, refl, ◌+◌, ◌≤◌, false, Option, some, String, String-eq, ◌==◌, ℕ-eq}
use buddy_bet_v.Exec.{ok, err, unauthorized}
use buddy_bet_v.Models.{Uuid, DateTime, User, Database}
use buddy_bet_v.Config.{AuthSettings}
use buddy_bet_v.Auth.{
  Claims, SecurityLibraries, minutes, access_claims, reset_claims, create_access_token,
  create_password_reset_token, decode_access_token, extract_user_id, verify_password_reset_token,
  user_of_id,
}
use buddy_bet_v.Auth.Dependencies.{Credentials, extract_token, load_user, get_current_user}

-- What the libraries promise of a token and of the id of a user: the signed token, which is not empty,
-- decodes to its payload until it expires, and the text of the id, which is not empty, parses to it.
pub record IsLawful (lib : SecurityLibraries) (payload : Claims) (id : Uuid) : Type 0 where
  pub decode_encode :
      (now : DateTime) → now ≤ payload.exp → lib.decode now (lib.encode payload) ≡ some payload
  pub encode_given : (lib.encode payload == "") ≡ false
  pub parse_show : lib.parse_uuid (lib.show_uuid id) ≡ some id
  pub show_given : (lib.show_uuid id == "") ≡ false

abbrev pub bearer : String → Option Credentials
bearer token = some record { scheme = "bearer"; credentials = token }

module _ (lib : SecurityLibraries) (settings : AuthSettings) (user : User) (db : Database)
    (found : user_of_id user.id db ≡ some user) (issued now : DateTime) where
  -- A token whose subject is the user stands for the user, whatever its other claims are.
  user-of-sub :
      (payload : Claims)
      → IsLawful lib payload user.id
      → payload.sub ≡ some (lib.show_uuid user.id)
      → now ≤ payload.exp
      → get_current_user lib (bearer (lib.encode payload)) now db ≡ (ok user, db)
  unfolding get_current_user extract_token load_user decode_access_token extract_user_id
  user-of-sub payload lawful named live =
      rw
        (
          lawful.encode_given,
          lawful.decode_encode now live,
          named,
          lawful.show_given,
          lawful.parse_show,
          found,
        )
        refl

  -- Until it expires, an access token that was issued to a user stands for the user.
  pub get_current_user-access :
      (role : String)
      → IsLawful lib (access_claims lib settings user.id role issued) user.id
      → now ≤ issued + minutes settings.access_token_expire_minutes
      → get_current_user lib (bearer (create_access_token lib settings user.id role issued)) now db
        ≡ (ok user, db)
  unfolding create_access_token
  get_current_user-access role lawful live =
      user-of-sub (access_claims lib settings user.id role issued) lawful refl live

  -- With libraries that decode a token that they signed, and parse an id that they printed: until
  -- it expires, a token that was issued to reset the password of a user is accepted as an access
  -- token of the user, too.
  pub get_current_user-reset :
      IsLawful lib (reset_claims lib settings user.id issued) user.id
      → now ≤ issued + minutes settings.password_reset_token_expire_minutes
      → get_current_user lib
          (bearer (create_password_reset_token lib settings user.id issued))
          now
          db
        ≡ (ok user, db)
  unfolding create_password_reset_token
  get_current_user-reset lawful live =
      user-of-sub (reset_claims lib settings user.id issued) lawful refl live

  -- An access token does not reset a password.
  pub verify_password_reset_token-access :
      (role : String)
      → IsLawful lib (access_claims lib settings user.id role issued) user.id
      → now ≤ issued + minutes settings.access_token_expire_minutes
      → verify_password_reset_token lib
          (create_access_token lib settings user.id role issued)
          now
          db
        ≡ (err unauthorized, db)
  unfolding verify_password_reset_token create_access_token
  verify_password_reset_token-access role lawful live = rw (lawful.decode_encode now live) refl
