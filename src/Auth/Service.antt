-- ===== src/Auth/Service.antt =====
-- app/services/auth_service.py: registration, login and the reset of a password.
use buddy_bet_v.Prelude.{
  ℕ, ◌*◌, Bool, Option, none, some, ◌∷◌, String, String-eq, not, ◌==◌, if◌then◌else◌,
}
use buddy_bet_v.Prelude.Int.{pos}
use buddy_bet_v.Exec.{
  Exec, gets, pure, raise, modify, raise_if, conflict, unauthorized, ◌>>=◌, ◌>>◌,
}
use buddy_bet_v.Models.{Uuid, DateTime, User, Wallet, Database}
use buddy_bet_v.Matches.Settlement.{is_some}
use buddy_bet_v.Config.{AuthSettings}
use buddy_bet_v.Auth.{
  SecurityLibraries, role_value, create_access_token, create_password_reset_token,
  verify_password_reset_token, get_by_email, get_user_or_404, create_user, set_user,
}
use buddy_bet_v.Auth.Tracker.{Attempts, is_locked, record_failure, clear}

-- The database of the session, and the tracker of the process.
pub record AuthState : Type 0 where
  pub database : Database
  pub attempts : Attempts

pub record RegisterRequest : Type 0 where
  pub email : String
  pub display_name : String
  pub password : String
  pub phone_number : Option String

pub record LoginRequest : Type 0 where
  pub email : String
  pub password : String

pub record TokenResponse : Type 0 where
  pub access_token : String
  pub token_type : String
  pub expires_in : ℕ
  pub user : User

abbrev pub new_wallet : Uuid → Uuid → String → Wallet
new_wallet new_id user_id currency = record {
  id = new_id;
  user_id = user_id;
  available_balance = pos 0;
  locked_balance = pos 0;
  currency = currency;
  version = 0;
}

abbrev pub add_wallet : Wallet → Database → Database
add_wallet wallet db = record db { wallets = wallet ∷ db.wallets }

module _ (lib : SecurityLibraries) (settings : AuthSettings) where
  abbrev pub token_response : User → DateTime → TokenResponse
  token_response user now = record {
    access_token = create_access_token lib settings user.id (role_value user.role) now;
    token_type = "bearer";
    expires_in = settings.access_token_expire_minutes * 60;
    user = user;
  }

  unfoldable pub register : RegisterRequest → Uuid → Uuid → DateTime → Exec Database TokenResponse
  register request user_id wallet_id now = do
    let email = lib.normalise request.email
    existing ← gets (get_by_email lib email)
    raise_if (is_some existing) conflict
    user ←
        create_user lib email request.display_name (lib.hash_password request.password)
          request.phone_number user_id
    modify (add_wallet (new_wallet wallet_id user.id settings.platform_currency))
    pure (token_response user now)

  unfoldable pub forgot_password : String → DateTime → Database → Option String
  forgot_password email now db = elim (get_by_email lib (lib.normalise email) db) [
    | none ↦ none
    | some user ↦
        if settings.app_env == "development"
        then some (create_password_reset_token lib settings user.id now)
        else none
  ]

  unfoldable pub reset_password : String → String → DateTime → Exec Database (Unit {0})
  reset_password token new_password now = do
    user_id ← verify_password_reset_token lib token now
    user ← get_user_or_404 user_id
    modify (set_user (record user { password_hash = lib.hash_password new_password }))

  abbrev pub on_attempts : (Attempts → Attempts) → Exec AuthState (Unit {0})
  on_attempts f = modify (λ s. record s { attempts = f s.attempts })

  abbrev pub check_locked : String → ℕ → Exec AuthState Bool
  check_locked email tick = do
    locked ← gets (λ s. (is_locked email tick s.attempts).0)
    on_attempts (λ attempts. (is_locked email tick attempts).1)
    pure locked

  -- `record_failure`, and the exception
  abbrev pub refuse : {A : Type 0} → String → ℕ → Exec AuthState A
  refuse email tick = do on_attempts (record_failure email tick); raise unauthorized

  abbrev pub check_password : LoginRequest → String → ℕ → Option User → Exec AuthState User
  check_password request email tick none = refuse email tick
  check_password request email tick (some user) =
      if not (lib.verify_password request.password user.password_hash)
      then refuse email tick
      else pure user

  -- `tick` and `tick'` are the two readings of the monotonic clock.
  unfoldable pub login : LoginRequest → ℕ → ℕ → DateTime → Exec AuthState TokenResponse
  login request tick tick' now = do
    let email = lib.normalise request.email
    locked ← check_locked email tick
    raise_if locked unauthorized
    found ← gets (λ s. get_by_email lib email s.database)
    user ← check_password request email tick' found
    on_attempts (clear email)
    pure (token_response user now)
