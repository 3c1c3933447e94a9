-- ===== src/Tests/Accounts.antt =====
-- Examples of the accounts, with simple functions for the libraries of passwords and tokens.
use buddy_bet_v.Prelude.{
  ℕ, ℕ-eq, ◌+◌, ◌^◌, ◌≡◌, refl, subst, arith, false, Option, none, some, List, [], ◌∷◌, String,
  String-eq, ◌==◌, if◌then◌else◌,
}
use buddy_bet_v.Prelude.Int.{pos, ◌+ℤ◌}
use buddy_bet_v.Exec.{ok, err, unauthorized}
use buddy_bet_v.Exec.OnOk.{OnOk}
use buddy_bet_v.Models.{Uuid, DateTime, User}
use buddy_bet_v.Models.Enums.{BalanceField, available, locked}
use buddy_bet_v.Config.{AuthSettings}
use buddy_bet_v.Ledger.{ledger_balance}
use buddy_bet_v.Auth.{Claims, SecurityLibraries, reset_claims, create_password_reset_token, minutes}
use buddy_bet_v.Auth.Service.{
  AuthState, LoginRequest, RegisterRequest, register, login, token_response,
}
use buddy_bet_v.Auth.Dependencies.{get_current_user}
use buddy_bet_v.Auth.Tokens.{IsLawful, bearer, get_current_user-reset}
use buddy_bet_v.Auth.Lockout.{Attempt, AreWrong, login_each, IsWrong, login-locked}
use buddy_bet_v.Auth.Registration.{IsFresh, Registered, register-Registered, register-login}
use buddy_bet_v.Tests.Data.{demo, user_1}
use buddy_bet_v.Tests.Data.Facts.{demo-IsConsistent}

abbrev auth : AuthSettings
auth = record {
  app_env = "production";
  platform_currency = "ZAR";
  access_token_expire_minutes = 60;
  password_reset_token_expire_minutes = 15;
}

abbrev t : DateTime
t = 10 ^ 13

-- These libraries know one token, which resets the password of the first user.
abbrev known : Claims
known = record {
  sub = some "1";
  role = none;
  type = some "password_reset";
  iat = t;
  exp = t + minutes 15;
}

abbrev id_of_text : String → Option Uuid
id_of_text text = if text == "1" then some 1 else none

abbrev simple : SecurityLibraries
simple = record {
  hash_password = λ text. text;
  verify_password = λ text hash. text == hash;
  encode = λ _. "token";
  decode = λ _ _. some known;
  show_uuid = λ _. "1";
  parse_uuid = id_of_text;
  strip = λ text. text;
  normalise = λ text. text;
}

simple-IsLawful : IsLawful simple (reset_claims simple auth 1 t) 1
simple-IsLawful = record {
  decode_encode = λ _ _. refl;
  encode_given = refl;
  parse_show = refl;
  show_given = refl;
}

get_current_user-reset_example :
    get_current_user simple (bearer (create_password_reset_token simple auth 1 t)) (t + 5) demo
    ≡ (ok user_1, demo)
get_current_user-reset_example =
    get_current_user-reset simple auth user_1 demo refl t (t + 5) simple-IsLawful (omega arith)

abbrev guess : LoginRequest
guess = record { email = "one@example.org"; password = "guess" }

abbrev right : LoginRequest
right = record { email = "one@example.org"; password = "hash" }

abbrev start : AuthState
start = record { database = demo; attempts = λ _. [] }

abbrev other_guess : LoginRequest
other_guess = record { email = "one@example.org"; password = "another" }

abbrev attempt : LoginRequest → ℕ → Attempt
attempt request tick = record { request = request; tick = tick; tick' = tick + 1; at = t }

abbrev five : List Attempt
five =
    attempt guess 0
    ∷ attempt other_guess 10
    ∷ attempt guess 20
    ∷ attempt other_guess 30
    ∷ attempt guess 40
    ∷ []

abbrev guessed : AuthState
guessed = login_each simple auth five start

first_user : (user : User) → some user_1 ≡ some user → user_1 ≡ user
first_user user found = ground arith

guess-IsWrong : IsWrong simple auth guess demo
guess-IsWrong user found =
    subst (λ u. simple.verify_password guess.password u.password_hash ≡ false)
      (first_user user found) refl

other_guess-IsWrong : IsWrong simple auth other_guess demo
other_guess-IsWrong user found =
    subst (λ u. simple.verify_password other_guess.password u.password_hash ≡ false)
      (first_user user found) refl

five-AreWrong : AreWrong simple auth "one@example.org" 100 demo five
five-AreWrong = (
  (refl, guess-IsWrong, omega arith, omega arith, refl),
  (
    (refl, other_guess-IsWrong, omega arith, omega arith, refl),
    (
      (refl, guess-IsWrong, omega arith, omega arith, refl),
      (
        (refl, other_guess-IsWrong, omega arith, omega arith, refl),
        ((refl, guess-IsWrong, omega arith, omega arith, refl), tt),
      ),
    ),
  ),
)

login-locked_example : (login simple auth right 100 100 t guessed).0 ≡ err unauthorized
login-locked_example =
    login-locked simple auth "one@example.org" 100 five start five-AreWrong refl (omega arith) right
      100 t refl

abbrev newcomer : RegisterRequest
newcomer = record {
  email = "three@example.org";
  display_name = "Three";
  password = "password";
  phone_number = none;
}

no_entry_3 : (field : BalanceField) → ledger_balance 3 field demo.ledger_entries ≡ pos 0
unfolding ◌+ℤ◌
no_entry_3 available = refl
no_entry_3 locked = refl

three-IsFresh : IsFresh 3 demo
unfolding ◌+ℤ◌
three-IsFresh = record { no_hold = refl; no_entry = no_entry_3 }

register-Registered_example :
    OnOk (Registered simple auth newcomer 3 13 t demo) (register simple auth newcomer 3 13 t demo)
register-Registered_example =
    register-Registered simple auth newcomer 3 13 t demo demo-IsConsistent three-IsFresh

register-login_example :
    OnOk
      (λ response db'.
        (login simple auth
          record { email = "three@example.org"; password = "password" }
          5
          6
          t
          record { database = db'; attempts = λ _. [] }).0
        ≡ ok (token_response simple auth response.user t))
      (register simple auth newcomer 3 13 t demo)
register-login_example = register-login simple auth newcomer 3 13 t demo refl (λ _. []) refl 5 6 t
