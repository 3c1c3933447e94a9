-- ===== src/Auth/Registration.antt =====
-- The registration of app/services/auth_service.py, and the first login.
use buddy_bet_v.Prelude.{
  ℕ, ℕ-eq, ◌≡◌, refl, sym, subst, ◌∙◌, arith, inl, inr, true, false, Bool-cases, Option, none, some,
  List, [], ◌∷◌, String, String-eq, ◌==◌, beq_self,
}
use buddy_bet_v.Prelude.Int.{ℤ, pos, ◌+ℤ◌, int_laws}
use buddy_bet_v.Exec.{ok, conflict}
use buddy_bet_v.Exec.OnOk.{OnOk, OnOk-raise_if}
use buddy_bet_v.Models.{Uuid, DateTime, User, Wallet, Database}
use buddy_bet_v.Models.Enums.{UserRole, UserStatus, BalanceField, available, locked}
use buddy_bet_v.Config.{AuthSettings}
use buddy_bet_v.Ledger.{ledger_balance}
use buddy_bet_v.Wallet.{wallet_of}
use buddy_bet_v.Wallet.Posting.{IsGood, balance}
use buddy_bet_v.Wallet.Reconcile.{total_holdings}
use buddy_bet_v.Platform.Laws.{platform_total}
use buddy_bet_v.Escrow.{IsConsistent, held}
use buddy_bet_v.Escrow.BetMoves.{Conserved}
use buddy_bet_v.Matches.Settlement.{is_some}
use buddy_bet_v.Auth.{SecurityLibraries, create_user, get_by_email}
use buddy_bet_v.Auth.Tracker.{Attempts, is_locked, prune}
use buddy_bet_v.Auth.Service.{
  RegisterRequest, TokenResponse, register, login, new_wallet, add_wallet, token_response,
}

-- The new id stands nowhere yet.
pub record IsFresh (user_id : Uuid) (db : Database) : Type 0 where
  pub no_hold : held user_id db ≡ pos 0
  pub no_entry : (field : BalanceField) → ledger_balance user_id field db.ledger_entries ≡ pos 0

-- What holds of the old wallets and of the new one.
every_wallet :
    (P : Uuid → Wallet → Type 0) (new : Wallet) (db : Database)
    → P new.user_id new
    → ((j : Uuid) (w : Wallet) → wallet_of j db ≡ some w → P j w)
    → (j : Uuid) (w : Wallet) → wallet_of j (add_wallet new db) ≡ some w
    → P j w
every_wallet P new db first rest j w found = elim (Bool-cases (new.user_id == j)) [
  | inl same ↦
      let is_new : new ≡ w = ground (arith, same, found) in
      subst (λ k. P k w) ((ℕ-eq.equal_iff new.user_id j).0 same)
        (subst (P new.user_id) is_new first)
  | inr other ↦ rest j w (ground (arith, other, found))
]

zero_balance :
    (wallet_id user_id : Uuid) (currency : String) (field : BalanceField)
    → balance field (new_wallet wallet_id user_id currency) ≡ pos 0
zero_balance wallet_id user_id currency available = refl
zero_balance wallet_id user_id currency locked = refl

nothing_added : (t p : ℤ) → ((pos 0 +ℤ pos 0) +ℤ t) +ℤ p ≡ t +ℤ p
nothing_added t p = omega int_laws

add_wallet-IsConsistent :
    (wallet_id user_id : Uuid) (currency : String) (db : Database)
    → IsFresh user_id db
    → IsConsistent db
    → Conserved db (add_wallet (new_wallet wallet_id user_id currency) db)
add_wallet-IsConsistent wallet_id user_id currency db fresh c =
    let new = new_wallet wallet_id user_id currency in
    (
      record {
        sound = record {
          wallets =
              every_wallet (λ _ w. IsGood w) new db
                ((refl, refl), (refl, refl), omega arith, omega arith) c.sound.wallets;
          accounts = c.sound.accounts;
          rates = c.sound.rates;
          bets = c.sound.bets;
        };
        reconciled = λ j field.
            every_wallet (λ k w. balance field w ≡ ledger_balance k field db.ledger_entries) new db
              (zero_balance wallet_id user_id currency field ∙ sym (fresh.no_entry field))
              (λ k w found. c.reconciled k field w found) j;
        escrowed =
            every_wallet (λ k w. w.locked_balance ≡ held k db) new db (sym fresh.no_hold)
              c.escrowed;
        withdrawals = c.withdrawals;
        deposits = c.deposits;
      },
      nothing_added (total_holdings db) (platform_total db),
    )

not_taken : (o : Option User) → is_some o ≡ false → o ≡ none
not_taken o free = ground arith

users-Conserved :
    (users : List User) (db db' : Database)
    → Conserved db db'
    → Conserved db (record db' { users = users })
users-Conserved users db db' (c, same) = (
  record {
    sound = record {
      wallets = c.sound.wallets;
      accounts = c.sound.accounts;
      rates = c.sound.rates;
      bets = c.sound.bets;
    };
    reconciled = c.reconciled;
    escrowed = c.escrowed;
    withdrawals = c.withdrawals;
    deposits = c.deposits;
  },
  same,
)

module _ (lib : SecurityLibraries) (settings : AuthSettings) (request : RegisterRequest)
    (user_id wallet_id : Uuid) (now : DateTime) (db : Database) where
  abbrev email : String
  email = lib.normalise request.email

  abbrev new_user : User
  new_user = record {
    id = user_id;
    email = lib.normalise email;
    phone_number = request.phone_number;
    display_name = lib.strip request.display_name;
    password_hash = lib.hash_password request.password;
    role = UserRole.user;
    status = UserStatus.active;
  }

  -- What a registration leaves.
  abbrev pub Registered : TokenResponse → Database → Type 0
  Registered response db' =
      Conserved db db'
      × (get_by_email lib email db ≡ none)
      × (get_by_email lib email db' ≡ some response.user)
      × (wallet_of user_id db' ≡ some (new_wallet wallet_id user_id settings.platform_currency))
      × (response.user.role ≡ UserRole.user)

  -- From a consistent database, with ids that are not in use, when `register` returns, the database is
  -- consistent with as much money as before; the address was not taken, it is now the address of the
  -- returned user, who is no administrator and has an empty wallet.
  pub register-Registered :
      IsConsistent db
      → IsFresh user_id db
      → OnOk Registered (register lib settings request user_id wallet_id now db)
  unfolding register create_user
  register-Registered c fresh =
      OnOk-raise_if Registered (is_some (get_by_email lib email db)) conflict _ db λ free. (
        users-Conserved (new_user ∷ db.users) db _
            (add_wallet-IsConsistent wallet_id user_id settings.platform_currency db fresh c),
        not_taken (get_by_email lib email db) free,
        rw (beq_self (lib.normalise email)) refl,
        rw (beq_self user_id) refl,
        refl,
      )

  -- When a password verifies against its hash: after a registration that returned, a login with the
  -- same address and password returns a token of the registered user, as long as no failed attempt
  -- at this address is remembered.
  pub register-login :
      (lib.verify_password request.password (lib.hash_password request.password) ≡ true)
      → (attempts : Attempts) → attempts email ≡ []
      → (tick tick' : ℕ) (later : DateTime)
      → OnOk
          (λ response db'.
            (login lib settings
              record { email = request.email; password = request.password }
              tick
              tick'
              later
              record { database = db'; attempts = attempts }).0
            ≡ ok (token_response lib settings response.user later))
          (register lib settings request user_id wallet_id now db)
  unfolding register create_user login is_locked prune
  register-login verifies attempts none_yet tick tick' later =
      OnOk-raise_if
        (λ response db'.
          (login lib settings record { email = request.email; password = request.password } tick
            tick' later record { database = db'; attempts = attempts }).0
          ≡ ok (token_response lib settings response.user later))
        (is_some (get_by_email lib email db)) conflict _ db
        λ _. rw (beq_self email, none_yet, beq_self (lib.normalise email), verifies) refl
