-- ===== src/Auth/Lockout.antt =====
-- The lockout of app/core/security.py in the login of app/services/auth_service.py.
use buddy_bet_v.Prelude.{
  ℕ, ◌+◌, ◌-◌, ◌≤◌, ◌≡◌, refl, arith, true, false, Bool-cases, inl, inr, Option-cases, some, List,
  [], ◌∷◌, ◌++◌, String, String-eq, leb, ltb, if◌then◌else◌, beq_self, subst,
}
use buddy_bet_v.Exec.{err, unauthorized}
use buddy_bet_v.Models.{DateTime, User, Database}
use buddy_bet_v.Config.{AuthSettings}
use buddy_bet_v.Matches.Settlement.{count}
use buddy_bet_v.Auth.{SecurityLibraries, get_by_email}
use buddy_bet_v.Auth.Tracker.{
  Attempts, window, max_attempts, recent, set_times, prune, is_locked, record_failure,
}
use buddy_bet_v.Auth.Service.{AuthState, LoginRequest, login}

-- The moments lie before the end, and less than a window before it.
abbrev pub AreRecent : ℕ → List ℕ → Type 0
AreRecent end [] = Unit {0}
AreRecent end (t ∷ times) = ((t ≤ end) × (ltb (end - t) window ≡ true)) × AreRecent end times

in_window : (t end x : ℕ) → t ≤ end → ltb (end - x) window ≡ true → ltb (t - x) window ≡ true
in_window t end x before h = ground arith

recent-all : (t end : ℕ) (times : List ℕ) → t ≤ end → AreRecent end times → recent t times ≡ times
recent-all t end [] before all = refl
recent-all t end (x ∷ times) before ((_, near), all) =
    rw (in_window t end x before near, recent-all t end times before all) refl

count-snoc : (times : List ℕ) (t : ℕ) → count (times ++ (t ∷ [])) ≡ count times + 1
count-snoc [] t = refl
count-snoc (x ∷ times) t = rw (count-snoc times t) refl

AreRecent-snoc :
    (t end : ℕ) (times : List ℕ)
    → t ≤ end
    → ltb (end - t) window ≡ true
    → AreRecent end times
    → AreRecent end (times ++ (t ∷ []))
AreRecent-snoc t end [] before near all = ((before, near), tt)
AreRecent-snoc t end (x ∷ times) before near (first, all) =
    (first, AreRecent-snoc t end times before near all)

set_times-same :
    (email : String) (times : List ℕ) (attempts : Attempts)
    → set_times email times attempts email ≡ times
set_times-same email times attempts = rw (beq_self email) refl

record_failure-same :
    (email : String) (t : ℕ) (times : List ℕ) (attempts : Attempts)
    → attempts email ≡ times
    → recent t times ≡ times
    → record_failure email t attempts email ≡ times ++ (t ∷ [])
unfolding record_failure prune
record_failure-same email t times attempts at same = rw (beq_self email, at, same) refl

locked_by : (n : ℕ) → 5 ≤ n → leb max_attempts n ≡ true
locked_by n h = ground arith

-- A login, the two readings of the monotonic clock in it, and the moment at which it would get a token.
pub record Attempt : Type 0 where
  pub request : LoginRequest
  pub tick : ℕ
  pub tick' : ℕ
  pub at : DateTime

module _ (lib : SecurityLibraries) (settings : AuthSettings) where
  -- The password is not that of the user with this address, if there is one.
  abbrev pub IsWrong : LoginRequest → Database → Type 0
  IsWrong request db =
      (user : User)
      → get_by_email lib (lib.normalise request.email) db ≡ some user
      → lib.verify_password request.password user.password_hash ≡ false

  -- The logins are for one address, each with a password that is wrong, and less than a window before
  -- the end.
  abbrev pub AreWrong : String → ℕ → Database → List Attempt → Type 0
  AreWrong email end db [] = Unit {0}
  AreWrong email end db (a ∷ rest) =
      ((lib.normalise a.request.email ≡ email)
        × IsWrong a.request db
        × (a.tick ≤ end)
        × (a.tick' ≤ end)
        × (ltb (end - a.tick') window ≡ true))
      × AreWrong email end db rest

  -- Logins one after the other, whatever they answer.
  abbrev pub login_each : List Attempt → AuthState → AuthState
  login_each [] s = s
  login_each (a ∷ rest) s = login_each rest (login lib settings a.request a.tick a.tick' a.at s).1

  abbrev next_times : ℕ → List ℕ → List ℕ
  next_times t times = if leb max_attempts (count times) then times else times ++ (t ∷ [])

  module _ (a : Attempt) (s : AuthState) (wrong : IsWrong a.request s.database) where
    abbrev email : String
    email = lib.normalise a.request.email

    login-wrong :
        (end : ℕ)
        → a.tick ≤ end
        → a.tick' ≤ end
        → AreRecent end (s.attempts email)
        → let s' = (login lib settings a.request a.tick a.tick' a.at s).1 in
          (s'.database ≡ s.database) × (s'.attempts email ≡ next_times a.tick' (s.attempts email))
    unfolding login is_locked prune
    login-wrong end before before' all =
        let times = s.attempts email in
        let kept = recent-all a.tick end times before all in
        let noted = set_times-same email times s.attempts in
        let failed =
          record_failure-same email a.tick' times (set_times email times s.attempts) noted
            (recent-all a.tick' end times before' all) in
        elim (Bool-cases (leb max_attempts (count times))) [
          | inl locked ↦ rw (beq_self email, kept, locked) (refl, noted)
          | inr free ↦ elim (Option-cases (get_by_email lib email s.database)) [
            | inl missing ↦ rw (beq_self email, kept, free, missing) (refl, failed)
            | inr (user, found) ↦
                rw (beq_self email, kept, free, found, wrong user found) (refl, failed)
          ]
        ]

  next_times-AreRecent :
      (t end : ℕ) (times : List ℕ)
      → t ≤ end
      → ltb (end - t) window ≡ true
      → AreRecent end times
      → AreRecent end (next_times t times)
  next_times-AreRecent t end times before near all =
      elim (Bool-cases (leb max_attempts (count times))) [
        | inl locked ↦ rw locked all
        | inr free ↦ rw free (AreRecent-snoc t end times before near all)
      ]

  next_times-count :
      (t k : ℕ) (times : List ℕ) → 5 ≤ k + 1 + count times → 5 ≤ k + count (next_times t times)
  next_times-count t k times h = elim (Bool-cases (leb max_attempts (count times))) [
    | inl locked ↦ rw locked (ground (arith, locked))
    | inr free ↦ rw (free, count-snoc times t) (omega (arith, h))
  ]

  module _ (email : String) (end : ℕ) where
    -- The tracker after the failed logins.
    locked-after :
        (attempts : List Attempt) (s : AuthState)
        → AreWrong email end s.database attempts
        → AreRecent end (s.attempts email)
        → 5 ≤ count attempts + count (s.attempts email)
        → let times = (login_each attempts s).attempts email in
          AreRecent end times × (5 ≤ count times)
    locked-after [] s wrong all enough = (all, omega (arith, enough))
    locked-after (a ∷ rest) s ((same_email, wrong, before, before', near), others) all enough =
        let s' = (login lib settings a.request a.tick a.tick' a.at s).1 in
        let (same, noted') = login-wrong a s wrong end before before' (rw same_email all) in
        let noted : s'.attempts email ≡ next_times a.tick' (s.attempts email) =
          subst (λ e. s'.attempts e ≡ next_times a.tick' (s.attempts e)) same_email noted' in
        locked-after rest s' (rw same others)
          (rw noted (next_times-AreRecent a.tick' end (s.attempts email) before' near all))
          (rw noted (next_times-count a.tick' (count rest) (s.attempts email) enough))

    -- After five logins or more at one address, within the window and each with a wrong password,
    -- the same one or another, when no failure at this address was remembered before, the next login
    -- at this address within the window is refused, whatever its password is.
    pub login-locked :
        (attempts : List Attempt) (s : AuthState)
        → AreWrong email end s.database attempts
        → s.attempts email ≡ []
        → 5 ≤ count attempts
        → (next : LoginRequest) (tick' : ℕ) (later : DateTime) → lib.normalise next.email ≡ email
        → (login lib settings next end tick' later (login_each attempts s)).0 ≡ err unauthorized
    unfolding login is_locked prune
    login-locked attempts s wrong none_yet five next tick' later same =
        let s' = login_each attempts s in
        let (all, enough) =
          locked-after attempts s wrong (rw none_yet tt) (rw none_yet (omega (arith, five))) in
        rw
          (
            same,
            beq_self email,
            recent-all end end (s'.attempts email) (omega arith) all,
            locked_by (count (s'.attempts email)) enough,
          )
          refl
