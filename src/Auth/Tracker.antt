-- ===== src/Auth/Tracker.antt =====
-- `LoginAttemptTracker` of app/core/security.py: the failed attempts of each e-mail address within a
-- window that moves on. A moment is a number of microseconds of the monotonic clock.
use buddy_bet_v.Prelude.{
  ℕ, ◌-◌, ◌*◌, ◌^◌, Bool, List, [], ◌∷◌, ◌++◌, String, String-eq, ltb, leb, ◌==◌, if◌then◌else◌,
}
use buddy_bet_v.Matches.Settlement.{count}

-- `self._attempts`; an address that is not a key has no attempts.
abbrev pub Attempts : Type 0
Attempts = String → List ℕ

abbrev pub max_attempts : ℕ
max_attempts = 5

abbrev pub window : ℕ
window = 900 * 10 ^ 6

abbrev pub recent : ℕ → List ℕ → List ℕ
recent now [] = []
recent now (t ∷ times) = if ltb (now - t) window then t ∷ recent now times else recent now times

-- `self._attempts[email] = times`
abbrev pub set_times : String → List ℕ → Attempts → Attempts
set_times email times attempts other = if other == email then times else attempts other

unfoldable pub prune : String → ℕ → Attempts → Attempts
prune email now attempts = set_times email (recent now (attempts email)) attempts

unfoldable pub is_locked : String → ℕ → Attempts → Bool × Attempts
unfolding prune
is_locked email now attempts =
    let attempts' = prune email now attempts in
    (leb max_attempts (count (attempts' email)), attempts')

unfoldable pub record_failure : String → ℕ → Attempts → Attempts
unfolding prune
record_failure email now attempts =
    let attempts' = prune email now attempts in
    set_times email (attempts' email ++ (now ∷ [])) attempts'

unfoldable pub clear : String → Attempts → Attempts
clear email attempts = set_times email [] attempts
