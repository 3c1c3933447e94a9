-- ===== src/Escrow/Creation.antt =====
-- `create_bet` (app/services/bet_service.py) in a consistent database.
use buddy_bet_v.Prelude.{
  ℕ-eq, ◌≡◌, ◌<◌, ◌+◌, ◌∙◌, refl, ap, arith, some, List, Bool, true, false, ◌==◌, ◌!=◌, leb, String,
  beq_self, if◌then◌else◌,
}
use buddy_bet_v.Prelude.Int.{ℤ, pos, ◌+ℤ◌, ◌-ℤ◌, ◌≤ℤ◌, leb_ℤ, ltb_ℤ, int_laws}
use buddy_bet_v.Exec.{not_found, account_ineligible, match_not_available, validation}
use buddy_bet_v.Exec.OnOk.{OnOk, OnOk-some, OnOk-raise_if}
use buddy_bet_v.Config.{Settings}
use buddy_bet_v.Money.{Decimal}
use buddy_bet_v.Money.Cents.{IsCents}
use buddy_bet_v.Models.{Uuid, DateTime, User, Wallet, Match, Bet, BetEvent, Database}
use buddy_bet_v.Models.Enums.{
  UserStatus, UserStatus-eq, FootballOutcome, MatchStatus, MatchStatus-eq, BetEventType,
}
use buddy_bet_v.Bets.{bet_of, write_bet_event}
use buddy_bet_v.Bets.Service.{new_bet, add_bet, minutes, create_bet}
use buddy_bet_v.Matches.{match_of, get_match_or_404}
use buddy_bet_v.Table.{total}
use buddy_bet_v.Wallet.Calls
use buddy_bet_v.Wallet.Calls.{perform}
use buddy_bet_v.Wallet.Reconcile.{total_holdings}
use buddy_bet_v.Platform.Laws.{platform_total}
use buddy_bet_v.Settlement.Sound.{BetsGood}
use buddy_bet_v.Escrow.{IsConsistent, bet_hold, request_hold}
use buddy_bet_v.Escrow.Post.{Moved, after, OnOk-perform, post-IsConsistent, post-total}
use buddy_bet_v.Escrow.BetMoves.{Conserved}

-- All the rules of a creation held, and the bet is stored.
abbrev pub Created :
    Settings
    → User
    → Uuid
    → FootballOutcome
    → Decimal
    → Uuid
    → DateTime
    → Database
    → Bet
    → Database
    → Type 0
Created settings creator match_id prediction stake new_id now db bet' db' =
    Conserved db db'
    × (creator.status ≡ UserStatus.active)
    × (settings.min_stake_amount ≤ℤ stake)
    × (stake ≤ℤ settings.max_stake_amount)
    × ((row : Match) × (match_of match_id db ≡ some row)
        × (row.status ≡ MatchStatus.scheduled)
        × (now + minutes settings.bet_creation_cutoff_minutes < row.kickoff_at)
        × (bet'
            ≡ new_bet new_id match_id creator.id prediction stake settings.platform_currency
                row.kickoff_at)
        × (bet_of new_id db' ≡ some bet'))

active_is : (a : UserStatus) → (a != UserStatus.active) ≡ false → a ≡ UserStatus.active
active_is a h = ground (arith, UserStatus-eq.equal_iff a UserStatus.active)

scheduled_is : (a : MatchStatus) → (a != MatchStatus.scheduled) ≡ false → a ≡ MatchStatus.scheduled
scheduled_is a h = ground (arith, MatchStatus-eq.equal_iff a MatchStatus.scheduled)

in_time_is : (a b : DateTime) → leb a b ≡ false → b < a
in_time_is a b h = ground arith

at_least : (a b : Decimal) → ltb_ℤ a b ≡ false → b ≤ℤ a
at_least a b h = ground arith

positive : (a : Decimal) → leb_ℤ a (pos 0) ≡ false → pos 0 ≤ℤ a
positive a h = ground arith

nothing_gained : (t s : ℤ) → t +ℤ ((pos 0 -ℤ s) +ℤ s) ≡ t
nothing_gained t s = omega int_laws

hold_begins :
    (b : Bool) (s bets requests : ℤ)
    → (((if b then s else pos 0) +ℤ pos 0) +ℤ bets) +ℤ requests
      ≡ (bets +ℤ requests) +ℤ (if b then s else pos 0)
hold_begins true s bets requests = omega int_laws
hold_begins false s bets requests = omega int_laws

module _ (new_id match_id creator : Uuid) (prediction : FootballOutcome) (stake : Decimal)
    (currency : String) (kickoff : DateTime) (db : Database) where
  added-BetsGood :
      IsCents stake
      → pos 0 ≤ℤ stake
      → BetsGood db
      → BetsGood (add_bet (new_bet new_id match_id creator prediction stake currency kickoff) db)
  added-BetsGood cents nonneg all j x h = ground (arith, all j x)

  pub created_bet-Conserved :
      let bet = new_bet new_id match_id creator prediction stake currency kickoff in
      (w w' : Wallet)
      → Moved Calls.lock_stake creator stake new_id (add_bet bet db) w w'
      → (events : List BetEvent) → IsCents stake
      → pos 0 ≤ℤ stake
      → IsConsistent db
      → Conserved db (record (after Calls.lock_stake creator stake new_id (add_bet bet db) w') {
        bet_events = events;
      })
  created_bet-Conserved w w' m events cents nonneg c =
      let n : Moved Calls.lock_stake creator stake new_id db w w' = record {
        found = m.found;
        is_moved = m.is_moved;
        is_good = m.is_good;
      } in
      (
        post-IsConsistent Calls.lock_stake creator stake new_id db w w' n _ refl refl refl refl
            (added-BetsGood cents nonneg c.sound.bets) c.withdrawals c.deposits
            (λ j.
              hold_begins (j == creator) stake (total (bet_hold j) db.bets)
                (total (request_hold j) db.withdrawal_requests))
            c,
        ap (λ t. t +ℤ platform_total db)
            (post-total Calls.lock_stake creator stake new_id db w w' n
              ∙ nothing_gained (total_holdings db) stake),
      )

module _ (settings : Settings) (numeric : Decimal → Decimal)
    (numeric-cents : (a : Decimal) → IsCents a → numeric a ≡ a) (creator : User) (match_id : Uuid)
    (prediction : FootballOutcome) (stake : Decimal) (cents : IsCents stake) (new_id : Uuid)
    (now : DateTime) (db : Database) (c : IsConsistent db) where
  -- From a consistent database, for a stake of whole cents that the database stores as it is, when
  -- `create_bet` returns, the database it leaves is consistent and has as much money as before; the
  -- creator is active, the stake is within the limits, the match is scheduled and kicks off after the
  -- cutoff, and the new open bet is stored under its id.
  pub create_bet-Created :
      OnOk
        (Created settings creator match_id prediction stake new_id now db)
        (create_bet settings numeric creator match_id prediction stake new_id now db)
  unfolding create_bet get_match_or_404 write_bet_event perform
  create_bet-Created =
      let P = Created settings creator match_id prediction stake new_id now db in
      OnOk-raise_if P (creator.status != UserStatus.active) account_ineligible _ db λ active.
        OnOk-some P not_found (match_of match_id db) _ db λ row found.
          OnOk-raise_if P (row.status != MatchStatus.scheduled) match_not_available _ db
            λ scheduled.
              OnOk-raise_if P
                (leb row.kickoff_at (now + minutes settings.bet_creation_cutoff_minutes))
                match_not_available _ db
                λ in_time. OnOk-raise_if P (leb_ℤ stake (pos 0)) validation _ db λ above_zero.
                  OnOk-raise_if P (ltb_ℤ stake settings.min_stake_amount) validation _ db λ enough.
                    OnOk-raise_if P (ltb_ℤ settings.max_stake_amount stake) validation _ db
                      λ not_too_much.
                        let bet =
                          new_bet new_id match_id creator.id prediction stake
                            settings.platform_currency row.kickoff_at in
                        let nonneg = positive stake above_zero in
                        rw (numeric-cents stake cents) (
                          OnOk-perform Calls.lock_stake creator.id stake new_id (add_bet bet db) P _
                            c.sound.wallets cents
                            λ w w' m. (
                              created_bet-Conserved new_id match_id creator.id prediction stake
                                  settings.platform_currency row.kickoff_at db w w' m
                                  (write_bet_event new_id BetEventType.created (some creator.id)
                                    "USER" db).1.bet_events
                                  cents nonneg c,
                              active_is creator.status active,
                              at_least stake settings.min_stake_amount enough,
                              at_least settings.max_stake_amount stake not_too_much,
                              (
                                row,
                                found,
                                scheduled_is row.status scheduled,
                                in_time_is row.kickoff_at
                                    (now + minutes settings.bet_creation_cutoff_minutes) in_time,
                                refl,
                                rw (beq_self new_id) refl,
                              ),
                            ))
