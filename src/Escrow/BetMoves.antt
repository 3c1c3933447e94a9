-- ===== src/Escrow/BetMoves.antt =====
-- A bet is created, accepted and cancelled (app/services/bet_service.py) in a consistent database.
use buddy_bet_v.Prelude.{
  ℕ-eq, ◌≡◌, ◌≢◌, refl, sym, ap, subst, arith, some, false, ◌==◌, ◌!=◌, leb, ◌<◌, Eq, List, ◌∙◌,
  beq_self,
}
use buddy_bet_v.Prelude.Int.{pos, ◌+ℤ◌, int_laws, add_zero}
use buddy_bet_v.Exec.{
  forbidden, bet_not_available, not_found, account_ineligible, bet_expired, self_bet,
  prediction_conflict,
}
use buddy_bet_v.Exec.OnOk.{OnOk, OnOk-some, OnOk-raise_if}
use buddy_bet_v.Table.{find-key, find-set}
use buddy_bet_v.Models.{Uuid, DateTime, User, Wallet, Bet, BetEvent, Database}
use buddy_bet_v.Models.Enums.{
  UserStatus, UserStatus-eq, FootballOutcome, FootballOutcome-eq, BetStatus, BetStatus-eq,
  BetEventType,
}
use buddy_bet_v.Bets.{bet_id_of, bet_of, set_bet, get_bet_or_404, write_bet_event}
use buddy_bet_v.Bets.Service.{matched_bet, cancelled_bet, accept_bet, cancel_bet}
use buddy_bet_v.Wallet.Calls
use buddy_bet_v.Wallet.Calls.{Method, perform}
use buddy_bet_v.Wallet.Reconcile.{total_holdings}
use buddy_bet_v.Platform.Laws.{platform_total}
use buddy_bet_v.Settlement.Sound.{total_funds, IsGoodBet, set_bet-BetsGood}
use buddy_bet_v.Escrow.{IsConsistent, bet_hold}
use buddy_bet_v.Escrow.Post.{Moved, after, OnOk-perform, post-IsConsistent, post-total}
use buddy_bet_v.Escrow.Holds.{at, held-set_bet, bet_hold-matched, bet_hold-cancelled}

-- A consistent database, with as much money as before.
abbrev pub Conserved : Database → Database → Type 0
Conserved db db' = IsConsistent db' × (total_funds db' ≡ total_funds db)

user_is : (a b : Uuid) → (a != b) ≡ false → a ≡ b
user_is a b h = ground (arith, ℕ-eq.equal_iff a b)

bet_is : (a b : BetStatus) → (a != b) ≡ false → a ≡ b
bet_is a b h = ground (arith, BetStatus-eq.equal_iff a b)

-- A call of the wallet service and a new state of a bet that holds as much more as the call locks.
module _ (method : Method) (user : Uuid) (bet_id : Uuid) (db : Database) (bet : Bet)
    (found : bet_of bet_id db ≡ some bet) where
  pub set_bet-Conserved :
      (wallet wallet' : Wallet)
      → Moved method user bet.stake_amount bet.id db wallet wallet'
      → (bet' : Bet) (events : List BetEvent) → bet'.id ≡ bet.id
      → IsGoodBet bet'
      → Calls.to_available method bet.stake_amount +ℤ Calls.to_locked method bet.stake_amount
        ≡ pos 0
      → ((j : Uuid)
          → bet_hold j bet' ≡ bet_hold j bet +ℤ at j user (Calls.to_locked method bet.stake_amount))
      → IsConsistent db
      → let db' : Database =
          record (set_bet bet' (after method user bet.stake_amount bet.id db wallet')) {
            bet_events = events;
          } in
        Conserved db db' × (bet_of bet_id db' ≡ some bet')
  set_bet-Conserved wallet wallet' m bet' events same good balanced holds c =
      let key : bet'.id ≡ bet_id = same ∙ find-key bet_id_of bet_id bet db.bets found in
      let found' : bet_of bet'.id db ≡ some bet =
        subst (λ k. bet_of k db ≡ some bet) (sym key) found in
      (
        (
          post-IsConsistent method user bet.stake_amount bet.id db wallet wallet' m _ refl refl refl
              refl (set_bet-BetsGood bet bet' db found' good c.sound.bets) c.withdrawals c.deposits
              (λ j.
                held-set_bet j db (at j user (Calls.to_locked method bet.stake_amount)) bet bet'
                  found' (holds j))
              c,
          ap (λ t. t +ℤ platform_total db)
              (post-total method user bet.stake_amount bet.id db wallet wallet' m
                ∙ rw balanced (add_zero (total_holdings db))),
        ),
        rw (find-set bet_id_of bet_id bet'.id bet' bet db.bets found' refl, key, beq_self bet_id)
            refl,
      )

-- The requester is the creator, and the bet was open: it is cancelled.
abbrev pub Cancelled : User → Uuid → Database → Bet → Database → Type 0
Cancelled requester bet_id db bet' db' =
    Conserved db db'
    × ((bet : Bet) × (bet_of bet_id db ≡ some bet)
        × (bet.creator_id ≡ requester.id)
        × (bet.status ≡ BetStatus.open_bet)
        × (bet' ≡ cancelled_bet bet)
        × (bet_of bet_id db' ≡ some bet'))

module _ (bet_id : Uuid) (db : Database) (c : IsConsistent db) where
  -- From a consistent database, when `cancel_bet` returns, the database it leaves is consistent and
  -- has as much money as before; the requester is the creator, the bet was open, and it is stored as
  -- cancelled with all else kept.
  pub cancel_bet-Cancelled :
      (requester : User) → OnOk (Cancelled requester bet_id db) (cancel_bet requester bet_id db)
  unfolding cancel_bet get_bet_or_404 write_bet_event perform
  cancel_bet-Cancelled requester =
      let P = Cancelled requester bet_id db in
      OnOk-some P not_found (bet_of bet_id db) _ db λ bet found.
        OnOk-raise_if P (bet.creator_id != requester.id) forbidden _ db λ own.
          OnOk-raise_if P (bet.status != BetStatus.open_bet) bet_not_available _ db λ is_open.
            OnOk-perform Calls.unlock_stake bet.creator_id bet.stake_amount bet.id db P _
              c.sound.wallets (c.sound.bets bet_id bet found).0
              λ w w' m.
                let open_before = bet_is bet.status BetStatus.open_bet is_open in
                let (conserved, stored) =
                  set_bet-Conserved Calls.unlock_stake bet.creator_id bet_id db bet found w w' m
                    (cancelled_bet bet)
                    (write_bet_event bet.id BetEventType.cancelled (some requester.id) "USER"
                      db).1.bet_events
                    refl (c.sound.bets bet_id bet found) (omega int_laws)
                    (λ j. bet_hold-cancelled j bet open_before) c in
                (
                  conserved,
                  (bet, found, user_is bet.creator_id requester.id own, open_before, refl, stored),
                )

-- All the rules of an acceptance held, and the bet is matched.
abbrev pub Accepted : User → Uuid → FootballOutcome → DateTime → Database → Bet → Database → Type 0
Accepted opponent bet_id prediction now db bet' db' =
    Conserved db db'
    × ((bet : Bet) × (bet_of bet_id db ≡ some bet)
        × (opponent.status ≡ UserStatus.active)
        × (bet.status ≡ BetStatus.open_bet)
        × (now < bet.expires_at)
        × (opponent.id ≢ bet.creator_id)
        × (prediction ≢ bet.creator_prediction)
        × (bet' ≡ matched_bet opponent.id prediction bet)
        × (bet_of bet_id db' ≡ some bet'))

is_active : (a : UserStatus) → (a != UserStatus.active) ≡ false → a ≡ UserStatus.active
is_active a h = ground (arith, UserStatus-eq.equal_iff a UserStatus.active)

not_yet : (a b : DateTime) → leb a b ≡ false → b < a
not_yet a b h = ground arith

differs : {A : Type 0} ⦃e : Eq A⦄ (a b : A) → (a == b) ≡ false → a ≢ b
differs ⦃e⦄ a b h same = ground (arith, e.equal_iff a b)

matched_bet-IsGoodBet :
    (opponent : Uuid) (prediction : FootballOutcome) (bet : Bet)
    → opponent ≢ bet.creator_id
    → IsGoodBet bet
    → IsGoodBet (matched_bet opponent prediction bet)
matched_bet-IsGoodBet opponent prediction bet distinct (cents, nonneg, _) =
    (cents, nonneg, λ other is_other same. distinct (ground arith))

module _ (bet_id : Uuid) (db : Database) (c : IsConsistent db) (opponent : User)
    (prediction : FootballOutcome) (now : DateTime) where
  -- From a consistent database, when `accept_bet` returns, the database it leaves is consistent and
  -- has as much money as before; the opponent is active and not the creator, the bet was open and had
  -- not expired, the two predictions differ, and the bet is stored as matched with the opponent.
  pub accept_bet-Accepted :
      OnOk
        (Accepted opponent bet_id prediction now db)
        (accept_bet opponent bet_id prediction now db)
  unfolding accept_bet get_bet_or_404 write_bet_event perform
  accept_bet-Accepted =
      let P = Accepted opponent bet_id prediction now db in
      OnOk-raise_if P (opponent.status != UserStatus.active) account_ineligible _ db λ active.
        OnOk-some P not_found (bet_of bet_id db) _ db λ bet found.
          OnOk-raise_if P (bet.status != BetStatus.open_bet) bet_not_available _ db λ is_open.
            OnOk-raise_if P (leb bet.expires_at now) bet_expired _ db λ in_time.
              OnOk-raise_if P (opponent.id == bet.creator_id) self_bet _ db λ other.
                OnOk-raise_if P (prediction == bet.creator_prediction) prediction_conflict _ db
                  λ another.
                    OnOk-perform Calls.lock_stake opponent.id bet.stake_amount bet.id db P _
                      c.sound.wallets (c.sound.bets bet_id bet found).0
                      λ w w' m.
                        let open_before = bet_is bet.status BetStatus.open_bet is_open in
                        let distinct = differs opponent.id bet.creator_id other in
                        let (conserved, stored) =
                          set_bet-Conserved Calls.lock_stake opponent.id bet_id db bet found w w' m
                            (matched_bet opponent.id prediction bet)
                            (write_bet_event bet.id BetEventType.matched (some opponent.id) "USER"
                              db).1.bet_events
                            refl
                            (matched_bet-IsGoodBet opponent.id prediction bet distinct
                              (c.sound.bets bet_id bet found))
                            (omega int_laws)
                            (λ j. bet_hold-matched j bet opponent.id prediction open_before) c in
                        (
                          conserved,
                          (
                            bet,
                            found,
                            is_active opponent.status active,
                            open_before,
                            not_yet bet.expires_at now in_time,
                            distinct,
                            differs prediction bet.creator_prediction another,
                            refl,
                            stored,
                          ),
                        )
